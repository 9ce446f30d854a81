-- ===== src/Core/Applied.antt =====
-- What a consumer confirms is what it applied: its loop over changes, against applying them one after
-- the other until one fails.
use laredo.Common.{
  ℕ, zero, suc, String, Bool, true, false, ◌≡◌, refl, ap, subst, ◌∙◌, Option, none, some, List, [],
  ◌∷◌, arith, if◌then◌else◌, Bool-cases, inl, inr, get_elem?, modify_at, get, get-put, ==_refl,
  comparable_string,
}
use laredo.Pipeline.{
  Pipeline, ErrorPolicyKind, SyncTarget, pipeline_streaming, pipeline_error, error_isolate,
  apply_change_to_target,
}
use laredo.Pipeline.Retry.{Keeps, Keeps-trans, apply_change_to_target-Keeps, retry_change-Keeps}
use laredo.DeadLetter.{ChangeEvent}
use laredo.Engine.Ack.{confirm, skip, ack_position}
use laredo.Engine.Ack.Positions.{ack_position-SameBut}
use laredo.Core.{
  CoreEngine, on_pipeline, same_state, apply_error_policy, advance_ack, transition_pipeline,
}
use laredo.Core.Consumer.{
  PipelineItem, change, Turn, attempt, confirm_durable, give_up, consume, consume_all,
  consume_change, stops_source,
}

module _ {A : Type 0} where
  get_elem?-modify_at :
      (xs : List A) (n : ℕ) (x : A) (f : A → A)
      → get_elem? xs n ≡ some x
      → get_elem? (modify_at xs n f) n ≡ some (f x)
  get_elem?-modify_at [] n x f h = absurd (ground (arith, h))
  get_elem?-modify_at (y ∷ xs) zero x f h = ap some (ap f (ground (arith, h)))
  get_elem?-modify_at (y ∷ xs) (suc n) x f h = get_elem?-modify_at xs n x f h

module _ {T P : Type 0} (s : SyncTarget T P) where
  -- The pipeline after applying the changes until one fails, the position of the last that was applied
  -- where one was, nil where that one has none, and whether none failed.
  unfoldable pub apply_all :
      Pipeline T → List (Turn × ChangeEvent P) → Pipeline T × Option (Option P) × Bool
  apply_all p [] = (p, none, true)
  apply_all p ((turn, e) ∷ es) =
      let (p', ok) = attempt s turn p e in
      let (q, last, all) = apply_all p' es in
      if ok
      then (q, elim last [ none ↦ some e.position | some later ↦ some later ], all)
      else (p', none, false)

  -- the changes as items of the buffer
  abbrev pub as_items : List (Turn × ChangeEvent P) → List (Turn × PipelineItem P)
  as_items [] = []
  as_items ((turn, e) ∷ es) = (turn, change e) ∷ as_items es

  attempt-Keeps :
      (turn : Turn) (p : Pipeline T) (e : ChangeEvent P) → Keeps p (attempt s turn p e).0
  unfolding attempt
  attempt-Keeps turn p e =
      let first : Keeps p (apply_change_to_target s turn.now p e).0 =
        apply_change_to_target-Keeps s turn.now p e in
      elim (Bool-cases (apply_change_to_target s turn.now p e).1) [
        | inl y ↦ rw (attempt, y) first
        | inr n ↦ rw (attempt, n) (Keeps-trans first (retry_change-Keeps s _ turn.timer _ e))
      ]

  -- acknowledging leaves the pipelines and the confirmed positions as they were
  advance_ack-positions :
      (c : CoreEngine T P) (source_id : String) (taken : Bool)
      → (advance_ack c source_id taken).ack_tracker.positions ≡ c.ack_tracker.positions
  unfolding advance_ack
  advance_ack-positions c source_id taken = (ack_position-SameBut c.ack_tracker source_id).positions

  -- a pipeline that does not stream takes no item
  consume_all-idle :
      (c : CoreEngine T P) (idx : ℕ) (idxs : List ℕ) (source_id : String)
      (items : List (Turn × PipelineItem P)) (p : Pipeline T)
      → get_elem? c.pipelines idx ≡ some p
      → same_state p.state pipeline_streaming ≡ false
      → consume_all s c idx idxs source_id items ≡ c
  unfolding consume_all consume
  consume_all-idle c idx idxs source_id [] p h n = refl
  consume_all-idle c idx idxs source_id ((turn, item) ∷ items) p h n =
      rw (consume_all, consume, h, n) (consume_all-idle c idx idxs source_id items p h n)

  -- The confirmed position of a pipeline that had one, or none, before: the last that is given, if any.
  abbrev pub later_of : Option (Option P) → Option (Option P) → Option (Option P)
  later_of none before = before
  later_of (some last) before = some last

  -- a turn that applies a change
  consume-change :
      (c : CoreEngine T P) (idx : ℕ) (idxs : List ℕ) (source_id : String) (turn : Turn)
      (e : ChangeEvent P) (p : Pipeline T)
      → get_elem? c.pipelines idx ≡ some p
      → p.state ≡ pipeline_streaming
      → consume s c turn idx idxs source_id (change e)
        ≡ consume_change s c turn idx idxs source_id e (attempt s turn p e)
  unfolding consume same_state
  consume-change c idx idxs source_id turn e p h streaming =
      simp (consume, h, streaming, same_state)

  applied_turn :
      (durable : (t : T) → s.is_durable t ≡ true) (c : CoreEngine T P) (idx : ℕ) (idxs : List ℕ)
      (source_id : String) (turn : Turn) (e : ChangeEvent P) (p p' : Pipeline T)
      → get_elem? c.pipelines idx ≡ some p
      → let (c', ended) = consume_change s c turn idx idxs source_id e (p', true) in
        (ended ≡ false)
        × (get_elem? c'.pipelines idx ≡ some p')
        × (get c'.ack_tracker.positions p'.id ≡ some e.position)
  unfolding consume_change confirm_durable confirm advance_ack
  applied_turn durable c idx idxs source_id turn e p p' h =
      let base : CoreEngine T P = on_pipeline c idx (λ old. p') in
      let confirmed : get
            (ack_position (confirm base.ack_tracker p'.id e.position) source_id).0.positions p'.id
          ≡ some e.position =
        rw
          (
            (ack_position-SameBut (confirm base.ack_tracker p'.id e.position) source_id).positions,
            get-put c.ack_tracker.positions p'.id p'.id e.position,
            ==_refl p'.id,
          )
          refl in
      rw (durable p'.target) (refl, get_elem?-modify_at c.pipelines idx p (λ old. p') h, confirmed)

  isolate-policy :
      (c : CoreEngine T P) (idx : ℕ) (source_id : String) (idxs : List ℕ) (p' : Pipeline T)
      → p'.error_policy ≡ error_isolate
      → apply_error_policy c idx p' source_id idxs ≡ (
        record (transition_pipeline c idx pipeline_error) {
          ack_tracker = skip c.ack_tracker p'.id;
        },
        false,
      )
  unfolding apply_error_policy
  isolate-policy c idx source_id idxs p' isolate = simp (apply_error_policy, isolate)

  isolate-stops_source : (k : ErrorPolicyKind) → k ≡ error_isolate → stops_source k ≡ false
  unfolding stops_source
  isolate-stops_source k isolate = rw isolate

  failed_turn :
      (c : CoreEngine T P) (idx : ℕ) (idxs : List ℕ) (source_id : String) (turn : Turn)
      (e : ChangeEvent P) (p p' : Pipeline T)
      → get_elem? c.pipelines idx ≡ some p
      → p'.error_policy ≡ error_isolate
      → let (c', ended) = consume_change s c turn idx idxs source_id e (p', false) in
        (ended ≡ false)
        × (get_elem? c'.pipelines idx ≡ some (record p' { state = pipeline_error }))
        × (c'.ack_tracker.positions ≡ c.ack_tracker.positions)
  unfolding consume_change give_up transition_pipeline skip
  failed_turn c idx idxs source_id turn e p p' h isolate =
      let there = get_elem?-modify_at c.pipelines idx p (λ old. p') h in
      simp (isolate-policy _ idx source_id idxs p' isolate, isolate-stops_source _ isolate)
        (
          refl,
          get_elem?-modify_at (modify_at c.pipelines idx (λ old. p')) idx p'
              (λ q. record q { state = pipeline_error }) there,
          refl,
        )

  -- what the loop does from a state of the engine, against `apply_all`
  abbrev pub Runs :
      CoreEngine T P → CoreEngine T P → ℕ → Pipeline T → List (Turn × ChangeEvent P) → Type 0
  Runs c c' idx p es =
      let (q, last, ok) = apply_all p es in
      (get_elem? c'.pipelines idx ≡ some (if ok then q else record q { state = pipeline_error }))
      × (get c'.ack_tracker.positions p.id ≡ later_of last (get c.ack_tracker.positions p.id))

  later_of-later_of :
      (last at before : Option (Option P))
      → later_of last (later_of at before)
        ≡ later_of (elim last [ none ↦ at | some later ↦ some later ]) before
  later_of-later_of none at before = refl
  later_of-later_of (some x) at before = refl

  applied-Runs :
      (durable : (t : T) → s.is_durable t ≡ true) (c : CoreEngine T P) (idx : ℕ) (idxs : List ℕ)
      (source_id : String) (turn : Turn) (e : ChangeEvent P) (es : List (Turn × ChangeEvent P))
      (p p' : Pipeline T)
      → get_elem? c.pipelines idx ≡ some p
      → p.state ≡ pipeline_streaming
      → attempt s turn p e ≡ (p', true)
      → p'.id ≡ p.id
      → let c1 = (consume_change s c turn idx idxs source_id e (p', true)).0 in
        Runs c1 (consume_all s c1 idx idxs source_id (as_items es)) idx p' es
        → Runs c
            (consume_all s c idx idxs source_id (as_items ((turn, e) ∷ es)))
            idx
            p
            ((turn, e) ∷ es)
  unfolding consume_all apply_all
  applied-Runs durable c idx idxs source_id turn e es p p' h streaming at same (there, before) =
      let turned = applied_turn durable c idx idxs source_id turn e p p' h in
      let last = (apply_all p' es).1 in
      rw
        (
          consume_all,
          apply_all,
          consume-change c idx idxs source_id turn e p h streaming,
          at,
          turned.0,
        )
        (
          there,
          rw (← same) (
              before
              ∙ ap (later_of last) turned.2
              ∙ later_of-later_of last (some e.position) (get c.ack_tracker.positions p'.id)),
        )

  failed-Runs :
      (c : CoreEngine T P) (idx : ℕ) (idxs : List ℕ) (source_id : String) (turn : Turn)
      (e : ChangeEvent P) (es : List (Turn × ChangeEvent P)) (p p' : Pipeline T)
      → get_elem? c.pipelines idx ≡ some p
      → p.state ≡ pipeline_streaming
      → attempt s turn p e ≡ (p', false)
      → p'.error_policy ≡ error_isolate
      → Runs c
          (consume_all s c idx idxs source_id (as_items ((turn, e) ∷ es)))
          idx
          p
          ((turn, e) ∷ es)
  unfolding consume_all apply_all same_state
  failed-Runs c idx idxs source_id turn e es p p' h streaming at isolate =
      let turned = failed_turn c idx idxs source_id turn e p p' h isolate in
      rw
        (
          consume_all,
          apply_all,
          consume-change c idx idxs source_id turn e p h streaming,
          at,
          turned.0,
          consume_all-idle (consume_change s c turn idx idxs source_id e (p', false)).0 idx idxs
              source_id (as_items es) (record p' { state = pipeline_error }) turned.1 refl,
        )
        (turned.1, rw turned.2 refl)

  -- What a consumer of a streaming pipeline makes of a list of changes, where its target is durable
  -- and its errors isolate it: the pipeline is as after applying the changes one after the other until
  -- one fails, and in ERROR where one failed; and what is confirmed for it is the position of the last
  -- change applied, nil where that change has none, or what was confirmed before where no change was
  -- applied.
  pub consume_all-apply_all :
      (durable : (t : T) → s.is_durable t ≡ true) (c : CoreEngine T P) (idx : ℕ) (idxs : List ℕ)
      (source_id : String) (es : List (Turn × ChangeEvent P)) (p : Pipeline T)
      → get_elem? c.pipelines idx ≡ some p
      → p.state ≡ pipeline_streaming
      → p.error_policy ≡ error_isolate
      → Runs c (consume_all s c idx idxs source_id (as_items es)) idx p es
  unfolding consume_all apply_all
  consume_all-apply_all durable c idx idxs source_id [] p h streaming isolate = (h, refl)
  consume_all-apply_all durable c idx idxs source_id ((turn, e) ∷ es) p h streaming isolate =
      step (attempt s turn p e).0 (attempt s turn p e).1 refl
        (λ (c1 : CoreEngine T P) (p' : Pipeline T) there streams isolates.
          consume_all-apply_all durable c1 idx idxs source_id es p' there streams isolates)
    where
      kept : Keeps p (attempt s turn p e).0
      kept = attempt-Keeps turn p e

      Later : Type 0
      Later =
          (c1 : CoreEngine T P) (p' : Pipeline T)
          → get_elem? c1.pipelines idx ≡ some p'
          → p'.state ≡ pipeline_streaming
          → p'.error_policy ≡ error_isolate
          → Runs c1 (consume_all s c1 idx idxs source_id (as_items es)) idx p' es

      step :
          (p' : Pipeline T) (ok : Bool)
          → attempt s turn p e ≡ (p', ok)
          → Later
          → Runs c
              (consume_all s c idx idxs source_id (as_items ((turn, e) ∷ es)))
              idx
              p
              ((turn, e) ∷ es)
      step p' true at later =
          let kept' : Keeps p p' = subst (λ (r : Pipeline T × Bool). Keeps p r.0) at kept in
          applied-Runs durable c idx idxs source_id turn e es p p' h streaming at kept'.id (
            later _ p' (applied_turn durable c idx idxs source_id turn e p p' h).1
              (kept'.state ∙ streaming) (kept'.error_policy ∙ isolate))
      step p' false at later =
          let kept' : Keeps p p' = subst (λ (r : Pipeline T × Bool). Keeps p r.0) at kept in
          failed-Runs c idx idxs source_id turn e es p p' h streaming at
            (kept'.error_policy ∙ isolate)

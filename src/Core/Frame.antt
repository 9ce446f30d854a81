-- ===== src/Core/Frame.antt =====
-- What a transition does to the pipelines: those that are down stay as they are.
use laredo.Common.{
  ℕ, zero, suc, String, Bool, true, false, not, ◌&&◌, ◌≡◌, ◌≢◌, refl, sym, ap, ◌∙◌, none, some,
  List, [], ◌∷◌, arith, if◌then◌else◌, Option-cases, inl, inr, get_elem?, modify_at, positions_from,
  ◌==◌, comparable_string,
}
use laredo.Pipeline.{
  Pipeline, PipelineState, pipeline_initializing, pipeline_baselining, pipeline_streaming,
  pipeline_paused, pipeline_error, pipeline_stopped, ErrorPolicyKind, error_isolate,
  error_stop_source, error_stop_all,
}
use laredo.Core.{
  CoreEngine, on_pipeline, same_state, is_down, in_state, transition_pipeline, transition_pipelines,
  fail, fail_each, apply_error_policy,
}

module _ {A : Type 0} where
  -- a change at a position leaves the element at another, and one that it maps to itself
  pub get_elem?-modify_at_kept :
      (xs : List A) (n i : ℕ) (x : A) (f : A → A)
      → get_elem? xs i ≡ some x
      → (n ≡ i → f x ≡ x)
      → get_elem? (modify_at xs n f) i ≡ some x
  get_elem?-modify_at_kept [] n i x f h same = h
  get_elem?-modify_at_kept (y ∷ xs) zero zero x f h same =
      let e : y ≡ x = ground (arith, h) in rw e (ap some (same refl))
  get_elem?-modify_at_kept (y ∷ xs) zero (suc i) x f h same = h
  get_elem?-modify_at_kept (y ∷ xs) (suc n) zero x f h same = h
  get_elem?-modify_at_kept (y ∷ xs) (suc n) (suc i) x f h same =
      get_elem?-modify_at_kept xs n i x f h (λ e. same (ap suc e))

-- A state that is down is none of the others.
pub is_down-same_state :
    (st other : PipelineState)
    → is_down st ≡ true
    → is_down other ≡ false
    → same_state st other ≡ false
unfolding is_down same_state
is_down-same_state pipeline_error pipeline_initializing h k = refl
is_down-same_state pipeline_error pipeline_baselining h k = refl
is_down-same_state pipeline_error pipeline_streaming h k = refl
is_down-same_state pipeline_error pipeline_paused h k = refl
is_down-same_state pipeline_error pipeline_error h k = cc
is_down-same_state pipeline_error pipeline_stopped h k = cc
is_down-same_state pipeline_stopped pipeline_initializing h k = refl
is_down-same_state pipeline_stopped pipeline_baselining h k = refl
is_down-same_state pipeline_stopped pipeline_streaming h k = refl
is_down-same_state pipeline_stopped pipeline_paused h k = refl
is_down-same_state pipeline_stopped pipeline_error h k = cc
is_down-same_state pipeline_stopped pipeline_stopped h k = cc
is_down-same_state pipeline_initializing other h k = cc
is_down-same_state pipeline_baselining other h k = cc
is_down-same_state pipeline_streaming other h k = cc
is_down-same_state pipeline_paused other h k = cc

module _ {T P : Type 0} (i : ℕ) (p : Pipeline T) (down : is_down p.state ≡ true) where
  -- The pipeline stands at the position.
  abbrev pub Holds : CoreEngine T P → Type 0
  Holds c = get_elem? c.pipelines i ≡ some p

  pub on_pipeline-Holds :
      (c : CoreEngine T P) (n : ℕ) (f : Pipeline T → Pipeline T)
      → Holds c
      → (n ≡ i → f p ≡ p)
      → Holds (on_pipeline c n f)
  on_pipeline-Holds c n f h same = get_elem?-modify_at_kept c.pipelines n i p f h same

  -- a pipeline that is not down stands elsewhere
  pub up_elsewhere :
      (c : CoreEngine T P) (n : ℕ) (q : Pipeline T)
      → Holds c
      → get_elem? c.pipelines n ≡ some q
      → is_down q.state ≡ false
      → n ≢ i
  up_elsewhere c n q h at up same =
      let one : p ≡ q = ground (arith, h, at, ap (get_elem? c.pipelines) same) in
      let both : true ≡ false = sym down ∙ ap (λ (r : Pipeline T). is_down r.state) one ∙ up in cc

  -- a step at the pipeline of a position, where one is there
  pub at-Holds :
      (c : CoreEngine T P) (n : ℕ) (f : Pipeline T → CoreEngine T P)
      → Holds c
      → ((q : Pipeline T) → get_elem? c.pipelines n ≡ some q → Holds (f q))
      → Holds (elim (get_elem? c.pipelines n) [ none ↦ c | some q ↦ f q ])
  at-Holds c n f h each = elim (Option-cases (get_elem? c.pipelines n)) [
    | inl e ↦ rw e h
    | inr (q, e) ↦ rw e (each q e)
  ]

  pub transition-Holds :
      (c : CoreEngine T P) (n : ℕ) (st : PipelineState)
      → Holds c
      → n ≢ i
      → Holds (transition_pipeline c n st)
  unfolding transition_pipeline
  transition-Holds c n st h other = on_pipeline-Holds c n _ h (λ e. absurd (other e))

  -- of two engines by a test
  pub if-Holds :
      (b : Bool) (c d : CoreEngine T P)
      → (b ≡ true → Holds c)
      → (b ≡ false → Holds d)
      → Holds (if b then c else d)
  if-Holds true c d h k = h refl
  if-Holds false c d h k = k refl

  -- a pipeline whose state passes a test that a state which is down fails stands elsewhere
  pub in_state_elsewhere :
      (c : CoreEngine T P) (n : ℕ) (passes : PipelineState → Bool) (b : Bool)
      → Holds c
      → in_state c n passes ≡ b
      → passes p.state ≢ b
      → n ≢ i
  unfolding in_state
  in_state_elsewhere c n passes b h at fails same = fails (sym (rw (in_state, same, h) refl) ∙ at)

  pub transition_pipelines-Holds :
      (c : CoreEngine T P) (idxs : List ℕ) (st : PipelineState)
      → Holds c
      → Holds (transition_pipelines c idxs st)
  unfolding transition_pipelines
  transition_pipelines-Holds c [] st h = h
  transition_pipelines-Holds c (n ∷ idxs) st h =
      transition_pipelines-Holds (if in_state c n is_down then c else transition_pipeline c n st)
        idxs st
        (if-Holds (in_state c n is_down) c (transition_pipeline c n st) (λ y. h)
          (λ up.
            transition-Holds c n st h
              (in_state_elsewhere c n is_down false h up (λ e. absurd (ground arith)))))

  fail-Holds :
      (c : CoreEngine T P) (n : ℕ) (chosen : Pipeline T → Bool) → Holds c → Holds (fail c n chosen)
  unfolding fail
  fail-Holds c n chosen h = at-Holds c n _ h (λ q e.
      if-Holds (chosen q && not (is_down q.state)) _ c
        (λ y. transition-Holds c n pipeline_error h (up_elsewhere c n q h e (ground arith)))
        (λ y. h))

  pub fail_each-Holds :
      (c : CoreEngine T P) (idxs : List ℕ) (chosen : Pipeline T → Bool)
      → Holds c
      → Holds (fail_each c idxs chosen)
  unfolding fail_each
  fail_each-Holds c [] chosen h = h
  fail_each-Holds c (n ∷ idxs) chosen h =
      fail_each-Holds (fail c n chosen) idxs chosen (fail-Holds c n chosen h)

  -- an error policy that applies to another pipeline
  pub apply_error_policy-Holds :
      (c : CoreEngine T P) (n : ℕ) (q : Pipeline T) (source_id : String) (idxs : List ℕ)
      → Holds c
      → n ≢ i
      → Holds (apply_error_policy c n q source_id idxs).0
  unfolding apply_error_policy
  apply_error_policy-Holds c n q source_id idxs h other = go q.error_policy refl
    where
      go :
          (k : ErrorPolicyKind)
          → q.error_policy ≡ k
          → Holds (apply_error_policy c n q source_id idxs).0
      go error_isolate e = rw (apply_error_policy, e) (transition-Holds c n pipeline_error h other)
      go error_stop_source e =
          rw (apply_error_policy, e) (fail_each-Holds c idxs (λ pp. pp.source_id == source_id) h)
      go error_stop_all e =
          rw (apply_error_policy, e)
            (fail_each-Holds c (positions_from 0 c.pipelines) (λ pp. true) h)

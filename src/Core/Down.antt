-- ===== src/Core/Down.antt =====
-- A pipeline that is down, in ERROR or STOPPED: what the consumers, the dispatch, the baseline, a
-- restore, pausing, resuming and a reload do to it.
pub mod Baseline
pub mod Methods
pub mod Reach
use laredo.Common.{
  ℕ, suc, ◌+◌, String, Bool, true, false, not, ◌&&◌, ◌≡◌, ◌≢◌, refl, sym, ap, ◌∙◌, Option, none,
  some, List, [], ◌∷◌, arith, if◌then◌else◌, Bool-cases, Option-cases, inl, inr, get_elem?,
  positions_from, ◌==◌, comparable_string, All, get, put, comparable_nat,
}
use laredo.Types.{Row}
use laredo.DeadLetter.{ChangeEvent}
use laredo.Pipeline.{
  Pipeline, PipelineState, SyncTarget, pipeline_initializing, pipeline_baselining,
  pipeline_streaming, pipeline_paused, pipeline_error, pipeline_stopped, BufferPolicy, buffer_block,
  buffer_drop_oldest, buffer_error,
}
use laredo.Engine.Buffer.{
  ChangeBuffer, Outcome, returns, blocks, panics, send_ctx, send_drop_oldest, try_send,
}
use laredo.Core.{
  CoreEngine, on_pipeline, same_state, is_down, in_state, transition_pipeline, transition_pipelines,
  apply_error_policy, advance_ack,
}
use laredo.Core.Consumer.{
  PipelineItem, change, heartbeat, Turn, attempt, confirm_durable, give_up, consume, consume_change,
  consume_heartbeat, consume_item, Buffers, dispatch_to, dispatch_to_buffers, dispatch_heartbeat,
  receiver,
}
use laredo.Core.Frame.{
  Holds, on_pipeline-Holds, up_elsewhere, at-Holds, if-Holds, in_state_elsewhere, transition-Holds,
  transition_pipelines-Holds, apply_error_policy-Holds, is_down-same_state,
}

module _ {T P : Type 0} (s : SyncTarget T P) (i : ℕ) (p : Pipeline T)
    (down : is_down p.state ≡ true) where
  pub same_state-up :
      (st other : PipelineState)
      → is_down other ≡ false
      → same_state st other ≡ true
      → is_down st ≡ false
  unfolding same_state is_down
  same_state-up st other up same = elim (Bool-cases (is_down st)) [
    | inl y ↦ absurd (ground (arith, is_down-same_state st other y up))
    | inr n ↦ n
  ]

  confirm_durable-pipelines :
      (c : CoreEngine T P) (q : Pipeline T) (o : Option P)
      → (confirm_durable s c q o).pipelines ≡ c.pipelines
  unfolding confirm_durable
  confirm_durable-pipelines c q o = ground arith

  consume_change-Holds :
      (c : CoreEngine T P) (turn : Turn) (n : ℕ) (idxs : List ℕ) (source_id : String)
      (e : ChangeEvent P) (q : Pipeline T) (ok : Bool)
      → Holds i p down c
      → n ≢ i
      → Holds i p down (consume_change s c turn n idxs source_id e (q, ok)).0
  unfolding consume_change give_up advance_ack
  consume_change-Holds c turn n idxs source_id e q true h other =
      rw (confirm_durable-pipelines (on_pipeline c n (λ old. q)) q e.position)
        (on_pipeline-Holds i p down c n (λ old. q) h (λ same. absurd (other same)))
  consume_change-Holds c turn n idxs source_id e q false h other =
      apply_error_policy-Holds i p down _ n q source_id idxs
        (on_pipeline-Holds i p down c n (λ old. q) h (λ same. absurd (other same))) other

  consume_item-Holds :
      (c : CoreEngine T P) (turn : Turn) (n : ℕ) (idxs : List ℕ) (source_id : String)
      (q : Pipeline T) (item : PipelineItem P)
      → Holds i p down c
      → n ≢ i
      → Holds i p down (consume_item s c turn n idxs source_id q item).0
  unfolding consume_item consume_heartbeat advance_ack
  consume_item-Holds c turn n idxs source_id q (heartbeat x) h other =
      elim (Bool-cases (s.is_durable q.target)) [
        | inl y ↦ rw (consume_heartbeat, y) h
        | inr n' ↦ rw (consume_heartbeat, n') h
      ]
  consume_item-Holds c turn n idxs source_id q (change event) h other =
      consume_change-Holds c turn n idxs source_id event (attempt s turn q event).0
        (attempt s turn q event).1 h other

  pub consume-Holds :
      (c : CoreEngine T P) (turn : Turn) (n : ℕ) (idxs : List ℕ) (source_id : String)
      (item : PipelineItem P)
      → Holds i p down c
      → Holds i p down (consume s c turn n idxs source_id item).0
  unfolding consume
  consume-Holds c turn n idxs source_id item h = elim (Option-cases (get_elem? c.pipelines n)) [
    | inl e ↦ rw (consume, e) h
    | inr (q, e) ↦ elim (Bool-cases (same_state q.state pipeline_streaming)) [
      | inr off ↦ rw (consume, e, off) h
      | inl on ↦
          rw (consume, e, on)
            (consume_item-Holds c turn n idxs source_id q item h
              (up_elsewhere i p down c n q h e (same_state-up q.state pipeline_streaming refl on)))
    ]
  ]

  -- What a dispatch leaves of the engine, where it returns.
  abbrev pub Kept : {R : Type 0} → Outcome (CoreEngine T P × Buffers s × R) → Type 0
  Kept (returns (c, buffers, r)) = Holds i p down c
  Kept blocks = Unit {0}
  Kept panics = Unit {0}

  receiver-up :
      (c : CoreEngine T P) (buffers : Buffers s) (table : String) (n : ℕ) (q : Pipeline T)
      (buf : ChangeBuffer (PipelineItem P)) (done first : Bool) (drained : ℕ → ℕ)
      → Holds i p down c
      → receiver s done first drained c buffers table n ≡ some (q, buf)
      → n ≢ i
  unfolding receiver is_down
  receiver-up c buffers table n q buf done first drained h found same =
      let at : get_elem? c.pipelines n ≡ some p = rw same h in
      let off : same_state p.state pipeline_streaming ≡ false =
        is_down-same_state p.state pipeline_streaming down refl in
      ground arith

  after-Kept :
      {A R : Type 0} (o : Outcome A) (f : A → Outcome (CoreEngine T P × Buffers s × R))
      → ((a : A) → o ≡ returns a → Kept (f a))
      → Kept (elim o [ returns a ↦ f a | blocks ↦ blocks | panics ↦ panics ])
  after-Kept (returns a) f each = each a refl
  after-Kept blocks f each = tt
  after-Kept panics f each = tt

  pick-Kept :
      {R : Type 0} (b : Bool) (x y : Outcome (CoreEngine T P × Buffers s × R))
      → Kept x
      → Kept y
      → Kept (if b then x else y)
  pick-Kept true x y k l = k
  pick-Kept false x y k l = l

  -- what follows a send, by whether it was sent
  sent-Kept :
      {R : Type 0} (sent : Bool) (x : Outcome (CoreEngine T P × Buffers s × R))
      (y : CoreEngine T P × Buffers s × R)
      → Kept x
      → Holds i p down y.0
      → Kept (elim sent [ true ↦ x | false ↦ returns y ])
  sent-Kept true x y k h = k
  sent-Kept false x y k h = h

  dispatch_to-Kept :
      (done first : Bool) (drained : ℕ → ℕ) (c : CoreEngine T P) (buffers : Buffers s)
      (source_id : String) (idxs : List ℕ) (n : ℕ) (q : Pipeline T)
      (buf : ChangeBuffer (PipelineItem P)) (item : PipelineItem P)
      → Holds i p down c
      → n ≢ i
      → Kept (dispatch_to s done first drained c buffers source_id idxs n q buf item)
  unfolding dispatch_to
  dispatch_to-Kept done first drained c buffers source_id idxs n q buf item h other =
      go q.buffer_policy refl
    where
      go :
          (k : BufferPolicy)
          → q.buffer_policy ≡ k
          → Kept (dispatch_to s done first drained c buffers source_id idxs n q buf item)
      go buffer_block e =
          rw (dispatch_to, e) (after-Kept (send_ctx buf done first item) _ (λ a x. h))
      go buffer_drop_oldest e =
          rw (dispatch_to, e) (after-Kept (send_drop_oldest buf (drained n) item) _ (λ a x. h))
      go buffer_error e =
          rw (dispatch_to, e)
            (after-Kept (try_send buf item) _ (λ a x.
              pick-Kept a.1 _ _ h (apply_error_policy-Holds i p down c n q source_id idxs h other)))

  then-Kept :
      (o : Outcome (CoreEngine T P × Buffers s × Option Bool))
      (k : CoreEngine T P → Buffers s → Outcome (CoreEngine T P × Buffers s × Bool))
      → Kept o
      → ((c : CoreEngine T P) (buffers : Buffers s) → Holds i p down c → Kept (k c buffers))
      → Kept (elim o [
        | returns (c, buffers, ended) ↦ elim ended [
          | none ↦ k c buffers
          | some failed ↦ returns (c, buffers, failed)
        ]
        | blocks ↦ blocks
        | panics ↦ panics
      ])
  then-Kept (returns (c, buffers, none)) k h each = each c buffers h
  then-Kept (returns (c, buffers, some failed)) k h each = h
  then-Kept blocks k h each = tt
  then-Kept panics k h each = tt

  pub dispatch_to_buffers-Kept :
      (done first : Bool) (drained : ℕ → ℕ) (c : CoreEngine T P) (buffers : Buffers s)
      (source_id : String) (idxs rest : List ℕ) (event : ChangeEvent P)
      → Holds i p down c
      → Kept (dispatch_to_buffers s done first drained c buffers source_id idxs rest event)
  unfolding dispatch_to_buffers
  dispatch_to_buffers-Kept done first drained c buffers source_id idxs [] event h = h
  dispatch_to_buffers-Kept done first drained c buffers source_id idxs (n ∷ rest) event h =
      elim (Option-cases (receiver s done first drained c buffers event.table n)) [
        | inl e ↦
            rw (dispatch_to_buffers, e)
              (dispatch_to_buffers-Kept done first drained c buffers source_id idxs rest event h)
        | inr ((q, buf), e) ↦
            rw (dispatch_to_buffers, e)
              (then-Kept
                (dispatch_to s done first drained c buffers source_id idxs n q buf (change event))
                (λ c' buffers'.
                  dispatch_to_buffers s done first drained c' buffers' source_id idxs rest event)
                (dispatch_to-Kept done first drained c buffers source_id idxs n q buf (change event)
                  h (receiver-up c buffers event.table n q buf done first drained h e))
                (λ c' buffers' h'.
                  dispatch_to_buffers-Kept done first drained c' buffers' source_id idxs rest event
                    h'))
      ]

  pub dispatch_heartbeat-Kept :
      (done first : Bool) (drained : ℕ → ℕ) (c : CoreEngine T P) (buffers : Buffers s)
      (rest : List ℕ) (position : P)
      → Holds i p down c
      → Kept (dispatch_heartbeat s done first drained c buffers rest position)
  unfolding dispatch_heartbeat
  dispatch_heartbeat-Kept done first drained c buffers [] position h = h
  dispatch_heartbeat-Kept done first drained c buffers (n ∷ rest) position h =
      elim (Option-cases (get buffers n)) [
        | inl e ↦
            rw (dispatch_heartbeat, e)
              (dispatch_heartbeat-Kept done first drained c buffers rest position h)
        | inr (buf, e) ↦ elim (Bool-cases (in_state c n (same_state pipeline_streaming))) [
          | inr off ↦
              rw (dispatch_heartbeat, e, off)
                (dispatch_heartbeat-Kept done first drained c buffers rest position h)
          | inl on ↦
              rw (dispatch_heartbeat, e, on)
                (after-Kept (send_ctx buf done first (heartbeat position)) _ (λ a x.
                  sent-Kept a.1 _ (c, put buffers n a.0, done)
                    (dispatch_heartbeat-Kept done first drained c (put buffers n a.0) rest position
                      h)
                    h))
        ]
      ]

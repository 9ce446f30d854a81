-- ===== src/Core/Consumer.antt =====
-- engine.go: what the consumer of a pipeline does with one item of its buffer, and how the items come
-- into the buffers. A change without a position confirms a nil one.
use laredo.Common.{
  ℕ, String, Bool, true, false, ◌&&◌, ◌||◌, Option, none, some, List, [], ◌∷◌, if◌then◌else◌,
  get_elem?, ◌==◌, comparable_string, Assoc, get, put, comparable_nat,
}
use laredo.Pipeline.{
  Pipeline, SyncTarget, pipeline_streaming, apply_change_to_target, retry_change, error_stop_source,
  ErrorPolicyKind, buffer_block, buffer_drop_oldest, buffer_error,
}
use laredo.DeadLetter.{ChangeEvent, write}
use laredo.Engine.Ack.{confirm}
use laredo.Engine.Buffer.{
  ChangeBuffer, Outcome, returns, blocks, panics, send_ctx, send_drop_oldest, try_send,
}
use laredo.Core.{CoreEngine, on_pipeline, in_state, same_state, apply_error_policy, advance_ack}

-- `pipelineItem`
pub data PipelineItem (P : Type 0) : Type 0 where
  change : ChangeEvent P → PipelineItem P
  heartbeat : P → PipelineItem P

-- What the outside gives to one turn of a consumer: the time, the timers of the retries (none is a
-- context that is done), whether the source takes the acknowledgement, and the error's message.
pub record Turn : Type 0 where
  pub now : ℕ
  pub timer : ℕ → Option ℕ
  pub taken : Bool
  pub message : String

unfoldable pub stops_source : ErrorPolicyKind → Bool
stops_source error_stop_source = true
stops_source _ = false

module _ {T P : Type 0} (s : SyncTarget T P) where
  -- the first attempt and the retries
  unfoldable pub attempt : Turn → Pipeline T → ChangeEvent P → Pipeline T × Bool
  unfolding apply_change_to_target retry_change
  attempt turn p event =
      let (p', ok) = apply_change_to_target s turn.now p event in
      if ok then (p', true) else retry_change s p'.max_retries turn.timer p' event

  -- `Confirm`, by a target that is durable
  unfoldable pub confirm_durable : CoreEngine T P → Pipeline T → Option P → CoreEngine T P
  confirm_durable c p position =
      if s.is_durable p.target
      then record c { ack_tracker = confirm c.ack_tracker p.id position }
      else c

  -- the change goes to the dead letters, and the pipeline's error policy applies; true ends the
  -- consumer and its stream
  unfoldable pub give_up :
      CoreEngine T P
      → Turn
      → ℕ
      → List ℕ
      → String
      → Pipeline T
      → ChangeEvent P
      → CoreEngine T P × Bool
  unfolding apply_error_policy stops_source
  give_up c turn idx idxs source_id p event =
      let c' : CoreEngine T P = record c {
        dead_letter_store = elim c.dead_letter_store [
          | none ↦ none
          | some store ↦ some (write store p.id event turn.message)
        ];
      } in
      let (failed, stop_all) = apply_error_policy c' idx p source_id idxs in
      (failed, stop_all || stops_source p.error_policy)

  unfoldable pub consume_change :
      CoreEngine T P
      → Turn
      → ℕ
      → List ℕ
      → String
      → ChangeEvent P
      → Pipeline T × Bool
      → CoreEngine T P × Bool
  unfolding confirm_durable give_up advance_ack
  consume_change c turn idx idxs source_id event (p, ok) =
      let c' = on_pipeline c idx (λ old. p) in
      if ok
      then (advance_ack (confirm_durable c' p event.position) source_id turn.taken, false)
      else give_up c' turn idx idxs source_id p event

  unfoldable pub consume_heartbeat :
      CoreEngine T P → Turn → String → Pipeline T → P → CoreEngine T P × Bool
  unfolding confirm_durable advance_ack
  consume_heartbeat c turn source_id p position = (
    if s.is_durable p.target
        then advance_ack (confirm_durable c p (some position)) source_id turn.taken
        else c,
    false,
  )

  unfoldable pub consume_item :
      CoreEngine T P
      → Turn
      → ℕ
      → List ℕ
      → String
      → Pipeline T
      → PipelineItem P
      → CoreEngine T P × Bool
  unfolding attempt consume_change consume_heartbeat
  consume_item c turn idx idxs source_id p (heartbeat position) =
      consume_heartbeat c turn source_id p position
  consume_item c turn idx idxs source_id p (change event) =
      consume_change c turn idx idxs source_id event (attempt turn p event)

  -- one turn of the loop of `runPipelineConsumer`
  unfoldable pub consume :
      CoreEngine T P → Turn → ℕ → List ℕ → String → PipelineItem P → CoreEngine T P × Bool
  unfolding same_state consume_item
  consume c turn idx idxs source_id item = elim (get_elem? c.pipelines idx) [
    | none ↦ (c, false)
    | some p ↦
        if same_state p.state pipeline_streaming
        then consume_item c turn idx idxs source_id p item
        else (c, false)
  ]

  -- the loop, until an item ends it
  unfoldable pub consume_all :
      CoreEngine T P → ℕ → List ℕ → String → List (Turn × PipelineItem P) → CoreEngine T P
  consume_all c idx idxs source_id [] = c
  consume_all c idx idxs source_id ((turn, item) ∷ items) =
      let (c', ended) = consume c turn idx idxs source_id item in
      let later = consume_all c' idx idxs source_id items in if ended then c' else later

  -- the buffers of one stream, by the position of their pipelines
  abbrev pub Buffers : Type 0
  Buffers = Assoc ℕ (ChangeBuffer (PipelineItem P))

  -- What a dispatch comes to: the engine, the buffers, and whether it reports an error.
  abbrev pub Dispatched : Type 0
  Dispatched = Outcome (CoreEngine T P × Buffers × Bool)

  -- the same after one buffer: none goes on with the next
  abbrev pub Sent : Type 0
  Sent = Outcome (CoreEngine T P × Buffers × Option Bool)

  -- `done` and `first` are those of `SendCtx`, and `drained` says what `SendDropOldest` finds taken from
  -- the buffer of each pipeline. A send into a closed buffer ends the dispatch too,
  -- without an error unless the context is done.
  module _ (done first : Bool) (drained : ℕ → ℕ) where
    -- the send into one buffer, by the pipeline's policy
    unfoldable pub dispatch_to :
        CoreEngine T P
        → Buffers
        → String
        → List ℕ
        → ℕ
        → Pipeline T
        → ChangeBuffer (PipelineItem P)
        → PipelineItem P
        → Sent
    unfolding send_ctx send_drop_oldest try_send apply_error_policy
    dispatch_to c buffers source_id idxs idx p buf item = elim p.buffer_policy [
      | buffer_block ↦ elim (send_ctx buf done first item) [
        | returns (buf', sent) ↦ returns (c, put buffers idx buf', if sent then none else some done)
        | blocks ↦ blocks
        | panics ↦ panics
      ]
      | buffer_drop_oldest ↦ elim (send_drop_oldest buf (drained idx) item) [
        | returns (buf', dropped) ↦ returns (c, put buffers idx buf', none)
        | blocks ↦ blocks
        | panics ↦ panics
      ]
      | buffer_error ↦ elim (try_send buf item) [
        | returns (buf', sent) ↦
            if sent
            then returns (c, put buffers idx buf', none)
            else (let (failed, stop_all) = apply_error_policy c idx p source_id idxs in
                returns (failed, buffers, if stop_all then some true else none))
        | blocks ↦ blocks
        | panics ↦ panics
      ]
    ]

    -- the pipeline and the buffer at a position, where the event is for them
    unfoldable pub receiver :
        CoreEngine T P → Buffers → String → ℕ → Option (Pipeline T × ChangeBuffer (PipelineItem P))
    unfolding same_state
    receiver c buffers table idx = elim (get_elem? c.pipelines idx) [
      | none ↦ none
      | some p ↦ elim (get buffers idx) [
        | none ↦ none
        | some buf ↦
            if (p.table == table) && same_state p.state pipeline_streaming
            then some (p, buf)
            else none
      ]
    ]

    -- `dispatchToBuffers`: the loop over the rest of the positions
    unfoldable pub dispatch_to_buffers :
        CoreEngine T P → Buffers → String → List ℕ → List ℕ → ChangeEvent P → Dispatched
    dispatch_to_buffers c buffers source_id idxs [] event = returns (c, buffers, false)
    dispatch_to_buffers c buffers source_id idxs (idx ∷ rest) event =
        elim (receiver c buffers event.table idx) [
          | none ↦ dispatch_to_buffers c buffers source_id idxs rest event
          | some (p, buf) ↦ elim (dispatch_to c buffers source_id idxs idx p buf (change event)) [
            | returns (c', buffers', ended) ↦ elim ended [
              | none ↦ dispatch_to_buffers c' buffers' source_id idxs rest event
              | some failed ↦ returns (c', buffers', failed)
            ]
            | blocks ↦ blocks
            | panics ↦ panics
          ]
        ]

    -- `dispatchHeartbeatToBuffers`
    unfoldable pub dispatch_heartbeat : CoreEngine T P → Buffers → List ℕ → P → Dispatched
    unfolding send_ctx same_state
    dispatch_heartbeat c buffers [] position = returns (c, buffers, false)
    dispatch_heartbeat c buffers (idx ∷ rest) position = elim (get buffers idx) [
      | none ↦ dispatch_heartbeat c buffers rest position
      | some buf ↦ elim (in_state c idx (same_state pipeline_streaming)) [
        | false ↦ dispatch_heartbeat c buffers rest position
        | true ↦ elim (send_ctx buf done first (heartbeat position)) [
          | returns (buf', sent) ↦ elim sent [
            | true ↦ dispatch_heartbeat c (put buffers idx buf') rest position
            | false ↦ returns (c, put buffers idx buf', done)
          ]
          | blocks ↦ blocks
          | panics ↦ panics
        ]
      ]
    ]

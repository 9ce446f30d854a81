-- ===== src/Pipeline.antt =====
-- pipeline.go, target.go and the part of engine.go that applies changes to the target of one pipeline:
-- filters, transforms, expiry, the count of expected rows and retries. A pipeline has one table, so a
-- filter and a transform take the row alone. Each reading of the clock is an argument.
mod Tests
pub mod Retry
use laredo.Common.{
  ℕ, zero, suc, String, Bool, true, false, not, ◌&&◌, Option, none, some, List, [], ◌∷◌,
  if◌then◌else◌, ltb, ℤ, pos, sucℤ, predℤ,
}
use laredo.Types.{Row, present, ChangeAction, insert, update, remove, truncate, ColumnDefinition}
use laredo.DeadLetter.{ChangeEvent}

-- `PipelineState`
pub data PipelineState : Type 0 where
  pipeline_initializing pipeline_baselining pipeline_streaming : PipelineState
  pipeline_paused pipeline_error pipeline_stopped : PipelineState

-- `ErrorPolicyKind`
pub data ErrorPolicyKind : Type 0 where
  error_isolate error_stop_source error_stop_all : ErrorPolicyKind

-- `BufferPolicy`
pub data BufferPolicy : Type 0 where
  buffer_block buffer_drop_oldest buffer_error : BufferPolicy

-- `ValidationAction`
pub data ValidationAction : Type 0 where
  validation_warn validation_re_baseline validation_fail : ValidationAction

-- `SyncTarget`, on a state of the target. A handler returns the state and whether it succeeded. What
-- is optional in the code is here too: `set_change_position` does nothing and `count` is none where
-- the target has no such method.
pub record SyncTarget (T P : Type 0) : Type 0 where
  pub on_init : T → List ColumnDefinition → T × Bool
  pub on_baseline_row : T → Row → T × Bool
  pub on_baseline_complete : T → T × Bool
  pub on_insert : T → Row → T × Bool
  pub on_update : T → Row → Option Row → T × Bool
  pub on_delete : T → Option Row → T × Bool
  pub on_truncate : T → T × Bool
  pub is_durable : T → Bool
  pub export_snapshot : T → Option (List Row)
  pub restore_snapshot : T → List Row → T × Bool
  pub on_close : T → T
  pub set_change_position : T → Option P → T
  pub count : T → Option ℕ

-- `resolvedPipeline`: the configuration, the target, and the two atomics
pub record Pipeline (T : Type 0) : Type 0 where
  pub id : String
  pub source_id : String
  pub table : String
  pub target : T
  pub filters : List (Row → Bool)
  pub transforms : List (Row → Option Row)
  pub buffer_size : ℕ
  pub buffer_policy : BufferPolicy
  pub error_policy : ErrorPolicyKind
  pub max_retries : ℕ
  -- the time at which a row expires, where it does
  pub ttl_func : Option (Row → Option ℕ)
  pub validation_action : ValidationAction
  pub state : PipelineState
  pub expected_rows : ℤ

-- `applyFilters`
unfoldable pub apply_filters : List (Row → Bool) → Row → Bool
apply_filters [] row = true
apply_filters (f ∷ fs) row = if f row then apply_filters fs row else false

-- the loop over the transforms; a transform may drop the row
unfoldable pub transform_each : List (Row → Option Row) → Row → Option Row
transform_each [] row = some row
transform_each (t ∷ ts) row = elim (t row) [ none ↦ none | some r ↦ transform_each ts r ]

-- the same from a nil row, which filters and transforms read as an empty one
transform_nil : List (Row → Option Row) → Option Row
unfolding transform_each
transform_nil [] = none
transform_nil (t ∷ ts) = transform_each (t ∷ ts) []

module _ {T : Type 0} where
  -- `applyFiltersAndTransforms`
  unfoldable pub apply_filters_and_transforms : Pipeline T → Option Row → Option Row
  unfolding apply_filters transform_each transform_nil
  apply_filters_and_transforms p none =
      if apply_filters p.filters [] then transform_nil p.transforms else none
  apply_filters_and_transforms p (some row) =
      if apply_filters p.filters row then transform_each p.transforms row else none

  -- `isRowExpired`
  unfoldable pub is_row_expired : Pipeline T → ℕ → Row → Bool
  is_row_expired p now row = elim p.ttl_func [
    | none ↦ false
    | some ttl ↦ elim (ttl row) [ none ↦ false | some expiry ↦ ltb expiry now ]
  ]

  -- the target after a call, and the count where the call succeeded
  abbrev pub counted : Pipeline T → T × Bool → (ℤ → ℤ) → Pipeline T × Bool
  counted p (target, ok) count = (
    record p {
      target = target;
      expected_rows = if ok then count p.expected_rows else p.expected_rows;
    },
    ok,
  )

  module _ {P : Type 0} (s : SyncTarget T P) where
    unfoldable pub apply_insert : ℕ → Pipeline T → Option Row → Pipeline T × Bool
    unfolding is_row_expired
    apply_insert now p none = (p, true)
    apply_insert now p (some row) =
        if is_row_expired p now row then (p, true) else counted p (s.on_insert p.target row) sucℤ

    unfoldable pub apply_update : ℕ → Pipeline T → Option Row → Option Row → Pipeline T × Bool
    unfolding is_row_expired
    apply_update now p none old = (p, true)
    apply_update now p (some row) old =
        if is_row_expired p now row
        then counted p (s.on_delete p.target old) predℤ
        else counted p (s.on_update p.target row old) (λ n. n)

    unfoldable pub apply_delete : Pipeline T → Option Row → Pipeline T × Bool
    unfolding apply_filters
    apply_delete p old =
        if apply_filters p.filters (present old)
        then counted p (s.on_delete p.target old) predℤ
        else (p, true)

    -- `applyChangeToTarget`
    unfoldable pub apply_change_to_target : ℕ → Pipeline T → ChangeEvent P → Pipeline T × Bool
    unfolding apply_insert apply_update apply_delete apply_filters_and_transforms
    apply_change_to_target now p event =
        let q : Pipeline T = record p { target = s.set_change_position p.target event.position } in
        elim event.action [
          | insert ↦ apply_insert now q (apply_filters_and_transforms q event.new_values)
          | update ↦
              apply_update now q (apply_filters_and_transforms q event.new_values) event.old_values
          | remove ↦ apply_delete q event.old_values
          | truncate ↦ counted q (s.on_truncate q.target) (λ n. pos 0)
        ]

    -- `retryChange`, with the attempts that are left. Before an attempt the timer fires, at the time
    -- that `timer` gives, or the context is done, where it gives none.
    unfoldable pub retry_change :
        ℕ → (ℕ → Option ℕ) → Pipeline T → ChangeEvent P → Pipeline T × Bool
    unfolding apply_change_to_target
    retry_change zero timer p event = (p, false)
    retry_change (suc left) timer p event = elim (timer left) [
      | none ↦ (p, false)
      | some now ↦
          let (p', ok) = apply_change_to_target now p event in
          let later = retry_change left timer p' event in if ok then (p', true) else later
    ]

-- ===== src/Core/Scanner.antt =====
-- engine.go: the scanners of a pipeline, each one tick of its timer. Whether the context is done is a
-- number: how many rows are handled before it is. The target lists the rows to be scanned.
use laredo.Common.{
  ℕ, zero, suc, Bool, true, false, not, ◌&&◌, Option, none, some, List, [], ◌∷◌, if◌then◌else◌,
  get_elem?, nat_beq, ℤ, pos, negsuc, predℤ,
}
use laredo.Types.{Row}
use laredo.Pipeline.{
  Pipeline, SyncTarget, pipeline_streaming, pipeline_error, validation_warn, is_row_expired,
}
use laredo.Core.{CoreEngine, on_pipeline, same_state, transition_pipeline}

-- whether the expected count is the target's
unfoldable pub is_count : ℤ → ℕ → Bool
is_count (pos n) actual = nat_beq n actual
is_count (negsuc n) actual = false

module _ {T P : Type 0} (s : SyncTarget T P) where
  -- the first loop of `scanExpiredRows`, each row with its time; none where the context is done
  unfoldable pub collect_expired : Pipeline T → ℕ → List (ℕ × Row) → Option (List Row)
  unfolding is_row_expired
  collect_expired p reached [] = some []
  collect_expired p zero (row ∷ rows) = none
  collect_expired p (suc reached) ((now, row) ∷ rows) = elim (collect_expired p reached rows) [
    | none ↦ none
    | some keys ↦ if is_row_expired p now row then some (row ∷ keys) else some keys
  ]

  -- its second loop; a row that the target refuses to delete is passed over
  unfoldable pub delete_expired : Pipeline T → ℕ → List Row → Pipeline T
  delete_expired p reached [] = p
  delete_expired p zero (row ∷ rows) = p
  delete_expired p (suc reached) (row ∷ rows) =
      let (target, ok) = s.on_delete p.target (some row) in
      delete_expired
        (record p {
          target = target;
          expected_rows = if ok then predℤ p.expected_rows else p.expected_rows;
        })
        reached rows

  -- `scanExpiredRows`, where nothing comes between its loops
  unfoldable pub scan_expired_rows : Pipeline T → ℕ → List (ℕ × Row) → ℕ → Pipeline T
  unfolding collect_expired delete_expired
  scan_expired_rows p listed rows deleted = elim (collect_expired p listed rows) [
    | none ↦ p
    | some keys ↦ delete_expired p deleted keys
  ]

  -- a tick of `runTTLScanner`
  unfoldable pub scan : CoreEngine T P → ℕ → ℕ → List (ℕ × Row) → ℕ → CoreEngine T P
  unfolding scan_expired_rows
  scan c idx listed rows deleted = on_pipeline c idx (λ p. scan_expired_rows p listed rows deleted)

  -- whether a tick of `runValidationScanner` leads to ERROR, and so ends the scanner
  unfoldable pub fails_validation : Pipeline T → Bool
  unfolding same_state is_count
  fails_validation p = same_state p.state pipeline_streaming && (elim (s.count p.target) [
    | none ↦ false
    | some actual ↦
        not (is_count p.expected_rows actual)
        && (elim p.validation_action [ validation_warn ↦ false | _ ↦ true ])
  ])

  -- a tick of `runValidationScanner`
  unfoldable pub validate : CoreEngine T P → ℕ → CoreEngine T P
  unfolding fails_validation transition_pipeline
  validate c idx = elim (get_elem? c.pipelines idx) [
    | none ↦ c
    | some p ↦ if fails_validation p then transition_pipeline c idx pipeline_error else c
  ]

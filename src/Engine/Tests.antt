-- ===== src/Engine/Tests.antt =====
-- The theorems on the trackers and the buffer at concrete states.
use Prim.Native.Nat.{Ordering, compare}
use laredo.Common.{
  ℕ, false, ◌≡◌, ◌≢◌, refl, ◌⊎◌, true, ◌++◌, none, some, [], ◌∷◌, arith, get, comparable_string,
}
use laredo.Engine.Ack.{Compare, AckTracker, new_ack_tracker, confirm, skip, ack_position}
use laredo.Engine.Ack.Minimum.{Comparator, ack_position-le}
use laredo.Engine.Ack.Nil.{ack_position-confirm_nil}
use laredo.Lsn.{compare_lsn}
use laredo.Engine.Ack.Advance.{
  registers as registers_pipeline, confirms, heartbeats, acks, NotBehind, last_acked-monotone,
  run as run_acks,
}
use laredo.Engine.Readiness.{new_readiness_tracker, is_ready}
use laredo.Engine.Readiness.Callbacks.{readies, registers, run_callbacks, run as run_readiness}
use laredo.Engine.Buffer.{ChangeBuffer, returns}
use laredo.Engine.Buffer.Fifo.{offer_all, offer_all-newest}

-- positions that are numbers, nil before each
abbrev compare_positions : Compare ℕ
compare_positions (some a) (some b) = compare a b
compare_positions none (some b) = Ordering.lt
compare_positions (some a) none = Ordering.gt
compare_positions none none = Ordering.eq

abbrev numbers : Comparator ℕ
numbers = record {
  cmp = compare_positions;
  flip = λ a b h. ground arith;
  trans = λ a b c h k. ground arith;
}

-- Two pipelines of one source and a skipped third.
abbrev tracker : AckTracker ℕ
tracker = record {
  pipeline_source = ("a", "pg") ∷ ("b", "pg") ∷ ("c", "pg") ∷ [];
  positions = ("a", some 7) ∷ ("b", some 5) ∷ [];
  last_acked = ("pg", 3) ∷ [];
  comparators = ("pg", compare_positions) ∷ [];
  skipped = ("c", true) ∷ [];
}

ack_position-le_example :
    (pos : ℕ) × (get tracker.positions "a" ≡ some (some pos)) × (compare 5 pos ≢ Ordering.gt)
unfolding ack_position
ack_position-le_example =
    ack_position-le numbers tracker "pg" "a" 5 refl refl refl refl (λ q none_there. ground arith)

-- the same with the comparator of the PostgreSQL source, while one pipeline is behind the other
abbrev lsns : AckTracker ℕ
lsns = record tracker { comparators = ("pg", compare_lsn) ∷ [] }

ack_position-confirm_nil_example :
    ((ack_position (confirm lsns "b" none) "pg").1 ≡ (ack_position (skip lsns "b") "pg").1)
    × ((ack_position (confirm lsns "b" none) "pg").2 ≡ (ack_position (skip lsns "b") "pg").2)
unfolding compare_lsn
ack_position-confirm_nil_example =
    ack_position-confirm_nil compare_lsn (λ low h. ground (arith, h)) lsns "b" "pg" refl

-- Without the confirmation the pipeline holds the position back.
held_back : (ack_position lsns "pg").1 ≡ some 5
unfolding ack_position compare_lsn
held_back = refl

passed_over : (ack_position (confirm lsns "b" none) "pg").1 ≡ some 7
unfolding ack_position confirm compare_lsn
passed_over = refl

last_acked-monotone_example :
    NotBehind numbers "pg"
      (run_acks numbers
        (new_ack_tracker ℕ)
        (registers_pipeline "a" "pg" ∷ confirms "a" (some 4) ∷ acks "pg" ∷ []))
      (run_acks numbers
        (run_acks numbers
          (new_ack_tracker ℕ)
          (registers_pipeline "a" "pg" ∷ confirms "a" (some 4) ∷ acks "pg" ∷ []))
        (confirms "a" none ∷ acks "pg" ∷ heartbeats "pg" (some 9) ∷ acks "pg" ∷ []))
last_acked-monotone_example =
    last_acked-monotone numbers
      (registers_pipeline "a" "pg" ∷ confirms "a" (some 4) ∷ acks "pg" ∷ [])
      (confirms "a" none ∷ acks "pg" ∷ heartbeats "pg" (some 9) ∷ acks "pg" ∷ []) "pg"

run_callbacks_example :
    let (r, fired) =
      run_readiness
        (new_readiness_tracker ("a" ∷ "b" ∷ []))
        (registers 1 ∷ readies "a" ∷ registers 2 ∷ readies "b" ∷ registers 3 ∷ []) in
    (fired ++ r.callbacks ≡ 1 ∷ 2 ∷ 3 ∷ [])
    × ((is_ready r ≡ false) ⊎ ((r.callbacks ≡ []) × (fired ≡ 1 ∷ 2 ∷ 3 ∷ [])))
run_callbacks_example =
    run_callbacks ("a" ∷ "b" ∷ [])
      (registers 1 ∷ readies "a" ∷ registers 2 ∷ readies "b" ∷ registers 3 ∷ [])

abbrev full : ChangeBuffer ℕ
full = record { ch = 1 ∷ 2 ∷ []; size = 2; closed = false }

offer_all-newest_example :
    offer_all full (3 ∷ 4 ∷ 5 ∷ []) ≡ returns (record full { ch = 4 ∷ 5 ∷ [] })
offer_all-newest_example =
    offer_all-newest full (3 ∷ 4 ∷ 5 ∷ [])
      (record { open_ = refl; places = omega arith; fits = omega arith })

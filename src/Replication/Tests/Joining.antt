-- ===== src/Replication/Tests/Joining.antt =====
-- A client with rows of its own that joins a target which holds a row.
use laredo.Common.{
  ℕ, ◌≡◌, refl, true, none, some, [], ◌∷◌, arith, comparable_string, ◌==◌, Bool-cases, inl, inr,
}
use laredo.Fanout.Journal.{append, prune, min_pin, current_sequence, oldest_sequence}
use laredo.Fanout.Target.{
  Target, build_key, take_snapshot, set_change_position, on_insert, on_update, on_delete,
}
use laredo.Client.{Client, row_key}
use laredo.Replication.Filter.{match_entry}
use laredo.Replication.Session.{catch_up}
use laredo.Replication.Snapshot.{full_snapshot_messages}
use laredo.Replication.Stream.{run, step, receive, receive_all}
use laredo.Replication.Convergence.{SameRows, Keyed}
use laredo.Replication.Joining.{full_snapshot-converges}
use laredo.Replication.Tests.{
  printing, print_value, unchanged, no_position, started, empty_client, at, first, second, changed,
  calls, scalars,
}

abbrev holding : Target ℕ
holding = record started { store = ("2", second) ∷ [] }

abbrev stale : Client
stale = record empty_client { store = ("9", first) ∷ []; ready = true }

holding-Keyed : Keyed printing "," unchanged no_position holding
unfolding build_key row_key print_value
holding-Keyed k row e = elim (Bool-cases ("2" == k)) [
  | inl y ↦
      let same : some second ≡ some row = rw y at e in
      let is : second ≡ row = ground (arith, same) in
      let here : "2" ≡ k = (comparable_string.same_iff "2" k).0 y in
      rw (← is, ← here) (refl, (second, refl, refl))
  | inr n ↦ absurd (ground (arith, rw n at e))
]

full_snapshot-converges_example :
    SameRows unchanged
      (receive printing "," unchanged no_position
        (receive_all printing "," stale (
          full_snapshot_messages unchanged scalars none
            (take_snapshot printing "," holding (at 5)).1))
        (catch_up
          (match_entry scalars none)
          (run printing "," (take_snapshot printing "," holding (at 5)).0 calls).j
          (take_snapshot printing "," holding (at 5)).1.sequence)).store
      (run printing "," (take_snapshot printing "," holding (at 5)).0 calls).store
unfolding run step build_key row_key on_insert on_update on_delete set_change_position print_value
    append prune min_pin current_sequence oldest_sequence take_snapshot
full_snapshot-converges_example =
    full_snapshot-converges printing "," unchanged no_position scalars stale holding (at 5) calls
      (record { chain = tt; started = omega arith }) (refl, tt) holding-Keyed
      (tt, ((first, refl, refl), ((second, refl, refl), ((changed, refl, refl), (tt, tt)))))
      (omega arith) (omega arith)

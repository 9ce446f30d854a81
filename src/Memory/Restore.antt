-- ===== src/Memory/Restore.antt =====
-- Exporting the compiled target and restoring what was exported.
use mathlib.Core.List.{append-nil, append_assoc}
use laredo.Common.{
  ℕ, String, false, ◌≡◌, refl, sym, ◌∙◌, none, some, List, [], ◌∷◌, ◌++◌, arith, Assoc, get, put,
  delete, Distinct, not_front, put-Distinct, delete-Distinct, ◌==◌, ==_refl, comparable_string,
  Bool-cases, Option-cases, inl, inr,
}
use laredo.Types.{Row, ColumnDefinition}
use laredo.Memory.{
  CompiledEntry, CompiledTarget, admits, build_key, on_init, insert_row, remove_key, on_update,
  on_delete, on_truncate, restore_each, restore_snapshot, export_snapshot, rows, fields_found,
}
use laredo.Memory.Sound.{
  Call, inits, inserts, updates, deletes, truncates, restores, step, run, Made, AllMade, Sound,
  run-Sound, on_columns,
}

module _ {V : Type 0} where
  put_fresh :
      (m : Assoc String V) (k : String) (v : V) → get m k ≡ none → put m k v ≡ m ++ ((k, v) ∷ [])
  put_fresh [] k v h = refl
  put_fresh ((j, w) ∷ m) k v h = ground (arith, put_fresh m k v)

  get_fresh :
      (m : Assoc String V) (k j : String) (v : V)
      → get m j ≡ none
      → (k == j) ≡ false
      → get (m ++ ((k, v) ∷ [])) j ≡ none
  get_fresh [] k j v h n = rw n refl
  get_fresh ((i, w) ∷ m) k j v h n = ground (arith, get_fresh m k j v)

module _ (print_other : ℕ → String) (separator : String) {C : Type 0} where
  insert_row-Distinct :
      (t : CompiledTarget C) (row : Row)
      → Distinct t.store
      → Distinct (insert_row print_other separator t row).0.store
  unfolding insert_row
  insert_row-Distinct t row d = elim (Bool-cases (admits print_other separator t row)) [
    | inr n ↦ rw (insert_row, n) d
    | inl y ↦ elim (Option-cases (t.compiler row)) [
      | inl n ↦ rw (insert_row, y, n) d
      | inr (compiled, c) ↦ rw (insert_row, y, c) (put-Distinct t.store _ _ d)
    ]
  ]

  remove_key-Distinct :
      (t : CompiledTarget C) (key : String)
      → Distinct t.store
      → Distinct (remove_key print_other separator t key).0.store
  unfolding remove_key
  remove_key-Distinct t key d = elim (Option-cases (get t.store key)) [
    | inl n ↦ rw (remove_key, n) d
    | inr (old, e) ↦ rw (remove_key, e) (delete-Distinct t.store key d)
  ]

  on_update-Distinct :
      (t : CompiledTarget C) (row identity : Row)
      → Distinct t.store
      → Distinct (on_update print_other separator t row identity).0.store
  unfolding on_update
  on_update-Distinct t row identity d =
      let old = build_key print_other separator identity t.key_fields in
      elim (Bool-cases (admits print_other separator t row)) [
        | inr n ↦ rw (on_update, n) (remove_key-Distinct t old d)
        | inl y ↦ elim (Option-cases (t.compiler row)) [
          | inl n ↦ rw (on_update, y, n) d
          | inr (compiled, c) ↦ elim (Option-cases (get t.store old)) [
            | inl n ↦ rw (on_update, y, c, n) (put-Distinct t.store _ _ d)
            | inr (e, h) ↦
                rw (on_update, y, c, h)
                  (put-Distinct (delete t.store old) _ _ (delete-Distinct t.store old d))
          ]
        ]
      ]

  restore_each-Distinct :
      (t : CompiledTarget C) (entries : List Row)
      → Distinct t.store
      → Distinct (restore_each print_other separator t entries).store
  unfolding restore_each
  restore_each-Distinct t [] d = d
  restore_each-Distinct t (row ∷ rest) d =
      restore_each-Distinct (insert_row print_other separator t row).0 rest
        (insert_row-Distinct t row d)

  on_init-Distinct :
      (t : CompiledTarget C) (columns : List ColumnDefinition)
      → Distinct t.store
      → Distinct (on_init print_other separator t columns).0.store
  unfolding on_init
  on_init-Distinct t columns d = elim (Bool-cases (fields_found columns t.key_fields)) [
    | inl y ↦ rw (on_init, y) tt
    | inr n ↦ rw (on_init, n) d
  ]

  step-Distinct :
      (t : CompiledTarget C) (c : Call)
      → Distinct t.store
      → Distinct (step print_other separator t c).store
  unfolding step on_delete on_truncate restore_snapshot
  step-Distinct t (inits columns) d = on_init-Distinct t columns d
  step-Distinct t (inserts row) d = insert_row-Distinct t row d
  step-Distinct t (updates row identity) d = on_update-Distinct t row identity d
  step-Distinct t (deletes identity) d = remove_key-Distinct t _ d
  step-Distinct t truncates d = tt
  step-Distinct t (restores entries) d = restore_each-Distinct (record t { store = [] }) entries tt

  run-Distinct :
      (t : CompiledTarget C) (cs : List Call)
      → Distinct t.store
      → Distinct (run print_other separator t cs).store
  unfolding run
  run-Distinct t [] d = d
  run-Distinct t (c ∷ cs) d = run-Distinct (step print_other separator t c) cs (step-Distinct t c d)

  -- inserting the row of an entry puts the entry at the end
  insert_row-entry :
      (t : CompiledTarget C) (s : Assoc String (CompiledEntry C)) (k : String) (e : CompiledEntry C)
      → Made print_other separator t k e
      → get s k ≡ none
      → (insert_row print_other separator (record t { store = s }) e.row).0
        ≡ record t { store = s ++ ((k, e) ∷ []) }
  unfolding insert_row admits
  insert_row-entry t s k e made fresh =
      rw (insert_row, made.admitted, made.compiles, made.keyed, put_fresh s k e fresh) refl

  restore_each-rows :
      (t : CompiledTarget C) (m s : Assoc String (CompiledEntry C))
      → AllMade print_other separator t m
      → Distinct m
      → ((k : String) (e : CompiledEntry C) → get m k ≡ some e → get s k ≡ none)
      → (restore_each print_other separator
          (record t { store = s })
          (rows print_other separator m)).store
        ≡ s ++ m
  unfolding restore_each rows
  restore_each-rows t [] s made d apart = sym (append-nil s)
  restore_each-rows t ((k, e) ∷ m) s made (fresh, d) apart =
      let here : get ((k, e) ∷ m) k ≡ some e = rw (==_refl k) refl in
      rw (restore_each, insert_row-entry t s k e (made k e here) (apart k e here))
        (restore_each-rows t m (s ++ ((k, e) ∷ [])) (λ j f h. made j f (later j f h)) d
            (λ j f h. get_fresh s k j e (apart j f (later j f h)) (not_front m k j f fresh h))
          ∙ append_assoc s ((k, e) ∷ []) m)
    where
      later : (j : String) (f : CompiledEntry C) → get m j ≡ some f → get ((k, e) ∷ m) j ≡ some f
      later j f h = rw (not_front m k j f fresh h) h

  -- After any calls on an empty target: what `ExportSnapshot` gives, handed to `RestoreSnapshot` of a
  -- target of the same compiler, key fields and filter, whatever that one holds, restores every entry
  -- in its place.
  pub restore_snapshot-export_snapshot :
      (t : CompiledTarget C) (cs : List Call) (columns : List ColumnDefinition)
      (other : Assoc String (CompiledEntry C))
      → t.store ≡ []
      → let u = run print_other separator t cs in
        (restore_snapshot print_other separator
          (record u { columns = columns; store = other })
          (export_snapshot print_other separator u)).store
        ≡ u.store
  unfolding restore_snapshot export_snapshot Sound
  restore_snapshot-export_snapshot t cs columns other empty =
      let u : CompiledTarget C = run print_other separator t cs in
      let sound : Sound print_other separator u =
        run-Sound print_other separator t cs (λ k e h. absurd (ground (arith, rw empty at h))) in
      restore_each-rows (record u { columns = columns }) u.store []
        (on_columns print_other separator u columns u.store sound) (run-Distinct t cs (rw empty tt))
        (λ k e h. refl)

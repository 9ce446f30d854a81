-- ===== src/Memory/Sound.antt =====
-- What the compiled target holds under a key is what the compiler makes of a row with that key.
use laredo.Common.{
  subst, ap, ◌∙◌, ℕ, String, true, ◌≡◌, none, some, List, [], ◌∷◌, arith, Assoc, get, put, delete,
  get-put, get-delete, ◌==◌, comparable_string, Bool-cases, Option-cases, inl, inr,
}
use laredo.Types.{Row, ColumnDefinition}
use laredo.Memory.{
  CompiledEntry, CompiledTarget, build_key, admits, fields_found, on_init, insert_row, remove_key,
  on_update, on_delete, on_truncate, restore_each, restore_snapshot, get_compiled,
}

-- A call of a handler.
pub data Call : Type 0 where
  inits : List ColumnDefinition → Call
  inserts : Row → Call
  updates : Row → Row → Call
  deletes : Row → Call
  truncates : Call
  restores : List Row → Call

module _ (print_other : ℕ → String) (separator : String) {C : Type 0} where
  unfoldable pub step : CompiledTarget C → Call → CompiledTarget C
  step t (inits columns) = (on_init print_other separator t columns).0
  step t (inserts row) = (insert_row print_other separator t row).0
  step t (updates row identity) = (on_update print_other separator t row identity).0
  step t (deletes identity) = (on_delete print_other separator t identity).0
  step t truncates = (on_truncate print_other separator t).0
  step t (restores entries) = restore_snapshot print_other separator t entries

  unfoldable pub run : CompiledTarget C → List Call → CompiledTarget C
  run t [] = t
  run t (c ∷ cs) = run (step t c) cs

  -- The entry is of a row that the filter admits, compiled, under the row's own key.
  pub record Made (t : CompiledTarget C) (key : String) (e : CompiledEntry C) : Type 0 where
    pub admitted : admits print_other separator t e.row ≡ true
    pub compiles : t.compiler e.row ≡ some e.compiled
    pub keyed : build_key print_other separator e.row t.key_fields ≡ key

  abbrev pub AllMade : CompiledTarget C → Assoc String (CompiledEntry C) → Type 0
  AllMade t m = (key : String) (e : CompiledEntry C) → get m key ≡ some e → Made t key e

  put-AllMade :
      (t : CompiledTarget C) (m : Assoc String (CompiledEntry C)) (row : Row) (compiled : C)
      → admits print_other separator t row ≡ true
      → t.compiler row ≡ some compiled
      → AllMade t m
      → AllMade t (
          put m
            (build_key print_other separator row t.key_fields)
            (record { compiled = compiled; row = row }))
  put-AllMade t m row compiled a c h key e found =
      let own : String = build_key print_other separator row t.key_fields in
      let made : CompiledEntry C = record { compiled = compiled; row = row } in
      elim (Bool-cases (own == key)) [
        | inr n ↦ h key e (rw (get-put m own key made, n) at found)
        | inl y ↦
            let same : own ≡ key = (comparable_string.same_iff own key).0 y in
            let it : some made ≡ some e = rw (get-put m own key made, y) at found in
            let compiles : t.compiler e.row ≡ some e.compiled =
              subst (λ o. elim o [ none ↦ Unit {0} | some x ↦ t.compiler x.row ≡ some x.compiled ])
                it c in
            let admitted : admits print_other separator t e.row ≡ true =
              subst
                (λ o. elim o [
                  | none ↦ Unit {0}
                  | some x ↦ admits print_other separator t x.row ≡ true
                ])
                it a in
            let keyed : build_key print_other separator e.row t.key_fields ≡ key =
              subst
                (λ o. elim o [
                  | none ↦ Unit {0}
                  | some x ↦ build_key print_other separator x.row t.key_fields ≡ key
                ])
                it same in
            record { admitted = admitted; compiles = compiles; keyed = keyed }
      ]

  delete-AllMade :
      (t : CompiledTarget C) (m : Assoc String (CompiledEntry C)) (old : String)
      → AllMade t m
      → AllMade t (delete m old)
  delete-AllMade t m old h key e found = elim (Bool-cases (old == key)) [
    | inl y ↦ absurd (ground (arith, rw (get-delete m old key, y) at found))
    | inr n ↦ h key e (rw (get-delete m old key, n) at found)
  ]

  unfoldable pub Sound : CompiledTarget C → Type 0
  Sound t = AllMade t t.store

  stored :
      (t : CompiledTarget C) (m : Assoc String (CompiledEntry C))
      → AllMade t m
      → Sound (record t { store = m })
  unfolding Sound admits
  stored t m h key e found =
      let made : Made t key e = h key e found in
      record { admitted = made.admitted; compiles = made.compiles; keyed = made.keyed }

  pub nothing : (t : CompiledTarget C) → AllMade t []
  nothing t key e found = absurd (ground (arith, found))

  insert_row-Sound :
      (t : CompiledTarget C) (row : Row)
      → Sound t
      → Sound (insert_row print_other separator t row).0
  unfolding insert_row Sound
  insert_row-Sound t row h = elim (Bool-cases (admits print_other separator t row)) [
    | inr n ↦ rw (insert_row, n) h
    | inl y ↦ elim (Option-cases (t.compiler row)) [
      | inl n ↦ rw (insert_row, y, n) h
      | inr (compiled, c) ↦
          rw (insert_row, y, c) (stored t _ (put-AllMade t t.store row compiled y c h))
    ]
  ]

  remove_key-Sound :
      (t : CompiledTarget C) (key : String)
      → Sound t
      → Sound (remove_key print_other separator t key).0
  unfolding remove_key Sound
  remove_key-Sound t key h = elim (Option-cases (get t.store key)) [
    | inl n ↦ rw (remove_key, n) h
    | inr (old, e) ↦ rw (remove_key, e) (stored t _ (delete-AllMade t t.store key h))
  ]

  on_update-Sound :
      (t : CompiledTarget C) (row identity : Row)
      → Sound t
      → Sound (on_update print_other separator t row identity).0
  unfolding on_update Sound
  on_update-Sound t row identity h = elim (Bool-cases (admits print_other separator t row)) [
    | inr n ↦ rw (on_update, n) (remove_key-Sound t _ h)
    | inl y ↦ elim (Option-cases (t.compiler row)) [
      | inl n ↦ rw (on_update, y, n) h
      | inr (compiled, c) ↦
          elim (Option-cases
            (get t.store (build_key print_other separator identity t.key_fields))) [
              | inl n ↦
                  rw (on_update, y, c, n) (stored t _ (put-AllMade t t.store row compiled y c h))
              | inr (old, e) ↦
                  rw (on_update, y, c, e)
                    (stored t _ (put-AllMade t _ row compiled y c (delete-AllMade t t.store _ h)))
            ]
    ]
  ]

  restore_each-Sound :
      (t : CompiledTarget C) (entries : List Row)
      → Sound t
      → Sound (restore_each print_other separator t entries)
  unfolding restore_each
  restore_each-Sound t [] h = h
  restore_each-Sound t (row ∷ rest) h =
      restore_each-Sound (insert_row print_other separator t row).0 rest (insert_row-Sound t row h)

  pub on_columns :
      (t : CompiledTarget C) (columns : List ColumnDefinition) (m : Assoc String (CompiledEntry C))
      → AllMade t m
      → Sound (record t { columns = columns; store = m })
  unfolding Sound admits
  on_columns t columns m h key e found =
      let made : Made t key e = h key e found in
      record { admitted = made.admitted; compiles = made.compiles; keyed = made.keyed }

  on_init-Sound :
      (t : CompiledTarget C) (columns : List ColumnDefinition)
      → Sound t
      → Sound (on_init print_other separator t columns).0
  unfolding on_init Sound
  on_init-Sound t columns h = elim (Bool-cases (fields_found columns t.key_fields)) [
    | inl y ↦ rw (on_init, y) (on_columns t columns [] (nothing t))
    | inr n ↦ rw (on_init, n) (on_columns t columns t.store h)
  ]

  step-Sound : (t : CompiledTarget C) (c : Call) → Sound t → Sound (step t c)
  unfolding step on_delete on_truncate restore_snapshot
  step-Sound t (inits columns) h = on_init-Sound t columns h
  step-Sound t (inserts row) h = insert_row-Sound t row h
  step-Sound t (updates row identity) h = on_update-Sound t row identity h
  step-Sound t (deletes identity) h = remove_key-Sound t _ h
  step-Sound t truncates h = stored t [] (nothing t)
  step-Sound t (restores entries) h = restore_each-Sound _ entries (stored t [] (nothing t))

  pub run-Sound : (t : CompiledTarget C) (cs : List Call) → Sound t → Sound (run t cs)
  unfolding run
  run-Sound t [] h = h
  run-Sound t (c ∷ cs) h = run-Sound (step t c) cs (step-Sound t c h)

  -- From an empty target, after any calls: an object that `Get` finds under a key is what the compiler
  -- makes of a row that the filter admits and whose own key is that key.
  pub get_compiled-run :
      (t : CompiledTarget C) (cs : List Call) (key : String) (object : C)
      → t.store ≡ []
      → get_compiled print_other separator (run t cs) key ≡ some object
      → (row : Row) × (admits print_other separator (run t cs) row ≡ true)
        × ((run t cs).compiler row ≡ some object)
        × (build_key print_other separator row (run t cs).key_fields ≡ key)
  unfolding get_compiled Sound
  get_compiled-run t cs key object empty found =
      let sound : Sound (run t cs) =
        run-Sound t cs (λ k e h. absurd (ground (arith, rw empty at h))) in
      elim (Option-cases (get (run t cs).store key)) [
        | inl n ↦ absurd (ground (arith, rw (get_compiled, n) at found))
        | inr (e, h) ↦
            let made : Made (run t cs) key e = sound key e h in
            let it : e.compiled ≡ object = ground (arith, rw (get_compiled, h) at found) in
            (e.row, made.admitted, made.compiles ∙ ap some it, made.keyed)
      ]

-- ===== src/Replication/Slice.antt =====
-- What a subscription's filter admits.
use laredo.Common.{
  Bool, ◌==◌, Option, none, ◌&&◌, ◌++◌, Option-cases, String, true, false, ◌≡◌, refl, inl, inr,
  some, List, [], ◌∷◌, arith, get, comparable_string, Bool-cases, All, ◌↔◌, ◌⊎◌, subst, sym,
}
use laredo.Types.{Value, null, text, other, Row, same_value}
use laredo.Replication.Filter.{
  FieldPredicate, Match, equals, prefix, within, normalize, normalize_each, any_same, match_value,
  compile_match, compile_each, compile_subscription_filter, Scalars, CompiledPredicate,
  match_predicate, match_all, match_row,
}

module _ (g : Scalars) (row : Row) where
  -- Two values are the same to a predicate: texts that are equal, or other values that are equal once
  -- each is a float64. Nil is the same as nothing.
  abbrev pub Equal : Value → Value → Type 0
  Equal (text s) (text t) = s ≡ t
  Equal (other m) (other n) = g.same_number (g.to_float m) (g.to_float n) ≡ true
  Equal _ _ = ⊥

  abbrev pub EqualsOne : Value → List Value → Type 0
  EqualsOne v [] = ⊥
  EqualsOne v (w ∷ ws) = Equal v w ⊎ EqualsOne v ws

  -- A value satisfies a condition.
  abbrev pub Satisfies : Match → Value → Type 0
  Satisfies (equals w) v = Equal v w
  Satisfies (prefix p) (text s) = g.has_prefix s p ≡ true
  Satisfies (prefix p) _ = ⊥
  Satisfies (within ws) v = EqualsOne v ws

  -- The row has a value in the predicate's field that satisfies its condition.
  abbrev pub Meets : FieldPredicate → Type 0
  Meets p =
      (v : Value) × (get row p.field ≡ some v)
      × ((m : Match) × (p.condition ≡ some m) × Satisfies m v)

  -- whether a row meets a predicate once it is compiled
  abbrev meets : FieldPredicate → Bool
  meets p = elim p.condition [
    | none ↦ false
    | some m ↦ match_predicate g (record { field = p.field; kind = compile_match g m }) row
  ]

  abbrev all_meet : List FieldPredicate → Bool
  all_meet [] = true
  all_meet (p ∷ ps) = meets p && all_meet ps

  match_all-snoc :
      (acc : List CompiledPredicate) (q : CompiledPredicate)
      → match_all g (acc ++ (q ∷ [])) row ≡ (match_all g acc row && match_predicate g q row)
  unfolding match_all
  match_all-snoc [] q = ground arith
  match_all-snoc (p ∷ acc) q = ground (arith, match_all-snoc acc q)

  match_all-compile_each :
      (ps : List FieldPredicate) (acc preds : List CompiledPredicate)
      → compile_each g ps acc ≡ some preds
      → match_all g preds row ≡ (match_all g acc row && all_meet ps)
  unfolding compile_each
  match_all-compile_each [] acc preds e =
      let same : acc ≡ preds = ground (arith, e) in rw⁻¹ same (ground arith)
  match_all-compile_each (p ∷ ps) acc preds e = elim (Bool-cases (p.field == "")) [
    | inl y ↦ absurd (ground (arith, rw (compile_each, y) at e))
    | inr n ↦ elim (Option-cases p.condition) [
      | inl o ↦ absurd (ground (arith, rw (compile_each, n, o) at e))
      | inr (m, c) ↦
          let q : CompiledPredicate = record { field = p.field; kind = compile_match g m } in
          let rest : match_all g preds row ≡ (match_all g (acc ++ (q ∷ [])) row && all_meet ps) =
            match_all-compile_each ps (acc ++ (q ∷ [])) preds (rw (compile_each, n, c) at e) in
          rw (rest, match_all-snoc acc q, c) (ground arith)
    ]
  ]

  row_meets :
      (ps : List FieldPredicate) (filter : Option (List CompiledPredicate))
      → compile_subscription_filter g ps ≡ some filter
      → match_row g filter row ≡ all_meet ps
  unfolding compile_subscription_filter match_row match_all
  row_meets [] filter e = let same : none ≡ filter = ground (arith, e) in rw⁻¹ same refl
  row_meets (p ∷ ps) filter e = elim (Option-cases (compile_each g (p ∷ ps) [])) [
    | inl n ↦ absurd (ground (arith, rw (compile_subscription_filter, n) at e))
    | inr (preds, h) ↦
        let same : some preds ≡ filter = ground (arith, rw (compile_subscription_filter, h) at e) in
        rw⁻¹ same (match_all-compile_each (p ∷ ps) [] preds h)
  ]

  abbrev NotNull : Value → Type 0
  NotNull null = ⊥
  NotNull _ = Unit {0}

  values_iff :
      (v w : Value)
      → NotNull v
      → (same_value g.same_number (normalize g v) (normalize g w) ≡ true) ↔ Equal v w
  unfolding same_value normalize
  values_iff null w there = absurd there
  values_iff (text s) null there = (λ h. ground (arith, h), λ h. absurd h)
  values_iff (text s) (text t) there = comparable_string.same_iff s t
  values_iff (text s) (other n) there = (λ h. ground (arith, h), λ h. absurd h)
  values_iff (other m) null there = (λ h. ground (arith, h), λ h. absurd h)
  values_iff (other m) (text t) there = (λ h. ground (arith, h), λ h. absurd h)
  values_iff (other m) (other n) there = (λ h. h, λ h. h)

  one_iff :
      (v : Value) (ws : List Value)
      → NotNull v
      → (any_same g (normalize g v) (normalize_each g ws) ≡ true) ↔ EqualsOne v ws
  unfolding any_same normalize_each
  one_iff v [] there = (λ h. ground (arith, h), λ h. absurd h)
  one_iff v (w ∷ ws) there =
      let first = values_iff v w there in
      let rest = one_iff v ws there in
      elim (Bool-cases (same_value g.same_number (normalize g v) (normalize g w))) [
        | inl y ↦ rw y ((λ h. inl (first.0 y)), (λ h. refl))
        | inr n ↦ rw n (
          (λ h. inr (rest.0 h)),
          (λ h. elim h [ inl e ↦ absurd (ground (arith, n, first.1 e)) | inr e ↦ rest.1 e ]),
        )
      ]

  match_value_iff :
      (m : Match) (v : Value)
      → NotNull v
      → (match_value g (compile_match g m) v ≡ true) ↔ Satisfies m v
  unfolding match_value compile_match
  match_value_iff m null there = absurd there
  match_value_iff (equals w) (text s) there = values_iff (text s) w there
  match_value_iff (equals w) (other n) there = values_iff (other n) w there
  match_value_iff (prefix p) (text s) there = (λ h. h, λ h. h)
  match_value_iff (prefix p) (other n) there = (λ h. ground (arith, h), λ h. absurd h)
  match_value_iff (within ws) (text s) there = one_iff (text s) ws there
  match_value_iff (within ws) (other n) there = one_iff (other n) ws there

  Satisfies-NotNull : (m : Match) (v : Value) → Satisfies m v → NotNull v
  Satisfies-NotNull (equals w) null h = h
  Satisfies-NotNull (prefix p) null h = h
  Satisfies-NotNull (within []) null h = h
  Satisfies-NotNull (within (w ∷ ws)) null h = elim h [
    | inl e ↦ e
    | inr e ↦ Satisfies-NotNull (within ws) null e
  ]
  Satisfies-NotNull m (text s) h = tt
  Satisfies-NotNull m (other n) h = tt

  predicate_iff :
      (m : Match) (field : String) (v : Value)
      → get row field ≡ some v
      → (match_predicate g (record { field = field; kind = compile_match g m }) row ≡ true)
        ↔ Satisfies m v
  unfolding match_predicate
  predicate_iff m field null at =
      rw (match_predicate, at) (λ h. ground (arith, h), λ h. absurd (Satisfies-NotNull m null h))
  predicate_iff m field (text s) at = rw (match_predicate, at) (match_value_iff m (text s) tt)
  predicate_iff m field (other n) at = rw (match_predicate, at) (match_value_iff m (other n) tt)

  present_iff :
      (p : FieldPredicate) (m : Match) (v : Value)
      → p.condition ≡ some m
      → get row p.field ≡ some v
      → (meets p ≡ true) ↔ Meets p
  present_iff p m v c at =
      let both = predicate_iff m p.field v at in
      (
        λ h. (v, at, (m, c, both.0 (rw c at h))),
        λ h.
            let (w, there, (k, d, holds)) = h in
            let same : v ≡ w = ground (arith, at, there) in
            let also : m ≡ k = ground (arith, c, d) in
            rw c (
              both.1 (
                subst (λ x. Satisfies m x) (sym same)
                  (subst (λ x. Satisfies x w) (sym also) holds))),
      )

  meets_iff : (p : FieldPredicate) → (meets p ≡ true) ↔ Meets p
  unfolding match_predicate
  meets_iff p = elim (Option-cases p.condition) [
    | inl o ↦ (
      λ h. ground (arith, h, o),
      λ h. let (v, at, (m, c, holds)) = h in absurd (ground (arith, o, c)),
    )
    | inr (m, c) ↦ elim (Option-cases (get row p.field)) [
      | inl gone ↦ (
        λ h. ground (arith, h, gone, c),
        λ h. let (v, at, rest) = h in absurd (ground (arith, at, gone)),
      )
      | inr (v, at) ↦ present_iff p m v c at
    ]
  ]

  all_meet_iff : (ps : List FieldPredicate) → (all_meet ps ≡ true) ↔ All Meets ps
  all_meet_iff [] = (λ h. tt, λ h. refl)
  all_meet_iff (p ∷ ps) =
      let first = meets_iff p in
      let rest = all_meet_iff ps in
      (
        λ h. (first.0 (ground (arith, h)), rest.0 (ground (arith, h))),
        λ h. ground (arith, first.1 h.0, rest.1 h.1),
      )

  -- A filter that compiles admits a row exactly when the row meets each of the predicates that the
  -- client wrote: it has a value in the predicate's field that satisfies the predicate's condition,
  -- which nil never does. Slices and maps, on which the `==` of the code panics, are not among the
  -- values.
  pub match_row-compile :
      (ps : List FieldPredicate) (filter : Option (List CompiledPredicate))
      → compile_subscription_filter g ps ≡ some filter
      → (match_row g filter row ≡ true) ↔ All Meets ps
  match_row-compile ps filter e = rw (row_meets ps filter e) (all_meet_iff ps)

-- ===== src/Engine/Ack/Advance.antt =====
-- What was acknowledged to a source never moves back.
use Prim.Native.Nat.{Ordering}
use laredo.Common.{
  String, true, ◌≡◌, ◌≢◌, refl, sym, ◌∙◌, ◌⊎◌, inl, inr, Option, none, some, List, [], ◌∷◌, arith,
  get, put, get-put, ◌==◌, comparable_string, Bool-cases, Option-cases,
}
use laredo.Engine.Ack.{
  Compare, AckTracker, new_ack_tracker, register_pipeline, confirm, confirm_all, skip, min_position,
  acknowledge, ack_with, ack_position, advances, last_acked,
}
use laredo.Engine.Ack.Minimum.{Comparator}

-- A call on the tracker; every source is registered with the one comparator.
pub data Call (P : Type 0) : Type 0 where
  registers : String → String → Call P
  confirms : String → Option P → Call P
  heartbeats : String → Option P → Call P
  skips : String → Call P
  acks : String → Call P

module _ {P : Type 0} (c : Comparator P) where
  open c use {cmp, flip, trans}

  unfoldable pub step : AckTracker P → Call P → AckTracker P
  step a (registers pipeline source) = register_pipeline a pipeline source cmp
  step a (confirms pipeline position) = confirm a pipeline position
  step a (heartbeats source position) = confirm_all a source position
  step a (skips pipeline) = skip a pipeline
  step a (acks source) = (ack_position a source).0

  unfoldable pub run : AckTracker P → List (Call P) → AckTracker P
  run a [] = a
  run a (x ∷ xs) = run (step a x) xs

  -- the registered comparators are all the section's
  abbrev Uniform : AckTracker P → Type 0
  Uniform a = (s : String) → (get a.comparators s ≡ none) ⊎ (get a.comparators s ≡ some cmp)

  -- `b` has acknowledged to the source at least what `a` has
  abbrev pub NotBehind : String → AckTracker P → AckTracker P → Type 0
  NotBehind source a b =
      (last_acked a source ≡ none)
      ⊎ ((p : P) × (q : P) × (last_acked a source ≡ some p)
          × (last_acked b source ≡ some q)
          × (cmp (some p) (some q) ≢ Ordering.gt))

  le_self : (a : P) → cmp (some a) (some a) ≢ Ordering.gt
  le_self a h = flip a a (λ k. cc) h

  same_NotBehind :
      (source : String) (a b : AckTracker P)
      → last_acked b source ≡ last_acked a source
      → NotBehind source a b
  same_NotBehind source a b e = elim (Option-cases (last_acked a source)) [
    | inl n ↦ inl n
    | inr (p, h) ↦ inr (p, p, h, e ∙ h, le_self p)
  ]

  NotBehind-trans :
      (source : String) (a b d : AckTracker P)
      → NotBehind source a b
      → NotBehind source b d
      → NotBehind source a d
  NotBehind-trans source a b d (inl n) k = inl n
  NotBehind-trans source a b d (inr h) (inl n) = absurd (ground (arith, h.3, n))
  NotBehind-trans source a b d (inr (p, q, hp, hq, le)) (inr (q', r, hq', hr, le')) =
      let same : q ≡ q' = cc (sym hq ∙ hq') in inr (p, r, hp, hr, trans p q r le (rw same le'))

  advanced_above :
      (low p : P) → advances cmp low (some p) ≡ true → cmp (some p) (some low) ≢ Ordering.gt
  unfolding advances
  advanced_above low p h =
      let above : cmp (some low) (some p) ≡ Ordering.gt = ground (arith, h) in flip low p (λ k. cc)

  put-NotBehind :
      (a : AckTracker P) (s source : String) (low : P)
      → advances cmp low (get a.last_acked s) ≡ true
      → NotBehind source a (record a { last_acked = put a.last_acked s low })
  unfolding last_acked
  put-NotBehind a s source low h = elim (Option-cases (get a.last_acked source)) [
    | inl n ↦ inl n
    | inr (p, e) ↦ elim (Bool-cases (s == source)) [
      | inr n ↦ inr (p, p, e, rw (get-put a.last_acked s source low, n) e, le_self p)
      | inl y ↦
          let q : source ≡ s = sym ((comparable_string.same_iff s source).0 y) in
          let old : get a.last_acked s ≡ some p = rw (← q) e in
          inr (
            p,
            low,
            e,
            rw (get-put a.last_acked s source low, y),
            advanced_above low p (rw old at h),
          )
    ]
  ]

  acknowledge-NotBehind :
      (a : AckTracker P) (s source : String) (low : P)
      → NotBehind source a (acknowledge a cmp s low).0
  unfolding acknowledge
  acknowledge-NotBehind a s source low = elim (Bool-cases (advances cmp low (get a.last_acked s))) [
    | inl y ↦ rw (y, acknowledge) (put-NotBehind a s source low y)
    | inr n ↦ rw (n, acknowledge) (same_NotBehind source a a refl)
  ]

  ack_with-NotBehind :
      (a : AckTracker P) (s source : String) (r : Option (Compare P))
      → (r ≡ none) ⊎ (r ≡ some cmp)
      → NotBehind source a (ack_with a s r).0
  unfolding ack_with
  ack_with-NotBehind a s source r (inl n) = rw n (same_NotBehind source a a refl)
  ack_with-NotBehind a s source r (inr e) =
      rw e (go (min_position a cmp s a.pipeline_source none) refl)
    where
      go :
          (m : Option (Option P))
          → min_position a cmp s a.pipeline_source none ≡ m
          → NotBehind source a (ack_with a s (some cmp)).0
      go none q = rw (q, ack_with) (same_NotBehind source a a refl)
      go (some none) q = rw (q, ack_with) (same_NotBehind source a a refl)
      go (some (some low)) q = rw (q, ack_with) (acknowledge-NotBehind a s source low)

  step-NotBehind :
      (a : AckTracker P) (x : Call P) (source : String) → Uniform a → NotBehind source a (step a x)
  unfolding step register_pipeline confirm confirm_all skip ack_position last_acked
  step-NotBehind a (registers p s) source u = same_NotBehind source a (step a (registers p s)) refl
  step-NotBehind a (confirms p pos) source u =
      same_NotBehind source a (step a (confirms p pos)) refl
  step-NotBehind a (heartbeats s pos) source u =
      same_NotBehind source a (step a (heartbeats s pos)) refl
  step-NotBehind a (skips p) source u = same_NotBehind source a (step a (skips p)) refl
  step-NotBehind a (acks s) source u = ack_with-NotBehind a s source (get a.comparators s) (u s)

  comparators-ack :
      (a : AckTracker P) (s : String) (r : Option (Compare P))
      → (ack_with a s r).0.comparators ≡ a.comparators
  unfolding ack_with acknowledge
  comparators-ack a s r = ground arith

  step-Uniform : (a : AckTracker P) (x : Call P) → Uniform a → Uniform (step a x)
  unfolding step register_pipeline confirm confirm_all skip ack_position
  step-Uniform a (registers p s) u k = elim (Bool-cases (s == k)) [
    | inl y ↦ inr (rw (get-put a.comparators s k cmp, y))
    | inr n ↦ rw (get-put a.comparators s k cmp, n) (u k)
  ]
  step-Uniform a (confirms p pos) u k = u k
  step-Uniform a (heartbeats s pos) u k = u k
  step-Uniform a (skips p) u k = u k
  step-Uniform a (acks s) u k = rw (comparators-ack a s (get a.comparators s)) (u k)

  run-NotBehind :
      (a : AckTracker P) (xs : List (Call P)) (source : String)
      → Uniform a
      → NotBehind source a (run a xs)
  unfolding run
  run-NotBehind a [] source u = same_NotBehind source a a refl
  run-NotBehind a (x ∷ xs) source u =
      NotBehind-trans source a (step a x) _ (step-NotBehind a x source u)
        (run-NotBehind (step a x) xs source (step-Uniform a x u))

  run-Uniform : (a : AckTracker P) (xs : List (Call P)) → Uniform a → Uniform (run a xs)
  unfolding run
  run-Uniform a [] u = u
  run-Uniform a (x ∷ xs) u = run-Uniform (step a x) xs (step-Uniform a x u)

  -- After any history of calls, and any further calls, the position acknowledged to a source is not
  -- behind the one that was acknowledged before them.
  pub last_acked-monotone :
      (xs ys : List (Call P)) (source : String)
      → NotBehind source (run (new_ack_tracker P) xs) (run (run (new_ack_tracker P) xs) ys)
  unfolding new_ack_tracker
  last_acked-monotone xs ys source = run-NotBehind _ ys source (run-Uniform _ xs (λ s. inl refl))

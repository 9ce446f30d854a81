-- ===== src/Snapshotter/Chains.antt =====
-- The chain of diffs that the reader follows: it is linked, it ends where positions grow, and it does
-- not end once a diff leads back to its own start.
use Prim.Native.Nat.{Ordering}
use laredo.Common.{
  ℕ, zero, suc, ◌-◌, ◌≤◌, ◌<◌, String, Bool, true, false, ◌≡◌, refl, sym, ap, subst, ◌∙◌, inl, inr,
  none, some, List, [], ◌∷◌, ◌++◌, arith, Assoc, get, put, get-put, ◌==◌, Option, if◌then◌else◌,
  comparable_string, Bool-cases, ◌&&◌, Option-cases,
}
use laredo.Snapshotter.{Artifact, Manifest, latest_snapshot}
use laredo.Snapshotter.Reader.{
  ReplayPlan, diffs_of, by_from, follow, contiguous_diff_chain, from_snapshot, at_least, plan,
}

-- The diffs lead from one position to another, each from where the one before it ends.
abbrev pub Linked : String → List Artifact → String → Type 0
Linked start [] end = start ≡ end
Linked start (d ∷ ds) end = (d.from_position ≡ some start) × Linked d.to_position ds end

-- each entry of the map starts at its key
abbrev pub StartsAtKey : Assoc String Artifact → Type 0
StartsAtKey m = (k : String) (d : Artifact) → get m k ≡ some d → d.from_position ≡ some k

pub by_from-StartsAtKey :
    (m : Assoc String Artifact) (ds : List Artifact) → StartsAtKey m → StartsAtKey (by_from m ds)
unfolding by_from
by_from-StartsAtKey m [] s = s
by_from-StartsAtKey m (d ∷ ds) s = elim (Option-cases d.from_position) [
  | inl n ↦ rw (n, by_from) (by_from-StartsAtKey m ds s)
  | inr (p, e) ↦ rw (e, by_from) (by_from-StartsAtKey (put m p d) ds (added p e))
]
  where
    added : (p : String) → d.from_position ≡ some p → StartsAtKey (put m p d)
    added p e k x h = elim (Bool-cases (p == k)) [
      | inr n ↦ s k x (rw (get-put m p k d, n) at h)
      | inl y ↦
          let own : some d ≡ some x = rw (get-put m p k d, y) at h in
          ground (arith, comparable_string.same_iff p k, own, e)
    ]

-- The end of a found chain: where no diff was found it is the start, else it is the reported head.
abbrev pub EndsAt : Bool → List Artifact → String → String → Type 0
EndsAt false chain head end = chain ≡ []
EndsAt true chain head end = head ≡ end

pub Linked-append :
    (start end : String) (ds : List Artifact) (d : Artifact)
    → Linked start ds end
    → d.from_position ≡ some end
    → Linked start (ds ++ (d ∷ [])) d.to_position
Linked-append start end [] d e h = (h ∙ ap some (sym e), refl)
Linked-append start end (x ∷ ds) d (f, l) h = (f, Linked-append x.to_position end ds d l h)

-- What the reader has found: a chain from the start to a position where no diff begins.
pub record Found (start : String) (m : Assoc String Artifact) (r : List Artifact × String × Bool)
    : Type 0 where
  pub end : String
  pub linked : Linked start r.0 end
  pub maximal : get m end ≡ none
  pub head : EndsAt r.2 r.0 r.1 end

module _ (m : Assoc String Artifact) (rank : String → ℕ) (bound : ℕ) (keyed : StartsAtKey m)
    (rises : (k : String) (d : Artifact) → get m k ≡ some d → rank k < rank d.to_position)
    (bounded : (k : String) (d : Artifact) → get m k ≡ some d → rank d.to_position ≤ bound) where
  follow-finds :
      (fuel : ℕ) (start cur : String) (found : List Artifact × String × Bool)
      → bound - rank cur < fuel
      → Linked start found.0 cur
      → EndsAt found.2 found.0 found.1 cur
      → (r : List Artifact × String × Bool) × (follow fuel m cur found ≡ some r) × Found start m r
  unfolding follow
  follow-finds zero start cur found enough l e = ground arith
  follow-finds (suc fuel) start cur (chain, head, ok) enough l e = elim (Option-cases (get m cur)) [
    | inl n ↦ (
      (chain, head, ok),
      rw (follow, n) refl,
      record { end = cur; linked = l; maximal = n; head = e },
    )
    | inr (d, h) ↦
        let (r, eq, f) =
          follow-finds fuel start d.to_position (chain ++ (d ∷ []), d.to_position, true)
            (omega (arith, enough, rises cur d h, bounded cur d h))
            (Linked-append start cur chain d l (keyed cur d h)) refl in
        (r, rw (follow, h) eq, f)
  ]

-- Where every followed diff leads to a position of higher rank, and no rank passes the bound, fuel
-- beyond the bound is enough: the reader returns a linked chain that no diff continues, and reports
-- its end.
pub contiguous_diff_chain-Found :
    (diffs : List Artifact) (start : String) (rank : String → ℕ) (bound fuel : ℕ)
    → ((k : String) (d : Artifact)
        → get (by_from [] diffs) k ≡ some d
        → (rank k < rank d.to_position) × (rank d.to_position ≤ bound))
    → bound < fuel
    → (r : List Artifact × String × Bool) × (contiguous_diff_chain fuel diffs start ≡ some r)
      × Found start (by_from [] diffs) r
unfolding contiguous_diff_chain
contiguous_diff_chain-Found diffs start rank bound fuel rises enough =
    follow-finds (by_from [] diffs) rank bound
      (by_from-StartsAtKey [] diffs (λ k d h. ground (arith, h))) (λ k d h. (rises k d h).0)
      (λ k d h. (rises k d h).1) fuel start start ([], "", false) (omega (arith, enough)) refl refl

-- A chain that is found, with whatever fuel, is linked.
follow-Linked :
    (fuel : ℕ) (m : Assoc String Artifact) (start cur : String)
    (found r : List Artifact × String × Bool)
    → StartsAtKey m
    → Linked start found.0 cur
    → EndsAt found.2 found.0 found.1 cur
    → follow fuel m cur found ≡ some r
    → (end : String) × Linked start r.0 end × EndsAt r.2 r.0 r.1 end
unfolding follow
follow-Linked zero m start cur found r keyed l e h = absurd (ground (arith, h))
follow-Linked (suc fuel) m start cur (chain, head, ok) r keyed l e h =
    elim (Option-cases (get m cur)) [
      | inl n ↦
          let same : (chain, head, ok) ≡ r = ground (arith, rw (follow, n) at h) in
          subst (λ x. (end : String) × Linked start x.0 end × EndsAt x.2 x.0 x.1 end) same
            (cur, l, e)
      | inr (d, found) ↦
          follow-Linked fuel m start d.to_position (chain ++ (d ∷ []), d.to_position, true) r keyed
            (Linked-append start cur chain d l (keyed cur d found)) refl (rw (follow, found) at h)
    ]

-- What a plan for a position consists of: diffs that lead from the position to the plan's head, or
-- the latest snapshot and diffs that lead on from its position.
abbrev pub Planned : Manifest → String → ReplayPlan → Type 0
Planned m start p = elim p.snapshot [
  | none ↦ Linked start p.diffs p.head_position
  | some base ↦
      (latest_snapshot m ≡ some base) × ((end : String) × Linked base.to_position p.diffs end)
]

chain-Linked :
    (fuel : ℕ) (diffs : List Artifact) (start : String) (r : List Artifact × String × Bool)
    → contiguous_diff_chain fuel diffs start ≡ some r
    → (end : String) × Linked start r.0 end × EndsAt r.2 r.0 r.1 end
unfolding contiguous_diff_chain
chain-Linked fuel diffs start r h =
    follow-Linked fuel (by_from [] diffs) start start ([], "", false) r
      (by_from-StartsAtKey [] diffs (λ k d g. ground (arith, g))) refl refl h

based-Planned :
    (cmp : String → String → Ordering) (fuel : ℕ) (m : Manifest) (diffs : List Artifact)
    (start : String) (p : ReplayPlan) (o : Option Artifact)
    → latest_snapshot m ≡ o
    → from_snapshot cmp fuel m diffs o ≡ some (some p)
    → Planned m start p
unfolding from_snapshot
based-Planned cmp fuel m diffs start p none latest made = absurd (ground (arith, made))
based-Planned cmp fuel m diffs start p (some base) latest made =
    elim (Option-cases (contiguous_diff_chain fuel diffs base.to_position)) [
      | inl n ↦ absurd (ground (arith, rw (from_snapshot, n) at made))
      | inr ((chain, head, ok), f) ↦
          let built : record {
            snapshot = some base;
            diffs = chain;
            head_position = if head == "" then base.to_position else head;
          }
              ≡ p =
            ground (arith, rw (from_snapshot, f) at made) in
          let (end, linked, ends) = chain-Linked fuel diffs base.to_position (chain, head, ok) f in
          subst (Planned m start) built (latest, (end, linked))
    ]

pub plan-Planned :
    (cmp : String → String → Ordering) (fuel : ℕ) (m : Manifest) (start : String) (p : ReplayPlan)
    → plan cmp fuel m start ≡ some (some p)
    → Planned m start p
unfolding plan
plan-Planned cmp fuel m start p made = go m.artifacts refl
  where
    go : (arts : List Artifact) → m.artifacts ≡ arts → Planned m start p
    go [] e = absurd (ground (arith, rw (plan, e) at made))
    go (a ∷ rest) e = elim (Option-cases (contiguous_diff_chain fuel (diffs_of (a ∷ rest)) start)) [
      | inl n ↦ absurd (ground (arith, rw (plan, e, n) at made))
      | inr ((chain, head, ok), f) ↦ elim (Bool-cases (ok && at_least (cmp head m.head_position))) [
        | inl y ↦
            let built : record { snapshot = none; diffs = chain; head_position = head } ≡ p =
              ground (arith, rw (plan, e, f, y) at made) in
            let (end, linked, ends) =
              chain-Linked fuel (diffs_of (a ∷ rest)) start (chain, head, ok) f in
            let reached : ok ≡ true = ground (arith, y) in
            let at_end : head ≡ end = subst (λ b. EndsAt b chain head end) reached ends in
            subst (Planned m start) built (subst (Linked start chain) (sym at_end) linked)
        | inr n ↦
            based-Planned cmp fuel m (diffs_of (a ∷ rest)) start p (latest_snapshot m) refl
              (rw (plan, e, f, n) at made)
      ]
    ]

-- From a position the diffs lead to one that ends where it starts.
pub data Leads (m : Assoc String Artifact) (d : Artifact) : String → Type 0 where
  arrived : get m d.to_position ≡ some d → Leads m d d.to_position
  over :
      {cur : String} {x : Artifact} → get m cur ≡ some x → Leads m d x.to_position → Leads m d cur

follow_self :
    (fuel : ℕ) (m : Assoc String Artifact) (d : Artifact) (cur : String)
    (found : List Artifact × String × Bool)
    → Leads m d cur
    → follow fuel m cur found ≡ none
unfolding follow
follow_self zero m d cur found h = refl
follow_self (suc fuel) m d cur (chain, head, ok) (arrived h) =
    rw (follow, h)
      (follow_self fuel m d d.to_position (chain ++ (d ∷ []), d.to_position, true) (arrived h))
follow_self (suc fuel) m d cur (chain, head, ok) (over {x = x} h l) =
    rw (follow, h) (follow_self fuel m d x.to_position (chain ++ (x ∷ []), x.to_position, true) l)

Leads-get :
    (m : Assoc String Artifact) (d : Artifact) (cur : String)
    → Leads m d cur
    → (x : Artifact) × (get m cur ≡ some x)
Leads-get m d cur (arrived h) = (d, h)
Leads-get m d cur (over {x = x} h l) = (x, h)

-- A planner that is asked to go on from a position whose diffs lead, over any number of others, to
-- a diff that ends where it starts never returns: no fuel is enough, whatever else the manifest holds.
pub plan_self :
    (cmp : String → String → Ordering) (fuel : ℕ) (m : Manifest) (d : Artifact) (start : String)
    → Leads (by_from [] (diffs_of m.artifacts)) d start
    → plan cmp fuel m start ≡ none
unfolding plan contiguous_diff_chain
plan_self cmp fuel m d start h = go m.artifacts refl
  where
    go : (arts : List Artifact) → m.artifacts ≡ arts → plan cmp fuel m start ≡ none
    go [] e =
        let (x, there) = Leads-get (by_from [] (diffs_of m.artifacts)) d start h in
        ground (arith, rw (e, diffs_of, by_from) at there)
    go (a ∷ rest) e =
        rw
          (
            plan,
            e,
            contiguous_diff_chain,
            follow_self fuel (by_from [] (diffs_of (a ∷ rest))) d start ([], "", false) (rw e at h),
          )
          refl

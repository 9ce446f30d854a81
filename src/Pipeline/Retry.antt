-- ===== src/Pipeline/Retry.antt =====
-- Retries: what applying a change keeps of the pipeline, and when the retries succeed.
use laredo.Common.{
  ℕ, zero, suc, Bool, true, false, ◌≡◌, refl, ◌∙◌, Option, none, some, Bool-cases, Option-cases,
  inl, inr, ℤ, sucℤ, predℤ, pos,
}
use laredo.Types.{Row, present, ChangeAction, insert, update, remove, truncate}
use laredo.DeadLetter.{ChangeEvent}
use laredo.Pipeline.{
  Pipeline, SyncTarget, apply_filters, apply_filters_and_transforms, is_row_expired, counted,
  apply_insert, apply_update, apply_delete, apply_change_to_target, retry_change,
}

-- Applying changes leaves these fields as they were.
pub record Keeps {T : Type 0} (p q : Pipeline T) : Type 0 where
  pub id : q.id ≡ p.id
  pub state : q.state ≡ p.state
  pub source_id : q.source_id ≡ p.source_id
  pub error_policy : q.error_policy ≡ p.error_policy

module _ {T : Type 0} where
  pub Keeps-refl : (p : Pipeline T) → Keeps p p
  Keeps-refl p = record { id = refl; state = refl; source_id = refl; error_policy = refl }

  pub Keeps-trans : {p q r : Pipeline T} → Keeps p q → Keeps q r → Keeps p r
  Keeps-trans a b = record {
    id = b.id ∙ a.id;
    state = b.state ∙ a.state;
    source_id = b.source_id ∙ a.source_id;
    error_policy = b.error_policy ∙ a.error_policy;
  }

module _ {T P : Type 0} (s : SyncTarget T P) where
  counted-Keeps : (p : Pipeline T) (r : T × Bool) (count : ℤ → ℤ) → Keeps p (counted p r count).0
  counted-Keeps p r count = record {
    id = refl;
    state = refl;
    source_id = refl;
    error_policy = refl;
  }

  apply_insert-Keeps :
      (now : ℕ) (p : Pipeline T) (row : Option Row) → Keeps p (apply_insert s now p row).0
  unfolding apply_insert
  apply_insert-Keeps now p none = Keeps-refl p
  apply_insert-Keeps now p (some row) = elim (Bool-cases (is_row_expired p now row)) [
    | inl y ↦ rw y (Keeps-refl p)
    | inr n ↦ rw n (counted-Keeps p _ sucℤ)
  ]

  apply_update-Keeps :
      (now : ℕ) (p : Pipeline T) (row old : Option Row) → Keeps p (apply_update s now p row old).0
  unfolding apply_update
  apply_update-Keeps now p none old = Keeps-refl p
  apply_update-Keeps now p (some row) old = elim (Bool-cases (is_row_expired p now row)) [
    | inl y ↦ rw y (counted-Keeps p _ predℤ)
    | inr n ↦ rw n (counted-Keeps p _ (λ n. n))
  ]

  apply_delete-Keeps : (p : Pipeline T) (old : Option Row) → Keeps p (apply_delete s p old).0
  unfolding apply_delete
  apply_delete-Keeps p old = elim (Bool-cases (apply_filters p.filters (present old))) [
    | inl y ↦ rw y (counted-Keeps p _ predℤ)
    | inr n ↦ rw n (Keeps-refl p)
  ]

  pub apply_change_to_target-Keeps :
      (now : ℕ) (p : Pipeline T) (e : ChangeEvent P) → Keeps p (apply_change_to_target s now p e).0
  unfolding apply_change_to_target
  apply_change_to_target-Keeps now p e = go e.action refl
    where
      q : Pipeline T
      q = record p { target = s.set_change_position p.target e.position }

      from_q : Keeps p q
      from_q = record { id = refl; state = refl; source_id = refl; error_policy = refl }

      go : (a : ChangeAction) → e.action ≡ a → Keeps p (apply_change_to_target s now p e).0
      go insert h = rw h (
          Keeps-trans from_q
            (apply_insert-Keeps now q (apply_filters_and_transforms q e.new_values)))
      go update h = rw h (
          Keeps-trans from_q
            (apply_update-Keeps now q (apply_filters_and_transforms q e.new_values) e.old_values))
      go remove h = rw h (Keeps-trans from_q (apply_delete-Keeps q e.old_values))
      go truncate h =
          rw h (Keeps-trans from_q (counted-Keeps q (s.on_truncate q.target) (λ n. pos 0)))

  pub retry_change-Keeps :
      (left : ℕ) (timer : ℕ → Option ℕ) (p : Pipeline T) (e : ChangeEvent P)
      → Keeps p (retry_change s left timer p e).0
  unfolding retry_change
  retry_change-Keeps zero timer p e = Keeps-refl p
  retry_change-Keeps (suc left) timer p e = elim (Option-cases (timer left)) [
    | inl n ↦ rw (retry_change, n) (Keeps-refl p)
    | inr (now, h) ↦
        let next : Keeps p (apply_change_to_target s now p e).0 =
          apply_change_to_target-Keeps now p e in
        elim (Bool-cases (apply_change_to_target s now p e).1) [
          | inl y ↦ rw (retry_change, h, y) next
          | inr n ↦
              rw (retry_change, h, n)
                (Keeps-trans next
                  (retry_change-Keeps left timer (apply_change_to_target s now p e).0 e))
        ]
  ]

  -- Attempts that all fail, with the timers of as many retries: where they lead.
  pub data Fails (timer : ℕ → Option ℕ) (e : ChangeEvent P)
      : ℕ → ℕ → Pipeline T → Pipeline T → Type 0 where
    no_attempt : {left : ℕ} {p : Pipeline T} → Fails timer e left left p p
    attempt_fails :
        {left rest : ℕ} {p q : Pipeline T} (now : ℕ)
        → timer left ≡ some now
        → (apply_change_to_target s now p e).1 ≡ false
        → Fails timer e left rest (apply_change_to_target s now p e).0 q
        → Fails timer e (suc left) rest p q

  -- However many attempts fail first, if one of the retries that are left succeeds, the change counts
  -- as applied, and the target is the one that this attempt left.
  pub retry_change-succeeds :
      (timer : ℕ → Option ℕ) (e : ChangeEvent P) (left rest now : ℕ) (p q : Pipeline T)
      → Fails timer e left (suc rest) p q
      → timer rest ≡ some now
      → (apply_change_to_target s now q e).1 ≡ true
      → retry_change s left timer p e ≡ ((apply_change_to_target s now q e).0, true)
  unfolding retry_change
  retry_change-succeeds timer e left rest now p q no_attempt h ok = rw (retry_change, h, ok) refl
  retry_change-succeeds timer e left rest now p q (attempt_fails t ht bad fs) h ok =
      rw (retry_change, ht, bad) (retry_change-succeeds timer e _ rest now _ q fs h ok)

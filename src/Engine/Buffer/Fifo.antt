-- ===== src/Engine/Buffer/Fifo.antt =====
-- The buffer is a bounded queue; under the drop-oldest policy it holds the newest items.
use mathlib.Core.List.{append-nil, append_assoc}
use laredo.Common.{
  ℕ, suc, zero, ◌+◌, ◌-◌, ◌≤◌, ◌<◌, ◌≡◌, refl, sym, ap, ◌∙◌, true, false, Option, none, some, List,
  [], ◌∷◌, ◌++◌, arith, ltb, length, length-append, length-drop, drop, Bool-cases, inl, inr,
}
use laredo.Engine.Buffer.{ChangeBuffer, Outcome, returns, blocks, panics, send_drop_oldest}

module _ {T : Type 0} where
  -- Open, of at least one place, and not over its size.
  pub record IsOpen (b : ChangeBuffer T) : Type 0 where
    pub open_ : b.closed ≡ false
    pub places : 0 < b.size
    pub fits : length b.ch ≤ b.size

  -- The buffer after sending all of the items under the drop-oldest policy, while nothing is received.
  unfoldable pub offer_all : ChangeBuffer T → List T → Outcome (ChangeBuffer T)
  offer_all b [] = returns b
  offer_all b (x ∷ xs) = elim (send_drop_oldest b 0 x) [
    | returns (b', dropped) ↦ offer_all b' xs
    | blocks ↦ blocks
    | panics ↦ panics
  ]

  -- The last `n` items of a list.
  abbrev pub newest : ℕ → List T → List T
  newest n xs = drop (length xs - n) xs

  drop-append : (k : ℕ) (xs ys : List T) → k ≤ length xs → drop k (xs ++ ys) ≡ drop k xs ++ ys
  drop-append zero xs ys h = refl
  drop-append (suc k) [] ys h = absurd (omega arith)
  drop-append (suc k) (x ∷ xs) ys h = drop-append k xs ys (omega arith)

  drop_nil : (m : ℕ) → drop {A = T} m [] ≡ []
  drop_nil zero = refl
  drop_nil (suc m) = refl

  drop-drop : (j k m : ℕ) (xs : List T) → m ≡ k + j → drop j (drop k xs) ≡ drop m xs
  drop-drop j zero m xs e = ap (λ i. drop i xs) (omega arith)
  drop-drop zero (suc k) m [] e = sym (drop_nil m)
  drop-drop (suc j) (suc k) m [] e = sym (drop_nil m)
  drop-drop j (suc k) zero (x ∷ xs) e = absurd (omega arith)
  drop-drop j (suc k) (suc m) (x ∷ xs) e = drop-drop j k m xs (omega arith)

  newest-append : (n : ℕ) (xs ys : List T) → newest n (newest n xs ++ ys) ≡ newest n (xs ++ ys)
  newest-append n xs ys =
      let k : ℕ = length xs - n in
      let same : drop k xs ++ ys ≡ drop k (xs ++ ys) = sym (drop-append k xs ys (omega arith)) in
      rw (same, length-drop k (xs ++ ys))
        (drop-drop (length (xs ++ ys) - k - n) k (length (xs ++ ys) - n) (xs ++ ys)
          (omega (arith, length-append xs ys)))

  newest_all : (n : ℕ) (xs : List T) → length xs ≤ n → newest n xs ≡ xs
  newest_all n xs h = let none_dropped : length xs - n ≡ 0 = omega arith in rw none_dropped

  drop_one : (n : ℕ) (y : T) (ys : List T) → length ys ≡ n → newest n (y ∷ ys) ≡ ys
  drop_one n y ys h = let one : length (y ∷ ys) - n ≡ 1 = omega arith in rw one

  offered :
      (b : ChangeBuffer T) (ch : List T) (x : T)
      → b.ch ≡ ch
      → IsOpen b
      → (dropped : Option T) × (send_drop_oldest b 0 x
          ≡ returns (record b { ch = newest b.size (ch ++ (x ∷ [])) }, dropped))
  unfolding send_drop_oldest
  offered b [] x e o =
      let room : ltb (length b.ch) b.size ≡ true = ground (arith, o.places) in
      (none, ground (arith, o.open_, room, newest_all b.size (x ∷ []) o.places))
  offered b (y ∷ ys) x e o = elim (Bool-cases (ltb (length b.ch) b.size)) [
    | inl room ↦ (
      none,
      ground (
        arith,
        o.open_,
        room,
        newest_all b.size (y ∷ (ys ++ (x ∷ []))),
        length-append ys (x ∷ []),
      ),
    )
    | inr full ↦ (
      some y,
      ground (arith, o.open_, full, drop_one b.size y (ys ++ (x ∷ [])), length-append ys (x ∷ [])),
    )
  ]

  newest-le : (n : ℕ) (xs : List T) → length (newest n xs) ≤ n
  newest-le n xs = omega (arith, length-drop (length xs - n) xs)

  -- Where the consumer receives nothing meanwhile, sending any items under the drop-oldest policy to
  -- an open buffer of at least one place never blocks and never panics, and leaves the newest of all
  -- items, as many as fit, in their order.
  pub offer_all-newest :
      (b : ChangeBuffer T) (xs : List T)
      → IsOpen b
      → offer_all b xs ≡ returns (record b { ch = newest b.size (b.ch ++ xs) })
  unfolding offer_all
  offer_all-newest b [] o = rw (append-nil b.ch, newest_all b.size b.ch o.fits)
  offer_all-newest b (x ∷ xs) o =
      let now : ChangeBuffer T = record b { ch = newest b.size (b.ch ++ (x ∷ [])) } in
      let (dropped, e) = offered b b.ch x refl o in
      rw (e, offer_all)
        (offer_all-newest now xs (record {
          open_ = o.open_;
          places = o.places;
          fits = newest-le b.size (b.ch ++ (x ∷ []));
        })
          ∙ ap (λ l. returns (record b { ch = l }))
              (newest-append b.size (b.ch ++ (x ∷ [])) xs
                ∙ ap (newest b.size) (append_assoc b.ch (x ∷ []) xs)))

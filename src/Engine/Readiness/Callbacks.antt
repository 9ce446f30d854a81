-- ===== src/Engine/Readiness/Callbacks.antt =====
-- Each callback runs once, in the order of registration, and none waits once all is ready.
use mathlib.Core.List.{append-nil, append_assoc}
use laredo.Common.{
  ℕ, String, false, ◌≡◌, refl, sym, ap, ◌∙◌, ◌⊎◌, inl, inr, List, [], ◌∷◌, ◌++◌, arith,
}
use laredo.Engine.Readiness.{ReadinessTracker, new_readiness_tracker, set_ready, on_ready, is_ready}

pub data Call : Type 0 where
  readies : String → Call
  registers : ℕ → Call

unfoldable pub step : ReadinessTracker → Call → ReadinessTracker × List ℕ
step r (readies pipeline) = set_ready r pipeline
step r (registers callback) = on_ready r callback

-- the tracker after the calls, and the callbacks run by all of them
unfoldable pub run : ReadinessTracker → List Call → ReadinessTracker × List ℕ
run r [] = (r, [])
run r (c ∷ cs) = let (r', fired) = step r c in let (last, more) = run r' cs in (last, fired ++ more)

-- the callbacks that the calls register, in order
abbrev pub registered : List Call → List ℕ
registered [] = []
registered (readies pipeline ∷ cs) = registered cs
registered (registers callback ∷ cs) = callback ∷ registered cs

-- what one call adds to the registered callbacks
registered_by : Call → List ℕ
registered_by (readies pipeline) = []
registered_by (registers callback) = callback ∷ []

abbrev Settled : ReadinessTracker → Type 0
Settled r = (r.closed ≡ false) ⊎ (r.callbacks ≡ [])

step_fires :
    (r : ReadinessTracker) (c : Call)
    → Settled r
    → ((step r c).1 ++ (step r c).0.callbacks ≡ r.callbacks ++ registered_by c)
      × Settled (step r c).0
unfolding step set_ready on_ready registered_by
step_fires r (readies pipeline) s =
    ground (arith, append-nil r.callbacks, append-nil (r.callbacks ++ []))
step_fires r (registers callback) s = ground arith

registered_cons :
    (c : Call) (cs : List Call) → registered_by c ++ registered cs ≡ registered (c ∷ cs)
unfolding registered_by
registered_cons (readies pipeline) cs = refl
registered_cons (registers callback) cs = refl

run_fires :
    (r : ReadinessTracker) (cs : List Call)
    → Settled r
    → ((run r cs).1 ++ (run r cs).0.callbacks ≡ r.callbacks ++ registered cs) × Settled (run r cs).0
unfolding run
run_fires r [] s = (sym (append-nil r.callbacks), s)
run_fires r (c ∷ cs) s =
    let (here, settled) = step_fires r c s in
    let (later, done) = run_fires (step r c).0 cs settled in
    (
      append_assoc (step r c).1 (run (step r c).0 cs).1 (run (step r c).0 cs).0.callbacks
          ∙ ap (λ l. (step r c).1 ++ l) later
          ∙ sym (append_assoc (step r c).1 (step r c).0.callbacks (registered cs))
          ∙ ap (λ l. l ++ registered cs) here
          ∙ append_assoc r.callbacks (registered_by c) (registered cs)
          ∙ ap (λ l. r.callbacks ++ l) (registered_cons c cs),
      done,
    )

pub run_callbacks :
    (ids : List String) (cs : List Call)
    → let (r, fired) = run (new_readiness_tracker ids) cs in
      (fired ++ r.callbacks ≡ registered cs)
      × ((is_ready r ≡ false) ⊎ ((r.callbacks ≡ []) × (fired ≡ registered cs)))
unfolding new_readiness_tracker is_ready
run_callbacks ids cs =
    let r0 : ReadinessTracker = new_readiness_tracker ids in
    let (all, settled) = run_fires r0 cs (inr refl) in
    (
      all,
      elim settled [
        | inl open_ ↦ inl open_
        | inr nil ↦ inr (nil, sym (append-nil (run r0 cs).1) ∙ (rw nil at all))
      ],
    )

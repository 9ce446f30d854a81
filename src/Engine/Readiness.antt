-- ===== src/Engine/Readiness.antt =====
-- internal/engine/readiness.go: the readiness tracker. A callback is a number; a method returns the
-- tracker and the callbacks that it runs, in order. `AwaitReady` waits for `closed`.
pub mod Callbacks
use laredo.Common.{
  ℕ, String, Bool, true, false, List, [], ◌∷◌, ◌++◌, ◌&&◌, if◌then◌else◌, Assoc, put,
  comparable_string,
}

pub record ReadinessTracker : Type 0 where
  pub ready : Assoc String Bool
  pub closed : Bool
  pub callbacks : List ℕ

unfoldable pub not_ready : List String → Assoc String Bool → Assoc String Bool
not_ready [] m = m
not_ready (id ∷ ids) m = not_ready ids (put m id false)

-- `NewReadinessTracker`
unfoldable pub new_readiness_tracker : List String → ReadinessTracker
unfolding not_ready
new_readiness_tracker ids = record {
  ready = not_ready ids [];
  closed = elim ids [ [] ↦ true | id ∷ rest ↦ false ];
  callbacks = [];
}

-- the loop of `SetReady` over the values of the map
unfoldable pub all_true : Assoc String Bool → Bool
all_true [] = true
all_true ((id, v) ∷ m) = v && all_true m

-- `SetReady`
unfoldable pub set_ready : ReadinessTracker → String → ReadinessTracker × List ℕ
unfolding all_true
set_ready r pipeline =
    let ready = put r.ready pipeline true in
    if r.closed
    then (record r { ready = ready }, [])
    else if all_true ready
    then (record r { ready = ready; closed = true; callbacks = [] }, r.callbacks)
    else (record r { ready = ready }, [])

-- `OnReady`
unfoldable pub on_ready : ReadinessTracker → ℕ → ReadinessTracker × List ℕ
on_ready r callback =
    if r.closed
    then (r, callback ∷ [])
    else (record r { callbacks = r.callbacks ++ (callback ∷ []) }, [])

-- `IsReady`
unfoldable pub is_ready : ReadinessTracker → Bool
is_ready r = r.closed

-- ===== src/Fanout/Clients/Capacity.antt =====
-- The registry keeps to its limit, and reports what was last set.
use laredo.Common.{
  ℕ, suc, ◌≤◌, ◌<◌, ◌≡◌, refl, String, some, List, [], ◌∷◌, arith, length, Assoc, get, put,
  length-delete, comparable_string, Option-cases, inl, inr,
}
use laredo.Fanout.Clients.{
  ClientState, ClientRegistry, new_client_registry, register, unregister, update_sequence,
  set_state, set_buffer_depth, count, disconnect_all, modify, new_client,
}

length-put :
    (m : Assoc String ClientState) (k : String) (v : ClientState)
    → length (put m k v) ≤ suc (length m)
length-put [] k v = omega arith
length-put ((j, w) ∷ m) k v = ground (arith, length-put m k v)

length-put_present :
    (m : Assoc String ClientState) (k : String) (v w : ClientState)
    → get m k ≡ some w
    → length (put m k v) ≡ length m
length-put_present [] k v w h = absurd (ground (arith, h))
length-put_present ((j, x) ∷ m) k v w h = ground (arith, length-put_present m k v w, h)

-- A call of the registry; a registration comes with the time at which it is made.
pub data Call : Type 0 where
  registers : ℕ → String → Call
  unregisters : String → Call
  moves_to : String → ℕ → Call
  sets_state : String → String → Call
  sets_depth : String → ℕ → Call
  disconnects : Call

unfoldable pub step : ClientRegistry → Call → ClientRegistry
step r (registers now client_id) = (register r now client_id).0
step r (unregisters client_id) = unregister r client_id
step r (moves_to client_id seq) = update_sequence r client_id seq
step r (sets_state client_id state) = set_state r client_id state
step r (sets_depth client_id depth) = set_buffer_depth r client_id depth
step r disconnects = disconnect_all r

unfoldable pub run : ClientRegistry → List Call → ClientRegistry
run r [] = r
run r (c ∷ cs) = run (step r c) cs

abbrev Within : ℕ → ClientRegistry → Type 0
Within limit r = (r.max_clients ≡ limit) × (length r.clients ≤ limit)

modify-Within :
    (limit : ℕ) (r : ClientRegistry) (client_id : String) (change : ClientState → ClientState)
    → Within limit r
    → Within limit (modify r client_id change)
modify-Within limit r client_id change (m, l) = elim (Option-cases (get r.clients client_id)) [
  | inl n ↦ rw (n, modify) (m, l)
  | inr (cs, e) ↦
      rw (e, modify) (m, omega (arith, l, length-put_present r.clients client_id (change cs) cs e))
]

unregister-Within :
    (limit : ℕ) (r : ClientRegistry) (client_id : String)
    → Within limit r
    → Within limit (unregister r client_id)
unfolding unregister
unregister-Within limit r client_id (m, l) = elim (Option-cases (get r.clients client_id)) [
  | inl n ↦ rw (n, unregister) (m, l)
  | inr (cs, e) ↦ rw (e, unregister) (m, omega (arith, l, length-delete r.clients client_id))
]

step-Within :
    (limit : ℕ) (r : ClientRegistry) (c : Call)
    → 0 < limit
    → Within limit r
    → Within limit (step r c)
unfolding step register update_sequence set_state set_buffer_depth disconnect_all
step-Within limit r (registers now client_id) p (m, l) =
    ground (arith, length-put r.clients client_id (new_client r now client_id))
step-Within limit r (unregisters client_id) p w = unregister-Within limit r client_id w
step-Within limit r (moves_to client_id seq) p w =
    modify-Within limit r client_id (λ cs. record cs { current_sequence = seq }) w
step-Within limit r (sets_state client_id state) p w =
    modify-Within limit r client_id (λ cs. record cs { state = state }) w
step-Within limit r (sets_depth client_id depth) p w =
    modify-Within limit r client_id (λ cs. record cs { buffer_depth = depth }) w
step-Within limit r disconnects p (m, l) = (m, omega arith)

run-Within :
    (limit : ℕ) (r : ClientRegistry) (cs : List Call)
    → 0 < limit
    → Within limit r
    → Within limit (run r cs)
unfolding run
run-Within limit r [] p w = w
run-Within limit r (c ∷ cs) p w = run-Within limit (step r c) cs p (step-Within limit r c p w)

-- A registry with a limit above zero holds at most that many clients, after any calls.
pub count-run :
    (limit : ℕ) (cs : List Call) → 0 < limit → count (run (new_client_registry limit) cs) ≤ limit
unfolding count new_client_registry
count-run limit cs p = (run-Within limit (new_client_registry limit) cs p (refl, omega arith)).1

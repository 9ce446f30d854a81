-- ===== src/DeadLetter/History.antt =====
-- What the store holds is what was written since the last purge.
use laredo.Common.{
  String, ◌≡◌, refl, ap, ◌∙◌, List, [], ◌∷◌, ◌++◌, arith, if◌then◌else◌, length, get-put, Bool,
  true, false, subst, Bool-cases, inl, inr, get-delete, ◌==◌, comparable_string,
}
use laredo.Types.{ChangeAction, insert, update, remove, truncate}
use laredo.DeadLetter.{
  ChangeEvent, Entry, MemoryStore, Handlers, new_memory_store, entries_of, write, read, purge,
  replay, replay_each, replay_change, count,
}

pub data Call (P : Type 0) : Type 0 where
  writes : String → ChangeEvent P → String → Call P
  purges : String → Call P

module _ {P : Type 0} where
  unfoldable pub run : MemoryStore P → List (Call P) → MemoryStore P
  run s [] = s
  run s (writes pipeline change err ∷ cs) = run (write s pipeline change err) cs
  run s (purges pipeline ∷ cs) = run (purge s pipeline) cs

  -- The entries of a pipeline after the calls, when `held` are its entries before them.
  unfoldable pub since_purge : String → List (Entry P) → List (Call P) → List (Entry P)
  since_purge p held [] = held
  since_purge p held (writes pipeline change err ∷ cs) =
      since_purge p
        (if pipeline == p
          then held ++ (record { pipeline_id = pipeline; change = change; error = err } ∷ [])
          else held)
        cs
  since_purge p held (purges pipeline ∷ cs) = since_purge p (if pipeline == p then [] else held) cs

  entries_of-write :
      (s : MemoryStore P) (p pipeline : String) (change : ChangeEvent P) (err : String)
      → entries_of (write s pipeline change err) p ≡ (
          if pipeline == p
          then entries_of s p
            ++ (record { pipeline_id = pipeline; change = change; error = err } ∷ [])
          else entries_of s p)
  unfolding write
  entries_of-write s p pipeline change err =
      rw (entries_of, write, get-put s pipeline p)
        (ground (arith, comparable_string.same_iff pipeline p))

  entries_of-purge :
      (s : MemoryStore P) (p pipeline : String)
      → entries_of (purge s pipeline) p ≡ (if pipeline == p then [] else entries_of s p)
  unfolding purge
  entries_of-purge s p pipeline = rw (entries_of, purge, get-delete s pipeline p) (ground arith)

  entries_of-run :
      (s : MemoryStore P) (p : String) (cs : List (Call P))
      → entries_of (run s cs) p ≡ since_purge p (entries_of s p) cs
  unfolding run since_purge
  entries_of-run s p [] = refl
  entries_of-run s p (writes pipeline change err ∷ cs) =
      entries_of-run (write s pipeline change err) p cs
      ∙ ap (λ held. since_purge p held cs) (entries_of-write s p pipeline change err)
  entries_of-run s p (purges pipeline ∷ cs) =
      entries_of-run (purge s pipeline) p cs
      ∙ ap (λ held. since_purge p held cs) (entries_of-purge s p pipeline)

  -- One event handed to a target: the handler of its action, on the event's table and rows.
  pub data Handed {T : Type 0} (h : Handlers T) (target : T) (c : ChangeEvent P)
      : T × Bool → Type 0 where
    inserts : c.action ≡ insert → Handed h target c (h.on_insert target c.table c.new_values)
    updates :
        c.action ≡ update → Handed h target c (h.on_update target c.table c.new_values c.old_values)
    deletes : c.action ≡ remove → Handed h target c (h.on_delete target c.table c.old_values)
    truncates : c.action ≡ truncate → Handed h target c (h.on_truncate target c.table)

  -- Entries handed to a target in order, up to the first whose handler fails, and whether none fails.
  pub data Replayed {T : Type 0} (h : Handlers T) : T → List (Entry P) → T × Bool → Type 0 where
    finishes : {target : T} → Replayed h target [] (target, true)
    goes_on :
        {target target' : T} {e : Entry P} {es : List (Entry P)} {result : T × Bool}
        → Handed h target e.change (target', true)
        → Replayed h target' es result
        → Replayed h target (e ∷ es) result
    fails :
        {target target' : T} {e : Entry P} {es : List (Entry P)}
        → Handed h target e.change (target', false)
        → Replayed h target (e ∷ es) (target', false)

  replay_change-Handed :
      {T : Type 0} (h : Handlers T) (target : T) (c : ChangeEvent P)
      → Handed h target c (replay_change h target c)
  unfolding replay_change
  replay_change-Handed h target c = go c.action refl
    where
      go : (a : ChangeAction) → c.action ≡ a → Handed h target c (replay_change h target c)
      go insert e =
          let same : h.on_insert target c.table c.new_values ≡ replay_change h target c =
            rw (replay_change, e) refl in
          subst (Handed h target c) same (inserts e)
      go update e =
          let same : h.on_update target c.table c.new_values c.old_values
              ≡ replay_change h target c =
            rw (replay_change, e) refl in
          subst (Handed h target c) same (updates e)
      go remove e =
          let same : h.on_delete target c.table c.old_values ≡ replay_change h target c =
            rw (replay_change, e) refl in
          subst (Handed h target c) same (deletes e)
      go truncate e =
          let same : h.on_truncate target c.table ≡ replay_change h target c =
            rw (replay_change, e) refl in
          subst (Handed h target c) same (truncates e)

  replay_each-Replayed :
      {T : Type 0} (h : Handlers T) (target : T) (es : List (Entry P))
      → Replayed h target es (replay_each h target es)
  unfolding replay_each
  replay_each-Replayed h target [] = finishes
  replay_each-Replayed h target (e ∷ es) =
      let handed = replay_change-Handed h target e.change in
      let target' = (replay_change h target e.change).0 in
      elim (Bool-cases (replay_change h target e.change).1) [
        | inl y ↦
            rw (replay_each, y)
              (goes_on (subst (λ ok. Handed h target e.change (target', ok)) y handed)
                (replay_each-Replayed h target' es))
        | inr n ↦
            rw (replay_each, n)
              (fails (subst (λ ok. Handed h target e.change (target', ok)) n handed))
      ]

  pub read-history :
      {T : Type 0} (h : Handlers T) (target : T) (p : String) (cs : List (Call P))
      → let s = run new_memory_store cs in
        let kept = since_purge p [] cs in
        (read s p 0 ≡ kept)
        × (count s p ≡ length kept)
        × Replayed h target kept (replay h s p target)
  unfolding read count replay
  read-history h target p cs =
      let held = entries_of-run new_memory_store p cs in
      (
        held,
        ap length held,
        subst (λ es. Replayed h target es (replay h (run new_memory_store cs) p target)) held
            (replay_each-Replayed h target (entries_of (run new_memory_store cs) p)),
      )

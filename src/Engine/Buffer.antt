-- ===== src/Engine/Buffer.antt =====
-- internal/engine/buffer.go: the bounded change buffer, a Go channel: the items waiting, oldest first,
-- and whether it is closed. Calls do not overlap, but for what the consumer takes during `SendDropOldest`.
pub mod Fifo
use laredo.Common.{
  ℕ, ◌+◌, Bool, true, false, Option, none, some, List, [], ◌∷◌, ◌++◌, if◌then◌else◌, ltb, nat_beq,
  not, ◌&&◌, ◌||◌, length, drop,
}

pub record ChangeBuffer (T : Type 0) : Type 0 where
  pub ch : List T
  pub size : ℕ
  pub closed : Bool

-- What a call does: it returns, it waits for the other side, or it panics.
pub data Outcome (A : Type 0) : Type 0 where
  returns : A → Outcome A
  blocks : Outcome A
  panics : Outcome A

-- `NewChangeBuffer`; a size of zero or less is 1
unfoldable pub new_change_buffer : (T : Type 0) → ℕ → ChangeBuffer T
new_change_buffer T size = record {
  ch = [];
  size = if nat_beq size 0 then 1 else size;
  closed = false;
}

module _ {T : Type 0} where
  abbrev pub has_room : ChangeBuffer T → Bool
  has_room b = ltb (length b.ch) b.size

  abbrev pub enqueue : ChangeBuffer T → T → ChangeBuffer T
  enqueue b item = record b { ch = b.ch ++ (item ∷ []) }

  -- `Send`: the panic of a closed channel is recovered, and the result is then false
  unfoldable pub send : ChangeBuffer T → T → Outcome (ChangeBuffer T × Bool)
  send b item =
      if b.closed
      then returns (b, false)
      else if has_room b
      then returns (enqueue b item, true)
      else blocks

  -- `SendCtx`, with whether the context is done; where there is room too, the runtime takes either
  -- case of the select, the send where `first` is true. The panic of a closed channel is recovered.
  unfoldable pub send_ctx : ChangeBuffer T → Bool → Bool → T → Outcome (ChangeBuffer T × Bool)
  send_ctx b done first item =
      if b.closed
      then returns (b, false)
      else if has_room b && (not done || first)
      then returns (enqueue b item, true)
      else if done
      then returns (b, false)
      else blocks

  -- `TrySend`: nothing recovers the panic of a closed channel
  unfoldable pub try_send : ChangeBuffer T → T → Outcome (ChangeBuffer T × Bool)
  try_send b item =
      if b.closed
      then panics
      else if has_room b
      then returns (enqueue b item, true)
      else returns (b, false)

  -- `SendDropOldest`, with the item that was dropped. Between its finding that the buffer is full and
  -- its receive the consumer may take items, as many as `drained` says; where it takes all, the receive
  -- waits for an item.
  unfoldable pub send_drop_oldest : ChangeBuffer T → ℕ → T → Outcome (ChangeBuffer T × Option T)
  send_drop_oldest b drained item =
      if b.closed
      then panics
      else if has_room b
      then returns (enqueue b item, none)
      else elim (drop drained b.ch) [
        | [] ↦ blocks
        | oldest ∷ rest ↦ returns (record b { ch = rest ++ (item ∷ []) }, some oldest)
      ]

  -- a receive from the channel of `Receive`; nil after the last item of a closed channel
  unfoldable pub receive : ChangeBuffer T → Outcome (ChangeBuffer T × Option T)
  receive b = elim b.ch [
    | [] ↦ if b.closed then returns (b, none) else blocks
    | item ∷ rest ↦ returns (record b { ch = rest }, some item)
  ]

  -- `Close`: closing twice panics
  unfoldable pub close : ChangeBuffer T → Outcome (ChangeBuffer T)
  close b = if b.closed then panics else returns (record b { closed = true })

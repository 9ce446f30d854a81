-- ===== src/Engine/Ack.antt =====
-- internal/engine/ack.go: the ACK tracker. What is confirmed is a position of any type `P`, or nil,
-- which is `none`; a comparator takes either. The lock makes each method one step.
pub mod Minimum
pub mod Nil
pub mod Advance
pub mod Positions
use Prim.Native.Nat.{Ordering}
use laredo.Common.{
  ℕ, String, Bool, true, false, not, ◌&&◌, ◌||◌, Option, none, some, List, [], ◌∷◌, if◌then◌else◌,
  Assoc, get, put, ◌==◌, comparable_string,
}

abbrev pub Compare : Type 0 → Type 0
Compare P = Option P → Option P → Ordering

pub record AckTracker (P : Type 0) : Type 0 where
  pub pipeline_source : Assoc String String
  pub positions : Assoc String (Option P)
  pub last_acked : Assoc String P
  pub comparators : Assoc String (Compare P)
  pub skipped : Assoc String Bool

-- `NewAckTracker`
unfoldable pub new_ack_tracker : (P : Type 0) → AckTracker P
new_ack_tracker P = record {
  pipeline_source = [];
  positions = [];
  last_acked = [];
  comparators = [];
  skipped = [];
}

module _ {P : Type 0} where
  -- `RegisterPipeline`
  unfoldable pub register_pipeline : AckTracker P → String → String → Compare P → AckTracker P
  register_pipeline a pipeline source compare = record a {
    pipeline_source = put a.pipeline_source pipeline source;
    comparators = put a.comparators source compare;
  }

  -- `Confirm`
  unfoldable pub confirm : AckTracker P → String → Option P → AckTracker P
  confirm a pipeline position = record a { positions = put a.positions pipeline position }

  -- whether `ConfirmAll` moves a pipeline that stands at the given position
  unfoldable pub moves : Option (Compare P) → Option P → Option (Option P) → Bool
  moves compare position none = true
  moves none position (some cur) = true
  moves (some compare) position (some cur) = elim (compare position cur) [
    | Ordering.gt ↦ true
    | _ ↦ false
  ]

  -- the loop of `ConfirmAll`
  unfoldable pub confirm_each :
      Option (Compare P)
      → String
      → Option P
      → Assoc String String
      → Assoc String (Option P)
      → Assoc String (Option P)
  unfolding moves
  confirm_each compare source position [] positions = positions
  confirm_each compare source position ((pipeline, s) ∷ rest) positions =
      confirm_each compare source position rest (
        if (s == source) && moves compare position (get positions pipeline)
        then put positions pipeline position
        else positions)

  -- `ConfirmAll`
  unfoldable pub confirm_all : AckTracker P → String → Option P → AckTracker P
  unfolding confirm_each
  confirm_all a source position = record a {
    positions =
        confirm_each (get a.comparators source) source position a.pipeline_source a.positions;
  }

  -- `Skip`
  unfoldable pub skip : AckTracker P → String → AckTracker P
  skip a pipeline = record a { skipped = put a.skipped pipeline true }

  -- a missing key of a map to bool reads as false
  abbrev pub is_skipped : AckTracker P → String → Bool
  is_skipped a pipeline = elim (get a.skipped pipeline) [ none ↦ false | some b ↦ b ]

  -- the lower of a confirmed position and the minimum so far, which is unset where it is nil
  unfoldable pub lower : Compare P → Option P → Option P → Option P
  lower compare pos none = pos
  lower compare pos (some low) = elim (compare pos (some low)) [ Ordering.lt ↦ pos | _ ↦ some low ]

  -- the loop of `AckPosition`; the outer `none` is its early return
  unfoldable pub min_position :
      AckTracker P → Compare P → String → Assoc String String → Option P → Option (Option P)
  unfolding lower
  min_position a compare source [] low = some low
  min_position a compare source ((pipeline, s) ∷ rest) low =
      if not (s == source) || is_skipped a pipeline
      then min_position a compare source rest low
      else elim (get a.positions pipeline) [
        | none ↦ none
        | some pos ↦ min_position a compare source rest (lower compare pos low)
      ]

  -- whether a minimum goes beyond what was last acknowledged
  unfoldable pub advances : Compare P → P → Option P → Bool
  advances compare low none = true
  advances compare low (some last) = elim (compare (some low) (some last)) [
    | Ordering.gt ↦ true
    | _ ↦ false
  ]

  acknowledge : AckTracker P → Compare P → String → P → AckTracker P × Option P × Bool
  unfolding advances
  acknowledge a compare source low =
      if advances compare low (get a.last_acked source)
      then (record a { last_acked = put a.last_acked source low }, some low, true)
      else (a, some low, false)

  ack_with : AckTracker P → String → Option (Compare P) → AckTracker P × Option P × Bool
  unfolding min_position acknowledge
  ack_with a source none = (a, none, false)
  ack_with a source (some compare) = elim (min_position a compare source a.pipeline_source none) [
    | some (some low) ↦ acknowledge a compare source low
    | _ ↦ (a, none, false)
  ]

  -- `AckPosition`: the tracker after, the position and whether it advanced
  unfoldable pub ack_position : AckTracker P → String → AckTracker P × Option P × Bool
  unfolding ack_with
  ack_position a source = ack_with a source (get a.comparators source)

  -- `LastAcked`
  unfoldable pub last_acked : AckTracker P → String → Option P
  last_acked a source = get a.last_acked source

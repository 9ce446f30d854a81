-- ===== src/Pg/Source.antt =====
-- source/pg/pg.go: the slot that a source starts from, the position of a baseline, and the loop that
-- reconnects. Queries and connections are arguments: what they return. An LSN of 0 is the zero value.
use laredo.Common.{
  ℕ, suc, ◌+◌, ◌≤◌, ◌<◌, ◌≢◌, String, Bool, true, false, ◌||◌, not, Option, none, some, List, [],
  ◌∷◌, arith, if◌then◌else◌, length, nat_beq, leb, ◌==◌, comparable_string,
}

-- `SlotMode`
pub data SlotMode : Type 0 where
  slot_ephemeral slot_stateful : SlotMode

-- the fields of `Source` and of its configuration that decide where it starts
pub record Source : Type 0 where
  pub slot_mode : SlotMode
  pub always_baseline : Bool
  pub max_attempts : ℕ
  pub slot_lsn : ℕ
  pub slot_snapshot : String
  pub slot_existed : Bool

-- What the queries on an existing slot return: none where there is no such slot, and else its
-- confirmed LSN, where there is one that can be parsed.
abbrev pub Slot : Type 0
Slot = Option (Option ℕ)

-- the slot that `Init` makes: its LSN and the name of its snapshot, where that succeeds
unfoldable pub create_slot : Source → Option (ℕ × String) → Source × Bool
create_slot s none = (s, false)
create_slot s (some (lsn, snapshot)) = (record s { slot_lsn = lsn; slot_snapshot = snapshot }, true)

unfoldable pub reuse_slot : Source → Option ℕ → Source
reuse_slot s none = record s { slot_existed = true }
reuse_slot s (some lsn) = record s { slot_existed = true; slot_lsn = lsn }

-- the end of `Init`: the slot, and whether it succeeded
unfoldable pub init_slot : Source → Slot → Option (ℕ × String) → Source × Bool
unfolding create_slot reuse_slot
init_slot s found created = elim s.slot_mode [
  | slot_ephemeral ↦ create_slot s created
  | slot_stateful ↦ elim found [
    | none ↦ create_slot s created
    | some confirmed ↦ (reuse_slot s confirmed, true)
  ]
]

-- `Baseline`, by the position of the copy, where it succeeds
unfoldable pub baseline : Source → Option ℕ → Source × Option ℕ
baseline s copied = (
  record s { slot_snapshot = "" },
  elim copied [
    | none ↦ none
    | some lsn ↦ if s.slot_snapshot == "" then some lsn else some s.slot_lsn
  ],
)

-- `LastAckedPosition`
unfoldable pub last_acked_position : Source → Option ℕ
last_acked_position s =
    if s.always_baseline || not s.slot_existed || nat_beq s.slot_lsn 0
    then none
    else some s.slot_lsn

-- `SupportsResume`
unfoldable pub supports_resume : Source → Bool
supports_resume s = elim s.slot_mode [ slot_ephemeral ↦ false | slot_stateful ↦ true ]

-- `ResetSource`, whether or not there is a connection, by whether dropping the slot succeeds
unfoldable pub reset_source : Source → Bool → Bool → Source × Bool
reset_source s connected dropped =
    if not connected || dropped
    then (record s { slot_existed = false; slot_lsn = 0 }, true)
    else (s, false)

-- One round of the loop of `Stream`: whether the context is done and whether the stream ended without
-- an error after `startStreaming`, and whether the context is done in the wait before the next.
pub record Round : Type 0 where
  pub cancelled : Bool
  pub clean : Bool
  pub cancelled_in_wait : Bool

-- How `Stream` ends.
pub data Ended : Type 0 where
  ended_cancelled : Ended
  ended_clean : Ended
  re_baseline_required : Ended
  exhausted : Ended

unfoldable pub attempt_limit : Source → ℕ
attempt_limit s = if nat_beq s.max_attempts 0 then 10 else s.max_attempts

-- the loop of `Stream`, a failed connection being a round whose stream fails; none where it has not
-- ended after these rounds
unfoldable pub stream : Source → ℕ → List Round → Option Ended
unfolding attempt_limit
stream s attempt [] = none
stream s attempt (r ∷ rounds) =
    let later = stream s (suc attempt) rounds in
    if r.cancelled
    then some ended_cancelled
    else if r.clean
    then some ended_clean
    else elim s.slot_mode [
      | slot_ephemeral ↦ some re_baseline_required
      | slot_stateful ↦
          if leb (attempt_limit s) attempt
          then some exhausted
          else if r.cancelled_in_wait
          then some ended_cancelled
          else later
    ]

stream-ends_from :
    (s : Source) (attempt : ℕ) (rounds : List Round)
    → attempt ≤ attempt_limit s
    → attempt_limit s < attempt + length rounds
    → stream s attempt rounds ≢ none
unfolding stream
stream-ends_from s attempt [] within enough = absurd (omega arith)
stream-ends_from s attempt (r ∷ rounds) within enough =
    let later = stream-ends_from s (suc attempt) rounds in ground (arith, later)

-- From its first attempt, the loop has ended after one round more than its limit of attempts,
-- whatever the rounds are.
pub stream-ends :
    (s : Source) (rounds : List Round) → attempt_limit s < length rounds → stream s 0 rounds ≢ none
stream-ends s rounds enough = stream-ends_from s 0 rounds (omega arith) (omega arith)

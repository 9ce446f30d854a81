-- ===== src/Lsn.antt =====
-- source/pg/lsn.go and internal/lsn/lsn.go: the text of an LSN, its parsers and its order. A text is of
-- any type, behind what the code takes from packages strings, strconv and fmt. The number that a
-- comparison returns is read by its sign, as its callers do.
pub mod Text
pub mod Order
mod Tests
use Prim.Native.Nat.{Ordering, compare}
use laredo.Common.{
  ℕ, ◌+◌, ◌*◌, ◌/◌, ◌%◌, ◌^◌, Bool, true, false, ◌||◌, Option, none, some, if◌then◌else◌,
}

-- `strings.Cut` at the slash, the test for "", `strconv.ParseUint` with base 16 and 32 bits, and
-- `fmt.Sprintf` with "%X/%08X".
pub record Texts (S : Type 0) : Type 0 where
  pub cut : S → Option (S × S)
  pub is_empty : S → Bool
  pub parse_uint : S → Option ℕ
  pub sprintf : ℕ → ℕ → S

-- `high<<32 | low` in 64 bits; both are below 2 ^ 32, so no bit is set in both
unfoldable pub join_halves : ℕ → ℕ → ℕ
join_halves high low = (high * 2 ^ 32) % 2 ^ 64 + low

-- the order of parsed positions; what does not parse comes first
unfoldable pub compare_parsed : Option ℕ → Option ℕ → Ordering
compare_parsed none none = Ordering.eq
compare_parsed none (some b) = Ordering.lt
compare_parsed (some a) none = Ordering.gt
compare_parsed (some a) (some b) = compare a b

module _ {S : Type 0} (t : Texts S) where
  unfoldable pub parse_halves : S → S → Option ℕ
  unfolding join_halves
  parse_halves hi lo = if t.is_empty hi || t.is_empty lo then none else elim (t.parse_uint hi) [
    | none ↦ none
    | some high ↦ elim (t.parse_uint lo) [ none ↦ none | some low ↦ some (join_halves high low) ]
  ]

  -- `ParseLSN` of the source, where none is its error, and `Parse` of the internal package
  unfoldable pub parse_lsn : S → Option ℕ
  unfolding parse_halves
  parse_lsn s = elim (t.cut s) [ none ↦ none | some (hi, lo) ↦ parse_halves hi lo ]

  -- `LSN.String`
  unfoldable pub lsn_string : ℕ → S
  lsn_string l = t.sprintf ((l / 2 ^ 32) % 2 ^ 32) (l % 2 ^ 32)

  -- `Compare` of the internal package
  unfoldable pub compare_texts : S → S → Ordering
  unfolding parse_lsn compare_parsed
  compare_texts a b = compare_parsed (parse_lsn a) (parse_lsn b)

-- `CompareLSN` of the source; none is a value of another type
unfoldable pub compare_lsn : Option ℕ → Option ℕ → Ordering
compare_lsn none b = Ordering.eq
compare_lsn (some a) none = Ordering.eq
compare_lsn (some a) (some b) = compare a b

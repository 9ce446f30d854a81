-- ===== src/Lsn/Text.antt =====
-- The text of an LSN and its parser.
use laredo.Common.{ℕ, ◌/◌, ◌%◌, ◌^◌, ◌<◌, false, ◌≡◌, ap, some, arith}
use laredo.Lsn.{Texts, join_halves, parse_halves, parse_lsn, lsn_string}

-- What packages fmt, strings and strconv document: the format puts a slash between two groups of hex
-- digits, the cut takes these, and each reads back as its number.
pub record Documented {S : Type 0} (t : Texts S) : Type 0 where
  pub hex : ℕ → S
  pub hex8 : ℕ → S
  pub cut-sprintf : (hi lo : ℕ) → t.cut (t.sprintf hi lo) ≡ some (hex hi, hex8 lo)
  pub hex_filled : (n : ℕ) → t.is_empty (hex n) ≡ false
  pub hex8_filled : (n : ℕ) → t.is_empty (hex8 n) ≡ false
  pub parse_uint-hex : (n : ℕ) → n < 2 ^ 32 → t.parse_uint (hex n) ≡ some n
  pub parse_uint-hex8 : (n : ℕ) → n < 2 ^ 32 → t.parse_uint (hex8 n) ≡ some n

module _ {S : Type 0} (t : Texts S) (d : Documented t) where
  join_halves-split : (l : ℕ) → l < 2 ^ 64 → join_halves ((l / 2 ^ 32) % 2 ^ 32) (l % 2 ^ 32) ≡ l
  unfolding join_halves
  join_halves-split l h = omega arith

  -- An LSN of 64 bits reads back from its text.
  pub parse_lsn-lsn_string : (l : ℕ) → l < 2 ^ 64 → parse_lsn t (lsn_string t l) ≡ some l
  unfolding lsn_string parse_lsn
  parse_lsn-lsn_string l h =
      let hi = (l / 2 ^ 32) % 2 ^ 32 in
      let lo = l % 2 ^ 32 in
      rw
        (
          parse_lsn,
          d.cut-sprintf hi lo,
          parse_halves,
          d.hex_filled hi,
          d.hex8_filled lo,
          d.parse_uint-hex hi (omega arith),
          d.parse_uint-hex8 lo (omega arith),
        )
        (ap some (join_halves-split l h))

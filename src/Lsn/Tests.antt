-- ===== src/Lsn/Tests.antt =====
-- The theorems on LSNs at a concrete kind of texts.
use Prim.Native.Nat.{Ordering}
use laredo.Common.{
  ℕ, ◌<◌, true, false, ◌≡◌, refl, none, some, if◌then◌else◌, ltb, lt→ltb, arith, ◌^◌,
}
use laredo.Lsn.{Texts, parse_lsn, lsn_string, compare_texts, compare_lsn}
use laredo.Lsn.Text.{Documented, parse_lsn-lsn_string}
use laredo.Lsn.Order.{by_lsn, compare_texts-lsn_string}

-- texts by what they are made of
data Written : Type 0 where
  halves : ℕ → ℕ → Written
  digits : ℕ → Written
  empty : Written

abbrev texts : Texts Written
texts = record {
  cut = λ s. elim s [ halves hi lo ↦ some (digits hi, digits lo) | _ ↦ none ];
  is_empty = λ s. elim s [ empty ↦ true | _ ↦ false ];
  parse_uint = λ s. elim s [ digits n ↦ if ltb n 0x100000000 then some n else none | _ ↦ none ];
  sprintf = halves;
}

digits_parse : (n : ℕ) → n < 2 ^ 32 → texts.parse_uint (digits n) ≡ some n
digits_parse n h = rw (lt→ltb n 0x100000000 h) refl

abbrev written : Documented texts
written = record {
  hex = digits;
  hex8 = digits;
  cut-sprintf = λ hi lo. refl;
  hex_filled = λ n. refl;
  hex8_filled = λ n. refl;
  parse_uint-hex = digits_parse;
  parse_uint-hex8 = digits_parse;
}

-- 16/B374D848
parse_lsn-lsn_string_example : parse_lsn texts (lsn_string texts 0x16B374D848) ≡ some 0x16B374D848
parse_lsn-lsn_string_example = parse_lsn-lsn_string texts written 0x16B374D848 (omega arith)

-- 16/B374D848 and 2/0, which the order of the letters would put the other way
compare_texts-lsn_string_example :
    (compare_texts texts (lsn_string texts 0x16B374D848) (lsn_string texts 0x200000000)
      ≡ compare_lsn (some 0x16B374D848) (some 0x200000000))
    × ((by_lsn texts).cmp
          (some (lsn_string texts 0x16B374D848))
          (some (lsn_string texts 0x200000000))
        ≡ compare_lsn (some 0x16B374D848) (some 0x200000000))
compare_texts-lsn_string_example =
    compare_texts-lsn_string texts written 0x16B374D848 0x200000000 (omega arith) (omega arith)

-- What does not parse comes first.
unparsed_first : compare_texts texts empty (lsn_string texts 0) ≡ Ordering.lt
unfolding compare_texts lsn_string
unparsed_first = refl

-- ===== src/Lsn/Order.antt =====
-- The order of the texts of positions, and the order of LSNs.
use Prim.Native.Nat.{Ordering}
use laredo.Common.{ℕ, ◌^◌, ◌<◌, ◌≡◌, ◌≢◌, refl, Option, none, some, arith}
use laredo.Engine.Ack.Minimum.{Comparator}
use laredo.Lsn.{Texts, parse_lsn, lsn_string, compare_parsed, compare_texts, compare_lsn}
use laredo.Lsn.Text.{Documented, parse_lsn-lsn_string}

pub parsed_flip :
    (a b : Option ℕ) → compare_parsed a b ≢ Ordering.lt → compare_parsed b a ≢ Ordering.gt
unfolding compare_parsed
parsed_flip none none h = ground arith
parsed_flip none (some b) h = ground arith
parsed_flip (some a) none h = ground arith
parsed_flip (some a) (some b) h = ground arith

pub parsed_trans :
    (a b c : Option ℕ)
    → compare_parsed a b ≢ Ordering.gt
    → compare_parsed b c ≢ Ordering.gt
    → compare_parsed a c ≢ Ordering.gt
unfolding compare_parsed
parsed_trans none none c h k = k
parsed_trans none (some b) none h k = ground arith
parsed_trans none (some b) (some c) h k = ground arith
parsed_trans (some a) none c h k = absurd (h refl)
parsed_trans (some a) (some b) none h k = k
parsed_trans (some a) (some b) (some c) h k = ground arith

module _ {S : Type 0} (t : Texts S) where
  abbrev parsed : Option S → Option ℕ
  parsed none = none
  parsed (some a) = parse_lsn t a

  -- What the ACK tracker and the journal rely on of a comparator holds of the comparison of texts,
  -- also of those that do not parse. Nil stands where those do.
  abbrev pub by_lsn : Comparator S
  by_lsn = record {
    cmp = λ a b. compare_parsed (parsed a) (parsed b);
    flip = λ a b h. parsed_flip (parse_lsn t a) (parse_lsn t b) h;
    trans = λ a b c h k. parsed_trans (parse_lsn t a) (parse_lsn t b) (parse_lsn t c) h k;
  }

  -- The comparison of two texts orders the texts of two LSNs of 64 bits as the source compares the
  -- LSNs themselves, and it is the comparator that the tracker's theorems take.
  pub compare_texts-lsn_string :
      (d : Documented t) (a b : ℕ)
      → a < 2 ^ 64
      → b < 2 ^ 64
      → (compare_texts t (lsn_string t a) (lsn_string t b) ≡ compare_lsn (some a) (some b))
        × (by_lsn.cmp (some (lsn_string t a)) (some (lsn_string t b))
            ≡ compare_lsn (some a) (some b))
  unfolding compare_texts compare_lsn compare_parsed
  compare_texts-lsn_string d a b h k =
      rw (parse_lsn-lsn_string t d a h, parse_lsn-lsn_string t d b k) (refl, refl)

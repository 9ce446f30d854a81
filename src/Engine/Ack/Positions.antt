-- ===== src/Engine/Ack/Positions.antt =====
-- Acknowledging changes only what was acknowledged last.
use laredo.Common.{
  String, ◌≡◌, refl, Option, none, some, Bool-cases, inl, inr, get, comparable_string,
}
use laredo.Engine.Ack.{
  Compare, AckTracker, min_position, acknowledge, ack_with, ack_position, advances,
}

module _ {P : Type 0} where
  -- Everything but the last acknowledged positions is the same.
  pub record SameBut (a b : AckTracker P) : Type 0 where
    pub pipeline_source : b.pipeline_source ≡ a.pipeline_source
    pub positions : b.positions ≡ a.positions
    pub comparators : b.comparators ≡ a.comparators
    pub skipped : b.skipped ≡ a.skipped

  SameBut-refl : (a : AckTracker P) → SameBut a a
  SameBut-refl a = record {
    pipeline_source = refl;
    positions = refl;
    comparators = refl;
    skipped = refl;
  }

  acknowledge-SameBut :
      (a : AckTracker P) (compare : Compare P) (source : String) (low : P)
      → SameBut a (acknowledge a compare source low).0
  unfolding acknowledge
  acknowledge-SameBut a compare source low =
      elim (Bool-cases (advances compare low (get a.last_acked source))) [
        | inl y ↦ rw y (record {
          pipeline_source = refl;
          positions = refl;
          comparators = refl;
          skipped = refl;
        })
        | inr n ↦ rw n (SameBut-refl a)
      ]

  ack_with-SameBut :
      (a : AckTracker P) (source : String) (o : Option (Compare P))
      → SameBut a (ack_with a source o).0
  unfolding ack_with
  ack_with-SameBut a source none = SameBut-refl a
  ack_with-SameBut a source (some compare) =
      go (min_position a compare source a.pipeline_source none) refl
    where
      go :
          (m : Option (Option P))
          → min_position a compare source a.pipeline_source none ≡ m
          → SameBut a (ack_with a source (some compare)).0
      go none e = rw (ack_with, e) (SameBut-refl a)
      go (some none) e = rw (ack_with, e) (SameBut-refl a)
      go (some (some low)) e = rw (ack_with, e) (acknowledge-SameBut a compare source low)

  pub ack_position-SameBut :
      (a : AckTracker P) (source : String) → SameBut a (ack_position a source).0
  unfolding ack_position
  ack_position-SameBut a source = ack_with-SameBut a source (get a.comparators source)

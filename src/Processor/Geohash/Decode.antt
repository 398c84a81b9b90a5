-- ===== src/Processor/Geohash/Decode.antt =====
-- What a geohash denotes: the decoder of the geohash scheme, which the repository does not have.
-- It is stated apart from the encoder, to read what Geohash of internal/processor/anonymizer.go
-- writes.
use edge_gw_project.Prelude.{
  ℕ, zero, suc, ◌/◌, ◌%◌, ◌≡◌, ◌⊎◌, Bool, true, false, [], ◌∷◌, ◌==◌, Text, if◌then◌else◌,
}
use edge_gw_project.Processor.Outside.{Floats}
use edge_gw_project.Processor.Feature.{base32}

pub record Range (F : Type 0) : Type 0 where
  pub low : F
  pub high : F

-- A part of the map, and whether the next bit halves its longitudes or its latitudes.
pub record Area (F : Type 0) : Type 0 where
  pub lats : Range F
  pub lons : Range F
  pub by_lon : Bool

-- The place of a character in a text, or its length.
unfoldable pub index_of : Text → ℕ → ℕ
index_of [] c = 0
index_of (d ∷ s) c = if c == d then 0 else suc (index_of s c)

module _ {F : Type 0} (fl : Floats F) where
  -- The upper half for the bit 1, the lower half for 0.
  unfoldable pub halve : Bool → Range F → Range F
  halve true r = record { low = fl.midpoint r.low r.high; high = r.high }
  halve false r = record { low = r.low; high = fl.midpoint r.low r.high }

  unfoldable pub narrow : Bool → Area F → Area F
  narrow b a =
      if a.by_lon
      then record a { lons = halve b a.lons; by_lon = false }
      else record a { lats = halve b a.lats; by_lon = true }

  -- The lowest `k` bits of a number, the highest of them first.
  unfoldable pub narrow_bits : ℕ → ℕ → Area F → Area F
  narrow_bits zero n a = a
  narrow_bits (suc k) n a = narrow (n % 2 == 1) (narrow_bits k (n / 2) a)

  -- Each character stands for five bits.
  unfoldable pub decode : Text → Area F → Area F
  decode [] a = a
  decode (c ∷ z) a = decode z (narrow_bits 5 (index_of base32 c) a)

  abbrev pub world : Area F
  world = record {
    lats = record { low = fl.neg (fl.of_nat 90); high = fl.of_nat 90 };
    lons = record { low = fl.neg (fl.of_nat 180); high = fl.of_nat 180 };
    by_lon = true;
  }

  -- The number is in the range, with its lower bound and without its upper one, unless that is the
  -- end of the map.
  abbrev pub IsWithin : F → F → Range F → Type 0
  IsWithin end x r =
      (fl.le r.low x ≡ true) × ((fl.le r.high x ≡ false) ⊎ ((r.high ≡ end) × (fl.le x end ≡ true)))

  abbrev pub IsIn : F → F → Area F → Type 0
  IsIn lat lon a = IsWithin (fl.of_nat 90) lat a.lats × IsWithin (fl.of_nat 180) lon a.lons

-- ===== src/Processor/Feature.antt =====
-- The features of the amount, the place and the time (MapToTier, Geohash, BucketTimestamp) of
-- internal/processor/anonymizer.go.
use mathlib.Core.Option
use edge_gw_project.Prelude.{ℕ, zero, suc, ◌+◌, ◌-◌, ◌*◌, ◌/◌, ◌^◌, Bool, true, false, ◌||◌, Option}
use edge_gw_project.Prelude.{none, some, [], ◌∷◌, ◌==◌, Text, codes, if◌then◌else◌}
use edge_gw_project.Processor.Outside.{Floats, Toolkit}

abbrev pub tier_boundary_1 : ℕ
tier_boundary_1 = 500

abbrev pub tier_boundary_2 : ℕ
tier_boundary_2 = 2500

abbrev pub tier_boundary_3 : ℕ
tier_boundary_3 = 10000

-- BucketWidth, 15 minutes in nanoseconds
abbrev pub bucket_width : ℕ
bucket_width = 900000000000

abbrev pub geohash_precision : ℕ
geohash_precision = 5

abbrev pub zone_unknown : Text
zone_unknown = codes "ZONE_UNKNOWN"

-- BucketTimestamp. `Truncate` rounds down to a multiple since the zero time.
unfoldable pub bucket_timestamp : Toolkit → Text → Text
bucket_timestamp t ts = elim (t.parse_time ts) [
  | none ↦ codes "TIME_UNKNOWN"
  | some n ↦ t.format_time (n / bucket_width * bucket_width)
]

abbrev pub base32 : Text
base32 = codes "0123456789bcdefghjkmnpqrstuvwxyz"

-- `base32[ch]`
unfoldable pub char_at : Text → ℕ → ℕ
char_at [] n = 0
char_at (c ∷ s) zero = c
char_at (c ∷ s) (suc n) = char_at s n

-- The variables of Geohash's loop.
pub record Cell (F : Type 0) : Type 0 where
  pub min_lat : F
  pub max_lat : F
  pub min_lon : F
  pub max_lon : F
  pub is_even : Bool
  pub bit : ℕ
  pub ch : ℕ

module _ {F : Type 0} (fl : Floats F) where
  -- MapToTier
  unfoldable pub map_to_tier : F → Text
  map_to_tier amount =
      if fl.le amount (fl.of_nat tier_boundary_1)
      then codes "TIER_1"
      else if fl.le amount (fl.of_nat tier_boundary_2)
      then codes "TIER_2"
      else if fl.le amount (fl.of_nat tier_boundary_3)
      then codes "TIER_3"
      else codes "TIER_4"

  -- The condition under which Geohash refuses.
  unfoldable pub is_off_map : F → F → Bool
  is_off_map lat lon =
      fl.is_nan lat
      || fl.is_nan lon
      || fl.lt lat (fl.neg (fl.of_nat 90))
      || fl.lt (fl.of_nat 90) lat
      || fl.lt lon (fl.neg (fl.of_nat 180))
      || fl.lt (fl.of_nat 180) lon

  abbrev pub whole_map : Cell F
  whole_map = record {
    min_lat = fl.neg (fl.of_nat 90);
    max_lat = fl.of_nat 90;
    min_lon = fl.neg (fl.of_nat 180);
    max_lon = fl.of_nat 180;
    is_even = true;
    bit = 0;
    ch = 0;
  }

  -- One bisection. The bit `1 << (4 - bit)` is not yet set in `ch`, so that `|=` adds it.
  unfoldable pub bisect : F → F → Cell F → Cell F
  bisect lat lon g =
      let mid_lon = fl.midpoint g.min_lon g.max_lon in
      let mid_lat = fl.midpoint g.min_lat g.max_lat in
      let set = g.ch + 2 ^ (4 - g.bit) in
      let east = record g { min_lon = mid_lon; ch = set; is_even = false; bit = g.bit + 1 } in
      let west = record g { max_lon = mid_lon; is_even = false; bit = g.bit + 1 } in
      let north = record g { min_lat = mid_lat; ch = set; is_even = true; bit = g.bit + 1 } in
      let south = record g { max_lat = mid_lat; is_even = true; bit = g.bit + 1 } in
      if g.is_even
      then (if fl.le mid_lon lon then east else west)
      else (if fl.le mid_lat lat then north else south)

  -- The loop, with the number of characters that are left to write. Its fuel counts bisections.
  unfoldable pub geohash_loop : ℕ → F → F → ℕ → Cell F → Option Text
  geohash_loop fuel lat lon zero g = some []
  geohash_loop zero lat lon (suc k) g = none
  geohash_loop (suc fuel) lat lon (suc k) g =
      let h = bisect lat lon g in
      elim (h.bit == 5) [
        | true ↦
            Option.map (λ s. char_at base32 h.ch ∷ s)
              (geohash_loop fuel lat lon k (record h { bit = 0; ch = 0 }))
        | false ↦ geohash_loop fuel lat lon (suc k) h
      ]

  -- Geohash, with five bisections for each character.
  unfoldable pub geohash : F → F → ℕ → Option Text
  geohash lat lon precision =
      if is_off_map lat lon || precision == 0
      then some zone_unknown
      else geohash_loop (5 * precision) lat lon precision whole_map

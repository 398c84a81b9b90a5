-- ===== src/Processor/Geohash.antt =====
-- The loop of Geohash: its termination, and the cell that it reaches
-- (internal/processor/anonymizer.go).
pub mod Decode
mod Digits
pub mod Cells
use mathlib.Core.Option
use edge_gw_project.Prelude.{
  ℕ, zero, suc, ◌+◌, ◌*◌, ◌≤◌, ◌<◌, ◌≡◌, refl, ap, ◌↔◌, false, ◌⊎◌, inl, inr, true, ◌||◌,
}
use edge_gw_project.Prelude.{some, [], ◌∷◌, ◌==◌, Text, length, Bool-cases, arith}
use edge_gw_project.Processor.Outside.{Floats}
use edge_gw_project.Processor.Geohash.Digits.{neither, none_of}
use edge_gw_project.Processor.Feature.{
  Cell, bisect, geohash_loop, geohash, is_off_map, whole_map, char_at, base32, zone_unknown,
}

module _ {F : Type 0} (fl : Floats F) (lat lon : F) where
  bisect-bit : (g : Cell F) → (bisect fl lat lon g).bit ≡ g.bit + 1
  unfolding bisect
  bisect-bit g = ground arith

  -- The characters are written, if the fuel counts the bisections that are left.
  geohash_loop-length :
      (fuel k : ℕ) (g : Cell F)
      → g.bit < 5
      → 5 * k ≤ fuel + g.bit
      → (z : Text) × (geohash_loop fl fuel lat lon k g ≡ some z) × (length z ≡ k)
  unfolding geohash_loop
  geohash_loop-length fuel zero g b h = ([], refl, refl)
  geohash_loop-length zero (suc k) g b h = absurd (omega arith)
  geohash_loop-length (suc fuel) (suc k) g b h =
      let next = bisect fl lat lon g in
      let e = bisect-bit g in
      elim (Bool-cases (next.bit == 5)) [
        | inl f ↦
            let (z, q, l) =
              geohash_loop-length fuel k (record next { bit = 0; ch = 0 }) (omega arith)
                (ground arith) in
            rw (f, geohash_loop)
              (
                char_at base32 next.ch ∷ z,
                ap (Option.map (λ s. char_at base32 next.ch ∷ s)) q,
                ap suc l,
              )
        | inr f ↦
            let (z, q, l) = geohash_loop-length fuel (suc k) next (ground arith) (ground arith) in
            rw (f, geohash_loop) (z, q, l)
      ]

-- Coordinates on the map, neither of them NaN, and a precision of at least 1.
abbrev pub HasGeohash : {F : Type 0} → Floats F → F → F → ℕ → Type 0
HasGeohash fl lat lon precision =
    (fl.is_nan lat ≡ false)
    × (fl.is_nan lon ≡ false)
    × (fl.lt lat (fl.neg (fl.of_nat 90)) ≡ false)
    × (fl.lt (fl.of_nat 90) lat ≡ false)
    × (fl.lt lon (fl.neg (fl.of_nat 180)) ≡ false)
    × (fl.lt (fl.of_nat 180) lon ≡ false)
    × (1 ≤ precision)

refuses_iff :
    {F : Type 0} (fl : Floats F) (lat lon : F) (precision : ℕ)
    → ((is_off_map fl lat lon || precision == 0) ≡ false) ↔ HasGeohash fl lat lon precision
unfolding is_off_map
refuses_iff fl lat lon precision = (there, back)
  where
    there : (is_off_map fl lat lon || precision == 0) ≡ false → HasGeohash fl lat lon precision
    there h =
        let (m, p) = neither (is_off_map fl lat lon) (precision == 0) h in
        let (a, b, c, d, e, f) =
          none_of (fl.is_nan lat) (fl.is_nan lon) (fl.lt lat (fl.neg (fl.of_nat 90)))
            (fl.lt (fl.of_nat 90) lat) (fl.lt lon (fl.neg (fl.of_nat 180)))
            (fl.lt (fl.of_nat 180) lon) m in
        (a, b, c, d, e, f, ground (arith, p))

    back : HasGeohash fl lat lon precision → (is_off_map fl lat lon || precision == 0) ≡ false
    back (a, b, c, d, e, f, p) =
        let q : (precision == 0) ≡ false = ground (arith, p) in simp (a, b, c, d, e, f, q) refl

-- Geohash ends within its five bisections for each character: it returns ZONE_UNKNOWN if a
-- coordinate is NaN or off the map or the precision is 0, and exactly `precision` characters else.
pub geohash-length :
    {F : Type 0} (fl : Floats F) (lat lon : F) (precision : ℕ)
    → ((¬ HasGeohash fl lat lon precision) × (geohash fl lat lon precision ≡ some zone_unknown))
      ⊎ (HasGeohash fl lat lon precision
          × ((z : Text) × (geohash fl lat lon precision ≡ some z) × (length z ≡ precision)))
unfolding geohash
geohash-length fl lat lon precision = elim (Bool-cases (is_off_map fl lat lon || precision == 0)) [
  | inl e ↦
      inl (λ h. let no = (refuses_iff fl lat lon precision).1 h in cc (e, no), rw (e, geohash) refl)
  | inr e ↦ inr (
    (refuses_iff fl lat lon precision).0 e,
    rw (e, geohash)
        (geohash_loop-length fl lat lon (5 * precision) precision (whole_map fl) (omega arith)
          (omega arith)),
  )
]

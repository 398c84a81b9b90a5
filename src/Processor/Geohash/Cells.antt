-- ===== src/Processor/Geohash/Cells.antt =====
-- The geohash of a point denotes a cell of the map that the point is in
-- (internal/processor/anonymizer.go).
use mathlib.Core.Option
use mathlib.Core.Path.{subst}
use edge_gw_project.Prelude.{
  ℕ, zero, suc, ◌+◌, ◌-◌, ◌*◌, ◌^◌, ◌≤◌, ◌<◌, ◌≡◌, refl, sym, ap, ◌∙◌, inl, inr, Bool, true, false,
  some, [], ◌∷◌, ◌==◌, ==_iff, Text, length, Bool-cases, arith, if◌then◌else◌,
}
use edge_gw_project.Processor.Outside.{Floats}
use edge_gw_project.Processor.Feature.{
  Cell, bisect, geohash_loop, geohash, is_off_map, whole_map, char_at, base32,
}
use edge_gw_project.Processor.Geohash.Decode.{
  Range, Area, index_of, halve, narrow, narrow_bits, decode, world, IsWithin, IsIn,
}
use edge_gw_project.Processor.Geohash.Digits.{
  none_of, index_of-char_at, digit, in_place, last_bit, other_bits, place, room,
}

module _ {F : Type 0} (fl : Floats F) (lat lon : F) where
  abbrev area : Cell F → Area F
  area g = record {
    lats = record { low = g.min_lat; high = g.max_lat };
    lons = record { low = g.min_lon; high = g.max_lon };
    by_lon = g.is_even;
  }

  -- The half that the point is in.
  abbrev bit_for : Area F → Bool
  bit_for a =
      if a.by_lon
      then fl.le (fl.midpoint a.lons.low a.lons.high) lon
      else fl.le (fl.midpoint a.lats.low a.lats.high) lat

  -- One bisection: the next bit of the point, and the half that it names.
  record IsNext (g h : Cell F) : Type 0 where
    to_half : area h ≡ narrow fl (bit_for (area g)) (area g)
    one_more : h.bit ≡ g.bit + 1
    with_digit : h.ch ≡ g.ch + in_place (bit_for (area g)) (2 ^ (4 - g.bit))

  bisect-IsNext : (g : Cell F) → IsNext g (bisect fl lat lon g)
  unfolding bisect narrow halve
  bisect-IsNext g = go g.is_even refl
    where
      go : (e : Bool) → g.is_even ≡ e → IsNext g (bisect fl lat lon g)
      go true e = elim (Bool-cases (fl.le (fl.midpoint g.min_lon g.max_lon) lon)) [
        | inl m ↦ record {
          to_half = simp (e, m) refl;
          one_more = simp (e, m) refl;
          with_digit = simp (e, m) refl;
        }
        | inr m ↦ record {
          to_half = simp (e, m) refl;
          one_more = simp (e, m) refl;
          with_digit = simp (e, m) (omega arith);
        }
      ]
      go false e = elim (Bool-cases (fl.le (fl.midpoint g.min_lat g.max_lat) lat)) [
        | inl m ↦ record {
          to_half = simp (e, m) refl;
          one_more = simp (e, m) refl;
          with_digit = simp (e, m) refl;
        }
        | inr m ↦ record {
          to_half = simp (e, m) refl;
          one_more = simp (e, m) refl;
          with_digit = simp (e, m) (omega arith);
        }
      ]

  halve-IsWithin :
      (end x : F) (r : Range F)
      → IsWithin fl end x r
      → IsWithin fl end x (halve fl (fl.le (fl.midpoint r.low r.high) x) r)
  unfolding halve
  halve-IsWithin end x r h = elim (Bool-cases (fl.le (fl.midpoint r.low r.high) x)) [
    | inl m ↦ simp m (refl, h.1)
    | inr m ↦ simp m (h.0, inl refl)
  ]

  narrow-IsIn : (a : Area F) → IsIn fl lat lon a → IsIn fl lat lon (narrow fl (bit_for a) a)
  unfolding narrow
  narrow-IsIn a h = go a.by_lon refl
    where
      go : (e : Bool) → a.by_lon ≡ e → IsIn fl lat lon (narrow fl (bit_for a) a)
      go true e = simp e (h.0, halve-IsWithin (fl.of_nat 180) lon a.lons h.1)
      go false e = simp e (halve-IsWithin (fl.of_nat 90) lat a.lats h.0, h.1)

  -- After some bits `v` of the next character, from the area `a` that the ones before it denote.
  record IsAt (a : Area F) (v : ℕ) (g : Cell F) : Type 0 where
    bits : area g ≡ narrow_bits fl g.bit v a
    shifted : g.ch ≡ v * 2 ^ (5 - g.bit)
    bounded : v < 2 ^ g.bit
    inside : IsIn fl lat lon (area g)

  IsAt-start : (g : Cell F) → g.bit ≡ 0 → g.ch ≡ 0 → IsIn fl lat lon (area g) → IsAt (area g) 0 g
  unfolding narrow_bits
  IsAt-start g b c h = record {
    bits = simp b refl;
    shifted = simp (b, c) refl;
    bounded = simp b (omega arith);
    inside = h;
  }

  narrow_bits-next :
      (i v : ℕ) (b : Bool) (a : Area F)
      → narrow_bits fl (i + 1) (2 * v + digit b) a ≡ narrow fl b (narrow_bits fl i v a)
  unfolding narrow_bits
  narrow_bits-next i v b a =
      let s : i + 1 ≡ suc i = omega arith in simp (s, last_bit v b, other_bits v b) refl

  IsAt-next :
      (a : Area F) (v : ℕ) (g h : Cell F)
      → g.bit < 5
      → IsNext g h
      → IsAt a v g
      → IsAt a (2 * v + digit (bit_for (area g))) h
  IsAt-next a v g h l n k = record {
    bits =
        n.to_half
        ∙ ap (narrow fl (bit_for (area g))) k.bits
        ∙ sym (narrow_bits-next g.bit v (bit_for (area g)) a)
        ∙ ap (λ i. narrow_bits fl i (2 * v + digit (bit_for (area g))) a) (sym n.one_more);
    shifted =
        let s : 4 - g.bit ≡ 5 - h.bit = (let e = n.one_more in omega arith) in
        n.with_digit
        ∙ ap (λ c. c + in_place (bit_for (area g)) (2 ^ (4 - g.bit))) k.shifted
        ∙ place g.bit v (bit_for (area g)) l
        ∙ ap (λ i. (2 * v + digit (bit_for (area g))) * 2 ^ i) s;
    bounded =
        subst (λ i. 2 * v + digit (bit_for (area g)) < 2 ^ i) (sym n.one_more)
          (room g.bit v (bit_for (area g)) l k.bounded);
    inside = subst (IsIn fl lat lon) (sym n.to_half) (narrow-IsIn (area g) k.inside);
  }

  -- Five bits make a character that the decoder reads as them.
  IsAt-written :
      (a : Area F) (v : ℕ) (h : Cell F)
      → h.bit ≡ 5
      → IsAt a v h
      → area h ≡ narrow_bits fl 5 (index_of base32 (char_at base32 h.ch)) a
  IsAt-written a v h e k =
      let same : v * 2 ^ (5 - 5) ≡ v = omega arith in
      let c = k.shifted ∙ ap (λ i. v * 2 ^ (5 - i)) e ∙ same in
      let small = subst (λ i. v < 2 ^ i) e k.bounded in
      let read = ap (λ n. index_of base32 (char_at base32 n)) c ∙ index_of-char_at v small in
      k.bits ∙ ap (λ i. narrow_bits fl i v a) e ∙ ap (λ n. narrow_bits fl 5 n a) (sym read)

  -- Enough fuel: the characters that are left are written, and they denote, from the area that those
  -- before them denote, one that the point is in.
  geohash_loop-IsIn :
      (fuel k : ℕ) (g : Cell F) (a : Area F) (v : ℕ)
      → g.bit < 5
      → 5 * k ≤ fuel + g.bit
      → IsIn fl lat lon a
      → IsAt a v g
      → (z : Text) × (geohash_loop fl fuel lat lon k g ≡ some z)
        × (length z ≡ k)
        × IsIn fl lat lon (decode fl z a)
  unfolding geohash_loop decode
  geohash_loop-IsIn fuel zero g a v b l i at = ([], refl, refl, i)
  geohash_loop-IsIn zero (suc k) g a v b l i at = absurd (omega arith)
  geohash_loop-IsIn (suc fuel) (suc k) g a v b l i at =
      let next = bisect fl lat lon g in
      let n = bisect-IsNext g in
      let w = 2 * v + digit (bit_for (area g)) in
      let moved : IsAt a w next = IsAt-next a v g next b n at in
      let e = n.one_more in
      elim (Bool-cases (next.bit == 5)) [
        | inl f ↦
            let here = IsAt-written a w next ((==_iff next.bit 5).0 f) moved in
            let (z, q, len, inside) =
              geohash_loop-IsIn fuel k (record next { bit = 0; ch = 0 }) (area next) 0 (omega arith)
                (ground arith) moved.inside
                (IsAt-start (record next { bit = 0; ch = 0 }) refl refl moved.inside) in
            rw (f, geohash_loop)
              (
                char_at base32 next.ch ∷ z,
                ap (Option.map (λ s. char_at base32 next.ch ∷ s)) q,
                ap suc len,
                subst (λ y. IsIn fl lat lon (decode fl z y)) here inside,
              )
        | inr f ↦
            let (z, q, len, inside) =
              geohash_loop-IsIn fuel (suc k) next a w (ground arith) (ground arith) i moved in
            rw (f, geohash_loop) (z, q, len, inside)
      ]

module _ {F : Type 0} (fl : Floats F) (of_nat-number : (n : ℕ) → fl.is_nan (fl.of_nat n) ≡ false)
    (neg-number : (a : F) → fl.is_nan a ≡ false → fl.is_nan (fl.neg a) ≡ false)
    (le_of_not_lt : (a b : F)
      → fl.is_nan a ≡ false
      → fl.is_nan b ≡ false
      → fl.lt a b ≡ false
      → fl.le b a ≡ true) where
  on_map : (lat lon : F) → is_off_map fl lat lon ≡ false → IsIn fl lat lon (world fl)
  unfolding is_off_map
  on_map lat lon h =
      let (lat_number, lon_number, not_south, not_north, not_west, not_east) =
        none_of (fl.is_nan lat) (fl.is_nan lon) (fl.lt lat (fl.neg (fl.of_nat 90)))
          (fl.lt (fl.of_nat 90) lat) (fl.lt lon (fl.neg (fl.of_nat 180)))
          (fl.lt (fl.of_nat 180) lon) h in
      let lat_end = of_nat-number 90 in
      let lon_end = of_nat-number 180 in
      (
        (
          le_of_not_lt lat (fl.neg (fl.of_nat 90)) lat_number (neg-number (fl.of_nat 90) lat_end)
              not_south,
          inr (refl, le_of_not_lt (fl.of_nat 90) lat lat_end lat_number not_north),
        ),
        (
          le_of_not_lt lon (fl.neg (fl.of_nat 180)) lon_number (neg-number (fl.of_nat 180) lon_end)
              not_west,
          inr (refl, le_of_not_lt (fl.of_nat 180) lon lon_end lon_number not_east),
        ),
      )

  -- Let constants and their negations be numbers, and of two numbers let `b <= a` hold where `a < b`
  -- does not. The geohash of coordinates on the map, with a precision of at least 1, has as many
  -- characters, and read by the decoder of the scheme they denote a cell of the map that has the
  -- point within its bounds, the lower ones included and the upper ones not, but for the map's own.
  pub geohash-IsIn :
      (lat lon : F) (precision : ℕ)
      → is_off_map fl lat lon ≡ false
      → 1 ≤ precision
      → (z : Text) × (geohash fl lat lon precision ≡ some z)
        × (length z ≡ precision)
        × IsIn fl lat lon (decode fl z (world fl))
  unfolding geohash
  geohash-IsIn lat lon precision h p =
      let inside = on_map lat lon h in
      let some_digits : (precision == 0) ≡ false = ground arith in
      rw (h, some_digits, geohash)
        (geohash_loop-IsIn fl lat lon (5 * precision) precision (whole_map fl) (world fl) 0
          (omega arith) (omega arith) inside
          (IsAt-start fl lat lon (whole_map fl) refl refl inside))

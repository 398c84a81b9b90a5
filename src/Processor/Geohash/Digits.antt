-- ===== src/Processor/Geohash/Digits.antt =====
-- The characters of a geohash as numbers of five bits (internal/processor/anonymizer.go).

use mathlib.Core.Path.{subst}
use edge_gw_project.Prelude.{
  ℕ, zero, suc, ◌+◌, ◌-◌, ◌*◌, ◌/◌, ◌%◌, ◌^◌, ◌≤◌, ◌<◌, ◌≡◌, refl, sym, inl, inr, Bool, true, false,
  ◌||◌, ◌&&◌, ◌==◌, ==_iff, Bool-cases, arith, if◌then◌else◌,
}
use edge_gw_project.Processor.Feature.{char_at, base32}
use edge_gw_project.Processor.Geohash.Decode.{index_of}

unfoldable all_below : ℕ → (ℕ → Bool) → Bool
all_below zero p = true
all_below (suc n) p = p n && all_below n p

&&-left : (a b : Bool) → (a && b) ≡ true → a ≡ true
&&-left true b h = refl
&&-left false b h = h

&&-right : (a b : Bool) → (a && b) ≡ true → b ≡ true
&&-right true b h = h
&&-right false b h = absurd (grind (arith, h))

pub neither : (a b : Bool) → (a || b) ≡ false → (a ≡ false) × (b ≡ false)
neither false b h = (refl, h)
neither true b h = absurd (grind (arith, h))

pub none_of :
    (a b c d e f : Bool)
    → (a || b || c || d || e || f) ≡ false
    → (a ≡ false) × (b ≡ false) × (c ≡ false) × (d ≡ false) × (e ≡ false) × (f ≡ false)
none_of false false false false false f h = (refl, refl, refl, refl, refl, h)
none_of true b c d e f h = absurd (grind (arith, h))
none_of false true c d e f h = absurd (grind (arith, h))
none_of false false true d e f h = absurd (grind (arith, h))
none_of false false false true e f h = absurd (grind (arith, h))
none_of false false false false true f h = absurd (grind (arith, h))

all_below-at : (n : ℕ) (p : ℕ → Bool) → all_below n p ≡ true → (i : ℕ) → i < n → p i ≡ true
unfolding all_below
all_below-at zero p h i l = absurd (omega arith)
all_below-at (suc n) p h i l = elim (Bool-cases (i == n)) [
  | inl e ↦ subst (λ j. p j ≡ true) (sym ((==_iff i n).0 e)) (&&-left (p n) (all_below n p) h)
  | inr e ↦ all_below-at n p (&&-right (p n) (all_below n p) h) i (ground arith)
]

-- The 32 characters differ.
all_digits : all_below 32 (λ n. index_of base32 (char_at base32 n) == n) ≡ true
unfolding all_below index_of char_at
all_digits = refl

pub index_of-char_at : (n : ℕ) → n < 32 → index_of base32 (char_at base32 n) ≡ n
index_of-char_at n l =
    (==_iff (index_of base32 (char_at base32 n)) n).0
      (all_below-at 32 (λ n. index_of base32 (char_at base32 n) == n) all_digits n l)

abbrev pub digit : Bool → ℕ
digit b = if b then 1 else 0

pub last_bit : (v : ℕ) (b : Bool) → ((2 * v + digit b) % 2 == 1) ≡ b
last_bit v true = ground arith
last_bit v false = ground arith

pub other_bits : (v : ℕ) (b : Bool) → (2 * v + digit b) / 2 ≡ v
other_bits v true = omega arith
other_bits v false = omega arith

-- What a bit adds to the number of a character, in the place with the weight `p`.
abbrev pub in_place : Bool → ℕ → ℕ
in_place b p = if b then p else 0

-- A bit below those of `v`, in the place that Geohash gives it.
pub place :
    (i v : ℕ) (b : Bool)
    → i < 5
    → v * 2 ^ (5 - i) + in_place b (2 ^ (4 - i)) ≡ (2 * v + digit b) * 2 ^ (4 - i)
place zero v b l = grind arith
place (suc zero) v b l = grind arith
place (suc (suc zero)) v b l = grind arith
place (suc (suc (suc zero))) v b l = grind arith
place (suc (suc (suc (suc zero)))) v b l = grind arith
place (suc (suc (suc (suc (suc i))))) v b l = absurd (omega arith)

digit_le : (b : Bool) → digit b ≤ 1
digit_le true = omega arith
digit_le false = omega arith

pub room : (i v : ℕ) (b : Bool) → i < 5 → v < 2 ^ i → 2 * v + digit b < 2 ^ (i + 1)
room zero v b l h = let d = digit_le b in omega arith
room (suc zero) v b l h = let d = digit_le b in omega arith
room (suc (suc zero)) v b l h = let d = digit_le b in omega arith
room (suc (suc (suc zero))) v b l h = let d = digit_le b in omega arith
room (suc (suc (suc (suc zero)))) v b l h = let d = digit_le b in omega arith
room (suc (suc (suc (suc (suc i))))) v b l h = absurd (omega arith)

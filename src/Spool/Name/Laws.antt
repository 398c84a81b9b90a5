-- ===== src/Spool/Name/Laws.antt =====
-- The names of spooled signals carry their enqueue time, and sort by it
-- (internal/spool/spool.go).
use Prim.Native.Nat.{max}
use native.Mathlib.Nat.{
  mul-suc, mul-le-mul_left, le_refl, le_trans, pow-suc, div-lt_iff_lt-mul, pow-le-pow_right,
  div-add-mod, mod-lt,
}
use edge_gw_project.Prelude.{
  ℕ, zero, suc, ◌+◌, ◌-◌, ◌*◌, ◌/◌, ◌%◌, ◌^◌, ◌≤◌, ◌<◌, ◌≡◌, refl, ap, ◌∙◌, ◌⊎◌,
}
use edge_gw_project.Prelude.{true, false, some, [], ◌∷◌, ◌++◌, arith, inl, inr}
use edge_gw_project.Prelude.{Text, codes, all, ltb, ◌==◌, length}
use edge_gw_project.Prelude.{Bool-cases, text_le, ltb→lt, lt→ltb}
use edge_gw_project.Spool.Name.{digits, width, pad_decimal, spool_name, before_dash, is_digit}
use edge_gw_project.Spool.Name.{value_from, parse_digits, parse_int, parse_spool_time}

pow-pos : (w : ℕ) → 0 < 10 ^ w
pow-pos zero = omega arith
pow-pos (suc w) = rw pow-suc (omega (arith, pow-pos w))

-- The first digit is one, and the rest is below the next power.
first_digit :
    (p n : ℕ) → 0 < p → n < p * 10 → (n / p < 10) × (n % p < p) × (p * (n / p) + n % p ≡ n)
first_digit p n h k = ((div-lt_iff_lt-mul h).1 (omega arith), mod-lt n h, div-add-mod n p)

digit_step : (w n : ℕ) → n < 10 ^ suc w → n < 10 ^ w * 10
digit_step w n h = rw pow-suc at h

cancel_48 : (q : ℕ) → 48 + q - 48 ≡ q
cancel_48 q = omega arith

shifted : (a p q r n : ℕ) → p * q + r ≡ n → (a * 10 + (48 + q - 48)) * p + r ≡ a * (p * 10) + n
shifted a p q r n e = rw cancel_48 (omega arith)

value-digits : (acc w n : ℕ) → n < 10 ^ w → value_from acc (digits w n) ≡ acc * 10 ^ w + n
unfolding value_from digits
value-digits acc zero n h = omega arith
value-digits acc (suc w) n h =
    let (q, r, e) = first_digit (10 ^ w) n (pow-pos w) (digit_step w n h) in
    value-digits (acc * 10 + (48 + n / 10 ^ w - 48)) w (n % 10 ^ w) r
    ∙ rw pow-suc (shifted acc (10 ^ w) (n / 10 ^ w) (n % 10 ^ w) n e)

all-digits : (w n : ℕ) → n < 10 ^ w → all is_digit (digits w n) ≡ true
unfolding digits is_digit
all-digits zero n h = refl
all-digits (suc w) n h =
    let (q, r, e) = first_digit (10 ^ w) n (pow-pos w) (digit_step w n h) in
    ground (arith, all-digits w (n % 10 ^ w) r)

not_lt : (n : ℕ) → ltb n 10 ≡ false → 10 ≤ n
not_lt n e = ground arith

lt-pow-width : (fuel n : ℕ) → n ≤ fuel → n < 10 ^ width fuel n
unfolding width
lt-pow-width zero n h = omega arith
lt-pow-width (suc fuel) n h = elim (Bool-cases (ltb n 10)) [
  | inl e ↦ rw e (ltb→lt n 10 e)
  | inr e ↦
      rw (e, pow-suc)
        (above (10 ^ width fuel (n / 10)) (lt-pow-width fuel (n / 10) (omega (arith, not_lt n e))))
]
  where
    above : (p : ℕ) → n / 10 < p → n < p * 10
    above p k = omega arith

width-le : (fuel w n : ℕ) → n ≤ fuel → n < 10 ^ suc w → width fuel n ≤ suc w
unfolding width
width-le zero w n k h = omega arith
width-le (suc fuel) zero n k h = ground arith
width-le (suc fuel) (suc w) n k h = elim (Bool-cases (ltb n 10)) [
  | inl e ↦ rw e (omega arith)
  | inr e ↦ rw e (
      omega (
        arith,
        width-le fuel w (n / 10) (omega (arith, not_lt n e))
            ((div-lt_iff_lt-mul {k = 10} (omega arith)).1 (digit_step (suc w) n h)),
      ))
]

le-max_left : (a b : ℕ) → a ≤ max a b
le-max_left a b = omega arith

-- With its first digits padded, a number below `10 ^ 20` has twenty of them.
pad_20 : (n : ℕ) → n < 10 ^ 20 → pad_decimal 20 n ≡ digits 20 n
unfolding pad_decimal
pad_20 n h = let e : max 20 (width n n) ≡ 20 = omega (arith, width-le n 19 n (le_refl n) h) in rw e

pad-lt-pow : (w n : ℕ) → n < 10 ^ max w (width n n)
pad-lt-pow w n =
    le_trans (lt-pow-width n n (le_refl n)) (pow-le-pow_right (omega arith) (omega arith))

value-pad_decimal : (w n : ℕ) → value_from 0 (pad_decimal w n) ≡ n
unfolding pad_decimal
value-pad_decimal w n = value-digits 0 (max w (width n n)) n (pad-lt-pow w n) ∙ omega arith

all-pad_decimal : (w n : ℕ) → all is_digit (pad_decimal w n) ≡ true
unfolding pad_decimal
all-pad_decimal w n = all-digits (max w (width n n)) n (pad-lt-pow w n)

before_dash-append :
    (s rest : Text) → all is_digit s ≡ true → before_dash (s ++ (b'-' ∷ rest)) ≡ some s
unfolding before_dash is_digit
before_dash-append [] rest h = refl
before_dash-append (c ∷ s) rest h = ground (arith, before_dash-append s rest)

not_plus : (c : ℕ) → is_digit c ≡ true → (c == b'+') ≡ false
unfolding is_digit
not_plus c h = ground arith

parse_int-digits :
    (c : ℕ) (s : Text)
    → all is_digit (c ∷ s) ≡ true
    → value_from 0 (c ∷ s) < 2 ^ 63
    → parse_int (c ∷ s) ≡ some (value_from 0 (c ∷ s))
unfolding parse_int parse_digits
parse_int-digits c s h k =
    let d : is_digit c ≡ true = ground arith in rw (not_plus c d) (rw (h, lt→ltb _ _ k))

-- What precedes the dash is read back, as long as it is not empty and fits an int64.
read_back :
    (s rest : Text)
    → all is_digit s ≡ true
    → 0 < length s
    → value_from 0 s < 2 ^ 63
    → parse_spool_time (s ++ (b'-' ∷ rest)) ≡ some (value_from 0 s)
unfolding parse_spool_time
read_back [] rest h k v = absurd (omega arith)
read_back (c ∷ s) rest h k v =
    rw (before_dash-append (c ∷ s) rest h, parse_spool_time) (parse_int-digits c s h v)

length-digits : (w n : ℕ) → length (digits w n) ≡ w
unfolding digits
length-digits zero n = refl
length-digits (suc w) n = ap suc (length-digits w (n % 10 ^ w))

pad_decimal-pos : (w n : ℕ) → 0 < w → 0 < length (pad_decimal w n)
unfolding pad_decimal
pad_decimal-pos w n h = omega (arith, length-digits (max w (width n n)) n)

-- parseSpoolTime recovers from the name that Enqueue formats, for every sequence number, the
-- clock reading that it was formatted from, if that fits an int64.
pub parse-spool_name :
    (nanos number : ℕ) → nanos < 2 ^ 63 → parse_spool_time (spool_name nanos number) ≡ some nanos
unfolding spool_name
parse-spool_name nanos number h =
    let v = value-pad_decimal 20 nanos in
    read_back (pad_decimal 20 nanos) (pad_decimal 6 number ++ codes ".json")
      (all-pad_decimal 20 nanos) (pad_decimal-pos 20 nanos (omega arith)) (rw v h)
    ∙ ap some v

-- Two numbers split at one power compare by the quotients first.
quotients_first :
    (p q r q' r' : ℕ) → p * q + r < p * q' + r' → r' < p → (q < q') ⊎ ((q ≡ q') × (r < r'))
quotients_first p q r q' r' h k = elim (Bool-cases (ltb q q')) [
  | inl e ↦ inl (ltb→lt q q' e)
  | inr e ↦ elim (Bool-cases (ltb q' q)) [
    | inl f ↦ absurd (too_far (ltb→lt q' q f))
    | inr f ↦
        let same : q ≡ q' = ground arith in inr (same, omega (arith, ap (λ (t : ℕ). p * t) same))
  ]
]
  where
    too_far : q' < q → ⊥
    too_far f = omega (arith, mul-suc p q', mul-le-mul_left p f)

digits_sort_lt :
    (w n m : ℕ) (xs ys : Text)
    → n < m
    → m < 10 ^ w
    → text_le (digits w n ++ xs) (digits w m ++ ys) ≡ true
unfolding text_le digits
digits_sort_lt zero n m xs ys h k = absurd (omega arith)
digits_sort_lt (suc w) n m xs ys h k =
    let (_, r, e) = first_digit (10 ^ w) n (pow-pos w) (digit_step w n (omega arith)) in
    let (_, r', e') = first_digit (10 ^ w) m (pow-pos w) (digit_step w m k) in
    elim (quotients_first (10 ^ w) (n / 10 ^ w) (n % 10 ^ w) (m / 10 ^ w) (m % 10 ^ w) (omega arith)
      r') [
        | inl lower ↦ ground arith
        | inr (same, rest) ↦
            ground (arith, digits_sort_lt w (n % 10 ^ w) (m % 10 ^ w) xs ys rest r')
      ]

-- Two names with clock readings below `10 ^ 20` stand in the order of the readings.
pub text_le-spool_name :
    (n m i j : ℕ) → n < m → m < 10 ^ 20 → text_le (spool_name n i) (spool_name m j) ≡ true
unfolding spool_name
text_le-spool_name n m i j h k =
    rw (pad_20 n (omega arith), pad_20 m k) (digits_sort_lt 20 n m _ _ h k)

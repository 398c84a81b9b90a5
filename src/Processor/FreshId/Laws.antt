-- ===== src/Processor/FreshId/Laws.antt =====
-- The layout of the random signal_id and what it determines
-- (internal/processor/anonymizer.go, newSignalIDFrom).
use mathlib.Core.Path.{subst}
use mathlib.Core.List.{append-nil}
use edge_gw_project.Prelude.{
  ℕ, zero, suc, ◌+◌, ◌/◌, ◌%◌, ◌<◌, ◌≤◌, ◌≡◌, refl, sym, ◌∙◌, inl, inr, Bool, true, false, ◌&&◌,
  ◌||◌, some, [], ◌∷◌, ◌++◌, Text, codes, ltb, leb, ◌==◌, arith, if◌then◌else◌, Bool-cases,
}
use edge_gw_project.Processor.FreshId.{
  Bytes, set_byte, stamped, hex_digit, hex_range, new_signal_id_from,
}

abbrev is_hex : ℕ → Bool
is_hex c = (leb b'0' c && leb c b'9') || (leb b'a' c && leb c b'f')

-- Whether a character fits one of a pattern: `x` is a hexadecimal digit, `y` one of 8, 9, a and b.
abbrev fits_char : ℕ → ℕ → Bool
fits_char p c =
    if p == b'x'
    then is_hex c
    else if p == b'y'
    then c == b'8' || (c == b'9' || (c == b'a' || c == b'b'))
    else c == p

abbrev pub fits : Text → Text → Bool
fits [] [] = true
fits [] (c ∷ s) = false
fits (p ∷ ps) [] = false
fits (p ∷ ps) (c ∷ s) = fits_char p c && fits ps s

-- The layout of a random UUID (RFC 4122, version 4).
abbrev pub uuid4 : Text
uuid4 = codes "xxxxxxxx-xxxx-4xxx-yxxx-xxxxxxxxxxxx"

digit_fits : (n : ℕ) → n < 16 → is_hex (hex_digit n) ≡ true
unfolding hex_digit
digit_fits n h = ground (arith, h)

hex_digit_injective : (n m : ℕ) → n < 16 → m < 16 → hex_digit n ≡ hex_digit m → n ≡ m
unfolding hex_digit
hex_digit_injective n m h k e = ground (arith, h, k, e)

same_byte : (a b : ℕ) → a / 16 ≡ b / 16 → a % 16 ≡ b % 16 → a ≡ b
same_byte a b h k = omega (arith, h, k)

abbrev pub AreBytes : Bytes → Type 0
AreBytes b = (i : ℕ) → b i < 256

-- The text of an id.
abbrev id_of : Bytes → Text
id_of s =
    hex_range s 0 4
    ++ (b'-'
        ∷ (hex_range s 4 2
            ++ (b'-'
                ∷ (hex_range s 6 2 ++ (b'-' ∷ (hex_range s 8 2 ++ (b'-' ∷ hex_range s 10 6)))))))

stamped-AreBytes : (b : Bytes) → AreBytes b → AreBytes (stamped b)
unfolding stamped set_byte
stamped-AreBytes b h i = ground (arith, h i)

byte_fits :
    (v : ℕ) (ps s : Text)
    → v < 256
    → fits ps s ≡ true
    → fits (b'x' ∷ b'x' ∷ ps) (hex_digit (v / 16) ∷ hex_digit (v % 16) ∷ s) ≡ true
byte_fits v ps s h e =
    rw (digit_fits (v / 16) (omega (arith, h)), digit_fits (v % 16) (omega arith)) e

abbrev digits : ℕ → Text
digits zero = []
digits (suc k) = b'x' ∷ b'x' ∷ digits k

hex_range-fits :
    (b : Bytes) (k i : ℕ) (ps s : Text)
    → AreBytes b
    → fits ps s ≡ true
    → fits (digits k ++ ps) (hex_range b i k ++ s) ≡ true
unfolding hex_range
hex_range-fits b zero i ps s h e = e
hex_range-fits b (suc k) i ps s h e =
    byte_fits (b i) (digits k ++ ps) (hex_range b (i + 1) k ++ s) (h i)
      (hex_range-fits b k (i + 1) ps s h e)

version_fits :
    (v : ℕ) (ps s : Text)
    → fits ps s ≡ true
    → fits (b'4' ∷ b'x' ∷ ps) (hex_digit ((v % 16 + 64) / 16) ∷ hex_digit ((v % 16 + 64) % 16) ∷ s)
      ≡ true
unfolding hex_digit
version_fits v ps s e =
    let four : (v % 16 + 64) / 16 ≡ 4 = omega arith in
    rw (four, digit_fits ((v % 16 + 64) % 16) (omega arith)) e

variant_digit : (n : ℕ) → 8 ≤ n → n < 12 → fits_char b'y' (hex_digit n) ≡ true
unfolding hex_digit
variant_digit n h k = ground (arith, h, k)

variant_fits :
    (v : ℕ) (ps s : Text)
    → fits ps s ≡ true
    → fits
        (b'y' ∷ b'x' ∷ ps)
        (hex_digit ((v % 64 + 128) / 16) ∷ hex_digit ((v % 64 + 128) % 16) ∷ s)
      ≡ true
variant_fits v ps s e =
    let top = variant_digit ((v % 64 + 128) / 16) (omega arith) (omega arith) in
    rw (top, digit_fits ((v % 64 + 128) % 16) (omega arith)) e

-- Two texts that begin with as many bytes each and are equal: the bytes and the rests are equal.
hex_range_injective :
    (b c : Bytes) (k i : ℕ) (s t : Text)
    → AreBytes b
    → AreBytes c
    → hex_range b i k ++ s ≡ hex_range c i k ++ t
    → ((j : ℕ) → i ≤ j → j < i + k → b j ≡ c j) × (s ≡ t)
unfolding hex_range
hex_range_injective b c zero i s t h k e = (λ j l m. absurd (omega (arith, l, m)), e)
hex_range_injective b c (suc k) i s t h l e =
    let high : hex_digit (b i / 16) ≡ hex_digit (c i / 16) = cc e in
    let low : hex_digit (b i % 16) ≡ hex_digit (c i % 16) = cc e in
    let rest : hex_range b (i + 1) k ++ s ≡ hex_range c (i + 1) k ++ t = cc e in
    let first =
      same_byte (b i) (c i)
        (hex_digit_injective (b i / 16) (c i / 16) (omega (arith, h i)) (omega (arith, l i)) high)
        (hex_digit_injective (b i % 16) (c i % 16) (omega arith) (omega arith) low) in
    let (others, ends) = hex_range_injective b c k (i + 1) s t h l rest in
    (
      λ j m n. elim (Bool-cases (i == j)) [
        | inl p ↦ let q : i ≡ j = ground (arith, p) in subst (λ z. b z ≡ c z) q first
        | inr p ↦ others j (ground (arith, m, p)) (omega (arith, n))
      ],
      ends,
    )

module _ (b : Bytes) (h : AreBytes b) where
  abbrev node : Text
  node = b'-' ∷ hex_range (stamped b) 10 6

  abbrev clock : Text
  clock = b'-' ∷ hex_range (stamped b) 8 2 ++ node

  abbrev high_time : Text
  high_time = b'-' ∷ hex_range (stamped b) 6 2 ++ clock

  abbrev middle_time : Text
  middle_time = b'-' ∷ hex_range (stamped b) 4 2 ++ high_time

  node-fits : fits (codes "-xxxxxxxxxxxx") node ≡ true
  node-fits =
      subst (λ z. fits (digits 6) z ≡ true) (append-nil (hex_range (stamped b) 10 6))
        (hex_range-fits (stamped b) 6 10 [] [] (stamped-AreBytes b h) refl)

  clock-fits : fits (codes "-yxxx-xxxxxxxxxxxx") clock ≡ true
  unfolding hex_range stamped set_byte
  clock-fits =
      variant_fits (b 8) (codes "xx-xxxxxxxxxxxx") (hex_range (stamped b) 9 1 ++ node) (
        hex_range-fits (stamped b) 1 9 (codes "-xxxxxxxxxxxx") node (stamped-AreBytes b h)
          node-fits)

  high_time-fits : fits (codes "-4xxx-yxxx-xxxxxxxxxxxx") high_time ≡ true
  unfolding hex_range stamped set_byte
  high_time-fits =
      version_fits (b 6) (codes "xx-yxxx-xxxxxxxxxxxx") (hex_range (stamped b) 7 1 ++ clock) (
        hex_range-fits (stamped b) 1 7 (codes "-yxxx-xxxxxxxxxxxx") clock (stamped-AreBytes b h)
          clock-fits)

  id-fits : fits uuid4 (id_of (stamped b)) ≡ true
  id-fits =
      hex_range-fits (stamped b) 4 0 (codes "-xxxx-4xxx-yxxx-xxxxxxxxxxxx") middle_time
        (stamped-AreBytes b h)
        (hex_range-fits (stamped b) 2 4 (codes "-4xxx-yxxx-xxxxxxxxxxxx") high_time
          (stamped-AreBytes b h) high_time-fits)

id_of-injective :
    (b c : Bytes) (i : ℕ) → AreBytes b → AreBytes c → id_of b ≡ id_of c → i < 16 → b i ≡ c i
id_of-injective b c i h k e l =
    let (p, e1) = hex_range_injective b c 4 0 _ _ h k e in
    let (q, e2) = hex_range_injective b c 2 4 _ _ h k (tail_of e1) in
    let (r, e3) = hex_range_injective b c 2 6 _ _ h k (tail_of e2) in
    let (s, e4) = hex_range_injective b c 2 8 _ _ h k (tail_of e3) in
    let (t, _) =
      hex_range_injective b c 6 10 [] [] h k
        (append-nil (hex_range b 10 6) ∙ tail_of e4 ∙ sym (append-nil (hex_range c 10 6))) in
    elim (Bool-cases (ltb i 4)) [
      | inl m ↦ p i (omega arith) (ground (arith, m))
      | inr m ↦ elim (Bool-cases (ltb i 6)) [
        | inl n ↦ q i (ground (arith, m)) (ground (arith, n))
        | inr n ↦ elim (Bool-cases (ltb i 8)) [
          | inl u ↦ r i (ground (arith, n)) (ground (arith, u))
          | inr u ↦ elim (Bool-cases (ltb i 10)) [
            | inl v ↦ s i (ground (arith, u)) (ground (arith, v))
            | inr v ↦ t i (ground (arith, v)) (omega (arith, l))
          ]
        ]
      ]
    ]
  where
    tail_of : {x y : ℕ} {s t : Text} → x ∷ s ≡ y ∷ t → s ≡ t
    tail_of e = cc e

-- The random bits of a byte by its place: the low four of byte 6, which has the version, the low six
-- of byte 8, which has the variant, and all eight of the others.
abbrev pub random_bits : ℕ → ℕ → ℕ
random_bits i v = if i == 6 then v % 16 else if i == 8 then v % 64 else v

random_bits-stamped :
    (b c : Bytes) (i : ℕ) → stamped b i ≡ stamped c i → random_bits i (b i) ≡ random_bits i (c i)
unfolding stamped set_byte
random_bits-stamped b c i e = elim (Bool-cases (i == 6)) [
  | inl m ↦
      let p : i ≡ 6 = ground (arith, m) in
      let at : stamped b 6 ≡ stamped c 6 = subst (λ k. stamped b k ≡ stamped c k) p e in
      let low : b 6 % 16 ≡ c 6 % 16 = omega (arith, at) in
      subst (λ k. random_bits k (b k) ≡ random_bits k (c k)) (sym p) low
  | inr m ↦ elim (Bool-cases (i == 8)) [
    | inl n ↦
        let p : i ≡ 8 = ground (arith, n) in
        let at : stamped b 8 ≡ stamped c 8 = subst (λ k. stamped b k ≡ stamped c k) p e in
        let low : b 8 % 64 ≡ c 8 % 64 = omega (arith, at) in
        subst (λ k. random_bits k (b k) ≡ random_bits k (c k)) (sym p) low
    | inr n ↦ simp (m, n) (simp (m, n) at e)
  ]
]

-- Two reads of 16 bytes that give one id: the id has the layout of a random UUID (version 4), and
-- the reads agree in all of their 122 random bits: the low four of byte 6, the low six of byte 8,
-- and the other bytes.
pub new_signal_id_from_lem :
    (b c : Bytes) (i : ℕ)
    → AreBytes b
    → AreBytes c
    → new_signal_id_from (some b) ≡ new_signal_id_from (some c)
    → i < 16
    → (random_bits i (b i) ≡ random_bits i (c i))
      × ((id : Text) × (new_signal_id_from (some b) ≡ some id) × (fits uuid4 id ≡ true))
unfolding new_signal_id_from
new_signal_id_from_lem b c i h k e l =
    let same : id_of (stamped b) ≡ id_of (stamped c) = cc e in
    (
      random_bits-stamped b c i (
          id_of-injective (stamped b) (stamped c) i (stamped-AreBytes b h) (stamped-AreBytes c k)
            same l),
      (id_of (stamped b), refl, id-fits b h),
    )

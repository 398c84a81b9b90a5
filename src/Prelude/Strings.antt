-- ===== src/Prelude/Strings.antt =====
-- Go strings as lists of code points, with the functions of the standard library's `strings` that
-- the gateway calls. Text that enters the gateway is valid UTF-8: the JSON decoder replaces
-- what is not.
use Prim.Native.Char.{code}
use Prim.Native.Nat.{ℕ, compare, Ordering}
use Prim.Native.String.{String}
use mathlib.Core.Path.{◌≡◌, refl, sym, ap, ◌∙◌}
use mathlib.Core.Logic.{◌≢◌, inl, inr}
use mathlib.Core.Bool.{Bool, true, false, ◌&&◌, ◌||◌}
use mathlib.Core.List.{List, [], ◌∷◌, ◌++◌}
use mathlib.Core.Option.{Option, none, some}
use native.Mathlib.Omega.{arith}
use edge_gw_project.Prelude.Tests.{leb, ◌==◌, if◌then◌else◌, Bool-cases}

abbrev pub Text : Type 0
Text = List ℕ

-- The code points of a literal.
abbrev pub codes : String → Text
codes String.[] = []
codes (String.◌∷◌ c s) = code c ∷ codes s

unfoldable pub text_eq : Text → Text → Bool
text_eq [] [] = true
text_eq [] (y ∷ ys) = false
text_eq (x ∷ xs) [] = false
text_eq (x ∷ xs) (y ∷ ys) = x == y && text_eq xs ys

pub text_eq→eq : (xs ys : Text) → text_eq xs ys ≡ true → xs ≡ ys
unfolding text_eq
text_eq→eq [] [] h = refl
text_eq→eq [] (y ∷ ys) h = cc
text_eq→eq (x ∷ xs) [] h = cc
text_eq→eq (x ∷ xs) (y ∷ ys) h = ground (arith, text_eq→eq xs ys)

pub text_eq_refl : (xs : Text) → text_eq xs xs ≡ true
unfolding text_eq
text_eq_refl [] = refl
text_eq_refl (x ∷ xs) = ground (arith, text_eq_refl xs)

pub text_eq_of_ne : (x y : Text) → x ≢ y → text_eq x y ≡ false
text_eq_of_ne x y h = elim (Bool-cases (text_eq x y)) [
  | inl e ↦ absurd (h (text_eq→eq x y e))
  | inr e ↦ e
]

pub ne_of_text_eq : (a b : Text) → text_eq a b ≡ false → a ≢ b
ne_of_text_eq a b e q =
    let clash : true ≡ false = sym (text_eq_refl a) ∙ ap (text_eq a) q ∙ e in cc clash

-- `strings.HasPrefix` with the rest, which is what `strings.TrimPrefix` returns on a match.
unfoldable pub cut_prefix : Text → Text → Option Text
cut_prefix [] ys = some ys
cut_prefix (x ∷ xs) [] = none
cut_prefix (x ∷ xs) (y ∷ ys) = let rest = cut_prefix xs ys in if x == y then rest else none

pub cut_prefix-append : (xs ys : Text) → cut_prefix xs (xs ++ ys) ≡ some ys
unfolding cut_prefix
cut_prefix-append [] ys = refl
cut_prefix-append (x ∷ xs) ys = ground (arith, cut_prefix-append xs ys)

pub eq-append_of_cut_prefix :
    (xs ys : Text) {rest : Text} → cut_prefix xs ys ≡ some rest → ys ≡ xs ++ rest
unfolding cut_prefix
eq-append_of_cut_prefix [] ys h = ground arith
eq-append_of_cut_prefix (x ∷ xs) [] h = cc
eq-append_of_cut_prefix (x ∷ xs) (y ∷ ys) {rest} h =
    ground (arith, eq-append_of_cut_prefix xs ys {rest = rest})

-- `strings.TrimPrefix(s, prefix)`
unfoldable pub trim_prefix : Text → Text → Text
trim_prefix s prefix = elim (cut_prefix prefix s) [ none ↦ s | some rest ↦ rest ]

-- `unicode.IsSpace`: the Latin-1 cases, then the table White_Space.
unfoldable pub is_space : ℕ → Bool
is_space c =
    (leb 9 c && leb c 13)
    || c == 32
    || c == 133
    || c == 160
    || c == 5760
    || (leb 8192 c && leb c 8202)
    || c == 8232
    || c == 8233
    || c == 8239
    || c == 8287
    || c == 12288

-- `strings.TrimSpace`
unfoldable pub trim_left : Text → Text
trim_left [] = []
trim_left (c ∷ s) = let rest = trim_left s in if is_space c then rest else c ∷ s

unfoldable pub trim_right : Text → Text
trim_right [] = []
trim_right (c ∷ s) = elim (trim_right s) [
  | [] ↦ if is_space c then [] else c ∷ []
  | d ∷ t ↦ c ∷ d ∷ t
]

unfoldable pub trim_space : Text → Text
unfolding trim_left trim_right
trim_space s = trim_right (trim_left s)

-- Lexicographic order, which `sort.Strings` uses. Names of files are ASCII, where the order of
-- code points is the order of bytes.
unfoldable pub text_le : Text → Text → Bool
text_le [] ys = true
text_le (x ∷ xs) [] = false
text_le (x ∷ xs) (y ∷ ys) = elim (compare x y) [
  | Ordering.lt ↦ true
  | Ordering.eq ↦ text_le xs ys
  | Ordering.gt ↦ false
]

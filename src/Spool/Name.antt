-- ===== src/Spool/Name.antt =====
-- File names of spooled signals (internal/spool/spool.go): the name that Enqueue formats from the
-- clock and the sequence number, and what parseSpoolTime reads back.
pub mod Laws
use Prim.Native.Nat.{max}
use edge_gw_project.Prelude.{ℕ, zero, suc, ◌+◌, ◌-◌, ◌*◌, ◌/◌, ◌%◌, ◌^◌}
use edge_gw_project.Prelude.{Bool, not, ◌&&◌, Option, none, some}
use edge_gw_project.Prelude.{[], ◌∷◌, ◌++◌, Text, codes, all, is_empty}
use edge_gw_project.Prelude.{ltb, leb, ◌==◌, if◌then◌else◌}

-- The `w` decimal digits of `n`, for `n` below `10 ^ w`.
pub digits : ℕ → ℕ → Text
digits zero n = []
digits (suc w) n = (48 + n / 10 ^ w) ∷ digits w (n % 10 ^ w)

-- How many digits `n` has. A fuel of `n` is enough.
width : ℕ → ℕ → ℕ
width zero n = 1
width (suc fuel) n = let rest = width fuel (n / 10) in if ltb n 10 then 1 else suc rest

-- `%0wd` of a number that is not negative.
unfoldable pub pad_decimal : ℕ → ℕ → Text
unfolding digits width
pad_decimal w n = digits (max w (width n n)) n

-- `fmt.Sprintf("%020d-%06d.json", nanos, seq)`
unfoldable pub spool_name : ℕ → ℕ → Text
spool_name nanos seq = pad_decimal 20 nanos ++ (b'-' ∷ (pad_decimal 6 seq ++ codes ".json"))

-- `name[:idx]` for the first dash, if there is one.
pub before_dash : Text → Option Text
before_dash [] = none
before_dash (c ∷ s) =
    let rest = before_dash s in
    if c == b'-' then some [] else elim rest [ none ↦ none | some t ↦ some (c ∷ t) ]

pub is_digit : ℕ → Bool
is_digit c = leb 48 c && leb c 57

pub value_from : ℕ → Text → ℕ
value_from acc [] = acc
value_from acc (c ∷ s) = value_from (acc * 10 + (c - 48)) s

-- `strconv.ParseInt(s, 10, 64)` on a text with no dash: a `+` may stand in front, the rest are
-- digits, at least one, and the value fits an int64.
unfoldable pub parse_digits : Text → Option ℕ
parse_digits s =
    if not (is_empty s) && all is_digit s && ltb (value_from 0 s) (2 ^ 63)
    then some (value_from 0 s)
    else none

unfoldable pub parse_int : Text → Option ℕ
unfolding parse_digits
parse_int [] = none
parse_int (c ∷ s) = if c == b'+' then parse_digits s else parse_digits (c ∷ s)

-- The enqueue time that a name encodes; the dash must not stand first.
unfoldable pub parse_spool_time : Text → Option ℕ
unfolding before_dash parse_int
parse_spool_time name = elim (before_dash name) [
  | none ↦ none
  | some [] ↦ none
  | some (c ∷ s) ↦ parse_int (c ∷ s)
]

-- ===== src/Processor/FreshId.antt =====
-- The random signal_id (internal/processor/anonymizer.go, newSignalIDFrom). An array of 16 bytes is
-- a function of the index.
pub mod Laws
use edge_gw_project.Prelude.{
  ℕ, zero, suc, ◌+◌, ◌-◌, ◌/◌, ◌%◌, Option, none, some, [], ◌∷◌, ◌++◌, Text, ltb, ◌==◌,
  if◌then◌else◌,
}

abbrev pub Bytes : Type 0
Bytes = ℕ → ℕ

unfoldable pub set_byte : ℕ → ℕ → Bytes → Bytes
set_byte i v b j = if j == i then v else b j

-- The version and the variant: `(b[6] & 0x0f) | 0x40` and `(b[8] & 0x3f) | 0x80`.
unfoldable pub stamped : Bytes → Bytes
unfolding set_byte
stamped b =
    let versioned = set_byte 6 (b 6 % 16 + 64) b in set_byte 8 (versioned 8 % 64 + 128) versioned

unfoldable pub hex_digit : ℕ → ℕ
hex_digit n = if ltb n 10 then b'0' + n else b'a' + (n - 10)

-- `%x` of the bytes from an index, this many.
unfoldable pub hex_range : Bytes → ℕ → ℕ → Text
unfolding hex_digit
hex_range b i zero = []
hex_range b i (suc k) = hex_digit (b i / 16) ∷ hex_digit (b i % 16) ∷ hex_range b (i + 1) k

-- newSignalIDFrom, given what the source of entropy reads.
unfoldable pub new_signal_id_from : Option Bytes → Option Text
unfolding stamped hex_range
new_signal_id_from none = none
new_signal_id_from (some b) =
    let s = stamped b in
    some (
      hex_range s 0 4
      ++ (b'-'
          ∷ (hex_range s 4 2
              ++ (b'-'
                  ∷ (hex_range s 6 2 ++ (b'-' ∷ (hex_range s 8 2 ++ (b'-' ∷ hex_range s 10 6))))))))

-- ===== src/Processor/Outside.antt =====
-- What internal/processor takes from outside the repository: Go's float64, the packages unicode,
-- time and crypto/hmac, and the operating system's entropy.
use edge_gw_project.Prelude.{ℕ, Bool, Option, Text}

-- float64, as far as the package uses it: the comparisons, the conversion of the constants,
-- the negation of a constant, the midpoint `(a + b) / 2`, the product `x * 0.95`, and the
-- package math's IsNaN and IsInf.
pub record Floats (F : Type 0) : Type 0 where
  pub le : F → F → Bool
  pub lt : F → F → Bool
  pub of_nat : ℕ → F
  pub neg : F → F
  pub midpoint : F → F → F
  pub nineteen_twentieths : F → F
  pub is_nan : F → Bool
  pub is_inf : F → Bool

-- `unicode.ToUpper`, `unicode.ToLower` and hex-encoded HMAC-SHA256 of a key and a message;
-- `time.Parse` with RFC3339Nano to nanoseconds since the zero time, and `Format` with RFC3339
-- in UTC.
pub record Toolkit : Type 0 where
  pub to_upper : ℕ → ℕ
  pub to_lower : ℕ → ℕ
  pub hmac_hex : Text → Text → Text
  pub parse_time : Text → Option ℕ
  pub format_time : ℕ → Text

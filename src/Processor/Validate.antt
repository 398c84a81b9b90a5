-- ===== src/Processor/Validate.antt =====
-- RawData.Validate of internal/processor/anonymizer.go.
pub mod Laws
use edge_gw_project.Prelude.{
  ℕ, Bool, true, false, not, ◌&&◌, ◌||◌, Option, none, some, map, Text, codes, leb,
}
use edge_gw_project.Prelude.{
  List, [], ◌∷◌, ◌==◌, text_eq, trim_space, is_empty, length, all, if◌then◌else◌,
}
use edge_gw_project.Processor.Outside.{Floats, Toolkit}
use edge_gw_project.Processor.Signal.{RawData}

-- ValidationError, by the field it names.
pub data ValidationError : Type 0 where
  bad_id : ValidationError
  bad_name : ValidationError
  bad_account : ValidationError
  bad_amount : ValidationError
  bad_timestamp : ValidationError
  half_location : ValidationError
  bad_latitude : ValidationError
  bad_longitude : ValidationError
  bad_transaction_ref : ValidationError
  unknown_signal_type : ValidationError
  unknown_endpoint_type : ValidationError

abbrev pub valid_signal_types : List Text
valid_signal_types =
    codes "transaction" ∷ codes "login" ∷ codes "transfer" ∷ codes "authentication" ∷ []

abbrev pub valid_endpoint_types : List Text
valid_endpoint_types =
    codes "MOBILE_APP"
    ∷ codes "ATM"
    ∷ codes "POS"
    ∷ codes "WEB"
    ∷ codes "BRANCH"
    ∷ codes "API"
    ∷ codes "USSD"
    ∷ codes "IVR"
    ∷ []

-- The lookup of a key in one of the two maps, whose values are all true.
unfoldable pub is_listed : Text → List Text → Bool
is_listed s [] = false
is_listed s (x ∷ xs) = let rest = is_listed s xs in if text_eq s x then true else rest

unfoldable pub is_ref_char : ℕ → Bool
is_ref_char c =
    (leb b'A' c && leb c b'Z')
    || (leb b'a' c && leb c b'z')
    || (leb b'0' c && leb c b'9')
    || c == b'_'
    || c == b'-'

-- transactionRefPattern.MatchString
unfoldable pub matches_ref_pattern : Text → Bool
matches_ref_pattern s = all is_ref_char s && leb 1 (length s) && leb (length s) 64

unfoldable pub is_bad_ref : Text → Bool
is_bad_ref r = not (is_empty (trim_space r)) && not (matches_ref_pattern (trim_space r))

-- The canonical spelling of an optional member of a list.
unfoldable pub canonical_in : List Text → (ℕ → ℕ) → Text → Option Text
canonical_in listed spell [] = some []
canonical_in listed spell (c ∷ s) =
    if is_listed (map spell (c ∷ s)) listed then some (map spell (c ∷ s)) else none

module _ {F : Type 0} (fl : Floats F) (t : Toolkit) where
  unfoldable pub is_bad_latitude : F → Bool
  is_bad_latitude x = fl.lt x (fl.neg (fl.of_nat 90)) || fl.lt (fl.of_nat 90) x || fl.is_nan x

  unfoldable pub is_bad_longitude : F → Bool
  is_bad_longitude x = fl.lt x (fl.neg (fl.of_nat 180)) || fl.lt (fl.of_nat 180) x || fl.is_nan x

  unfoldable pub check_location : Option F → Option F → Option ValidationError
  check_location none none = none
  check_location none (some lon) = some half_location
  check_location (some lat) none = some half_location
  check_location (some lat) (some lon) =
      if is_bad_latitude lat
      then some bad_latitude
      else if is_bad_longitude lon
      then some bad_longitude
      else none

  unfoldable pub is_bad_time : Text → Bool
  is_bad_time ts = elim (t.parse_time ts) [ none ↦ true | some n ↦ false ]

  -- The checks up to transaction_ref, which change nothing.
  unfoldable pub check_fields : RawData F → Option ValidationError
  check_fields r =
      if is_empty (trim_space r.id)
      then some bad_id
      else if is_empty (trim_space r.name)
      then some bad_name
      else if is_empty (trim_space r.account)
      then some bad_account
      else if fl.le r.amount (fl.of_nat 0) || fl.is_inf r.amount
      then some bad_amount
      else if is_bad_time r.timestamp
      then some bad_timestamp
      else elim (check_location r.latitude r.longitude) [
        | some e ↦ some e
        | none ↦ if is_bad_ref r.transaction_ref then some bad_transaction_ref else none
      ]

  unfoldable pub check_endpoint_type : RawData F → Option ValidationError × RawData F
  check_endpoint_type r = elim (canonical_in valid_endpoint_types t.to_upper r.endpoint_type) [
    | none ↦ (some unknown_endpoint_type, r)
    | some s ↦ (none, record r { endpoint_type = s })
  ]

  unfoldable pub check_types : RawData F → Option ValidationError × RawData F
  check_types r = elim (canonical_in valid_signal_types t.to_lower r.signal_type) [
    | none ↦ (some unknown_signal_type, r)
    | some s ↦ check_endpoint_type (record r { signal_type = s })
  ]

  -- Validate, with the event as it leaves it.
  unfoldable pub validate : RawData F → Option ValidationError × RawData F
  validate r = elim (check_fields r) [ some e ↦ (some e, r) | none ↦ check_types r ]

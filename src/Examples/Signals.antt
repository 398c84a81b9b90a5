-- ===== src/Examples/Signals.antt =====
-- The anonymizer on small inputs (internal/processor/anonymizer.go), with whole numbers in place
-- of floats and a MAC that shows its key and message.
use edge_gw_project.Prelude.{
  ℕ, ◌+◌, ◌-◌, ◌/◌, ◌≡◌, ◌≢◌, refl, ◌⊎◌, true, false, ◌||◌, none, some, [], ◌∷◌, ◌++◌, Text, codes,
  length, leb, ltb,
}
use edge_gw_project.Prelude.{
  arith, trim_space, trim_left, trim_right, is_empty, is_space, text_eq, if◌then◌else◌, ◌==◌, ◌&&◌,
}
use edge_gw_project.Processor.Outside.{Floats, Toolkit}
use edge_gw_project.Processor.Normalize.{is_separator, normalize_id}
use edge_gw_project.Processor.Normalize.Laws.{IsRespelled, done, skip_left, same}
use edge_gw_project.Processor.Feature.{
  map_to_tier, geohash, is_off_map, bucket_timestamp, zone_unknown,
}
use edge_gw_project.Processor.Geohash.{HasGeohash, geohash-length}
use edge_gw_project.Processor.Geohash.Decode.{decode, world, IsIn}
use edge_gw_project.Processor.Geohash.Cells.{geohash-IsIn}
use edge_gw_project.Processor.Signal.{RawData, Settings, anonymize_signal, zone_of, is_near}
use edge_gw_project.Processor.FreshId.{
  Bytes, set_byte, stamped, hex_digit, hex_range, new_signal_id_from,
}
use edge_gw_project.Processor.FreshId.Laws.{
  AreBytes, fits, uuid4, random_bits, new_signal_id_from_lem,
}
use edge_gw_project.Processor.Mosaic.{
  IsKeyed, IsKeyedIfAny, destination_is_identity, scopes_are_keyings,
}
use edge_gw_project.Processor.Privacy.{moved, renamed, amount_place_time_hidden, id_and_name_hidden}
use edge_gw_project.Processor.Validate.Laws.{HasPassed, IsCanonical}
use edge_gw_project.Processor.Validate.{
  validate, check_fields, check_types, check_endpoint_type, check_location, canonical_in, is_listed,
  is_bad_ref, is_bad_time, is_bad_latitude, is_bad_longitude, matches_ref_pattern, is_ref_char,
  valid_signal_types, valid_endpoint_types,
}
use edge_gw_project.Processor.Validate.Laws.{validate_accepts}

-- Whole numbers, shifted by 1000 so that the negated constants are below the others.
abbrev pub whole : Floats ℕ
whole = record {
  le = leb;
  lt = ltb;
  of_nat = λ n. 1000 + n;
  neg = λ n. 2000 - n;
  midpoint = λ a b. (a + b) / 2;
  nineteen_twentieths = λ n. n;
  is_nan = λ n. false;
  is_inf = λ n. false;
}

abbrev upper : ℕ → ℕ
upper c = if leb b'a' c && leb c b'z' then c - 32 else c

abbrev lower : ℕ → ℕ
lower c = if leb b'A' c && leb c b'Z' then c + 32 else c

abbrev pub tools : Toolkit
tools = record {
  to_upper = upper;
  to_lower = lower;
  hmac_hex = λ k m. k ++ (b':' ∷ m);
  parse_time = λ ts. if is_empty ts then none else some 1800000000007;
  format_time = λ n. n ∷ [];
}

abbrev pub settings : Settings ℕ
settings = record {
  institution_id = codes "BNK";
  salt = codes "salt";
  pepper = [];
  keying = codes "bank";
  reporting_threshold = 11000;
}

abbrev pub event : RawData ℕ
event = record {
  id = codes "17";
  name = codes "Ada";
  national_id = codes "2-2";
  account = codes "99";
  amount = 1200;
  latitude = some 1006;
  longitude = some 1003;
  timestamp = codes "t";
  device_id = [];
  device_id_hash = [];
  ip = [];
  ip_hash = [];
  branch_id = [];
  signal_type = codes "Login";
  endpoint_type = codes "pos";
  counterparty_id = [];
  counterparty_national_id = codes "a-1";
  transaction_ref = codes "TX-1";
}

abbrev receiver : RawData ℕ
receiver = record event { id = codes "18"; name = codes "Bo"; national_id = codes "A1" }

one_identifier : IsRespelled tools (codes "a-1") (codes "A1")
unfolding is_separator is_space
one_identifier = same refl refl refl (skip_left refl (same refl refl refl done))

not_blank : normalize_id tools (codes "A1") ≢ []
unfolding normalize_id is_separator is_space
not_blank e = cc e

destination_is_identity_example :
    (anonymize_signal whole tools settings event []).destination
    ≡ some (anonymize_signal whole tools settings receiver []).identity
destination_is_identity_example =
    destination_is_identity whole tools settings event receiver [] [] one_identifier not_blank

scopes_are_keyings_example :
    IsKeyed whole tools settings (anonymize_signal whole tools settings event []).identity
    × IsKeyedIfAny whole tools settings (anonymize_signal whole tools settings event []).destination
scopes_are_keyings_example = scopes_are_keyings whole tools settings event []

tier_kept : map_to_tier whole 1200 ≡ map_to_tier whole 1300
unfolding map_to_tier
tier_kept = refl

near_kept : is_near whole tools settings 1200 ≡ is_near whole tools settings 1300
unfolding is_near
near_kept = refl

zone_kept :
    zone_of whole tools settings (some 1006) (some 1003)
    ≡ zone_of whole tools settings (some 1006) (some 1003)
zone_kept = refl

bucket_kept : bucket_timestamp tools (codes "t") ≡ bucket_timestamp tools (codes "u")
unfolding bucket_timestamp
bucket_kept = refl

amount_place_time_hidden_example :
    anonymize_signal whole tools settings event []
    ≡ anonymize_signal whole tools settings
        (moved whole tools settings event 1300 (some 1006) (some 1003) (codes "u"))
        []
amount_place_time_hidden_example =
    amount_place_time_hidden whole tools settings event 1300 (some 1006) (some 1003) (codes "u") []
      tier_kept near_kept zone_kept bucket_kept

id_and_name_hidden_example :
    anonymize_signal whole tools settings
      (renamed whole tools settings receiver (codes "19") (codes "Cy"))
      []
    ≡ anonymize_signal whole tools settings receiver []
id_and_name_hidden_example =
    id_and_name_hidden whole tools settings receiver (codes "19") (codes "Cy") [] not_blank

geohash-length_example :
    ((¬ HasGeohash whole 1006 1003 5) × (geohash whole 1006 1003 5 ≡ some zone_unknown))
    ⊎ (HasGeohash whole 1006 1003 5
        × ((z : Text) × (geohash whole 1006 1003 5 ≡ some z) × (length z ≡ 5)))
geohash-length_example = geohash-length whole 1006 1003 5

geohash-IsIn_example :
    (z : Text) × (geohash whole 1006 1003 5 ≡ some z)
    × (length z ≡ 5)
    × IsIn whole 1006 1003 (decode whole z (world whole))
unfolding is_off_map
geohash-IsIn_example =
    geohash-IsIn whole (λ n. refl) (λ a h. refl) (λ a b ha hb h. ground (arith, h)) 1006 1003 5 refl
      (omega arith)

lower_keeps : (c : ℕ) → (leb b'a' c && leb c b'z') ≡ true → lower c ≡ c
lower_keeps c h = ground (arith, h)

upper_keeps : (c : ℕ) → ((leb b'A' c && leb c b'Z') || c == b'_') ≡ true → upper c ≡ c
upper_keeps c h = ground (arith, h)

valid : (validate whole tools event).0 ≡ none
unfolding validate check_fields check_types check_endpoint_type check_location canonical_in
    is_listed is_bad_ref is_bad_time is_bad_latitude is_bad_longitude matches_ref_pattern
    is_ref_char trim_space trim_left trim_right is_space text_eq
valid = refl

validate_accepts_example :
    (signal_type : Text) × (endpoint_type : Text) × ((validate whole tools event).1
      ≡ record event { signal_type = signal_type; endpoint_type = endpoint_type })
    × HasPassed whole tools event
    × (canonical_in valid_signal_types lower (codes "Login") ≡ some signal_type)
    × (canonical_in valid_endpoint_types upper (codes "pos") ≡ some endpoint_type)
    × IsCanonical valid_signal_types lower (codes "Login") signal_type
    × IsCanonical valid_endpoint_types upper (codes "pos") endpoint_type
    × (validate whole tools (validate whole tools event).1 ≡ (none, (validate whole tools event).1))
validate_accepts_example = validate_accepts whole tools lower_keeps upper_keeps event valid

-- Two reads that differ only where the version goes.
abbrev ones : Bytes
ones i = 255

abbrev nearly_ones : Bytes
nearly_ones i = if i == 6 then 15 else 255

ones-AreBytes : AreBytes ones
ones-AreBytes i = omega arith

nearly_ones-AreBytes : AreBytes nearly_ones
nearly_ones-AreBytes i = ground arith

one_id : new_signal_id_from (some ones) ≡ new_signal_id_from (some nearly_ones)
unfolding new_signal_id_from stamped set_byte hex_range hex_digit
one_id = refl

new_signal_id_from_lem_example :
    (random_bits 7 (ones 7) ≡ random_bits 7 (nearly_ones 7))
    × ((id : Text) × (new_signal_id_from (some ones) ≡ some id) × (fits uuid4 id ≡ true))
new_signal_id_from_lem_example =
    new_signal_id_from_lem ones nearly_ones 7 ones-AreBytes nearly_ones-AreBytes one_id
      (omega arith)

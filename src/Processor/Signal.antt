-- ===== src/Processor/Signal.antt =====
-- RawData, AnonymizedSignal and AnonymizeSignal of internal/processor/anonymizer.go.
use edge_gw_project.Prelude.{ℕ, Bool, not, ◌&&◌, Option, none, some, ◌++◌, Text, codes}
use edge_gw_project.Prelude.{[], ◌∷◌, text_eq, trim_space, is_empty, if◌then◌else◌}
use edge_gw_project.Processor.Outside.{Floats, Toolkit}
use edge_gw_project.Processor.Normalize.{normalize_id, normalize_name, mosaic_key_material}
use edge_gw_project.Processor.Feature.{
  map_to_tier, geohash, geohash_precision, bucket_timestamp, zone_unknown,
}

-- A nil coordinate is `none`.
pub record RawData (F : Type 0) : Type 0 where
  pub id : Text
  pub name : Text
  pub national_id : Text
  pub account : Text
  pub amount : F
  pub latitude : Option F
  pub longitude : Option F
  pub timestamp : Text
  pub device_id : Text
  pub device_id_hash : Text
  pub ip : Text
  pub ip_hash : Text
  pub branch_id : Text
  pub signal_type : Text
  pub endpoint_type : Text
  pub counterparty_id : Text
  pub counterparty_national_id : Text
  pub transaction_ref : Text

-- The configured policy, KeyingBank or KeyingRegional. AnonymizeSignal treats every other text
-- as KeyingBank.
abbrev pub keying_regional : Text
keying_regional = codes "regional"

abbrev pub scope_bank : Text
scope_bank = codes "bank"

abbrev pub scope_regional : Text
scope_regional = codes "regional"

abbrev pub basis_national_id : Text
basis_national_id = codes "national_id"

abbrev pub basis_internal_id_fallback : Text
basis_internal_id_fallback = codes "internal_id_fallback"

abbrev pub missing_signal_id_sentinel : Text
missing_signal_id_sentinel = codes "MISSING_SIGNAL_ID"

-- A mosaic with its scope and basis.
pub record Mosaic : Type 0 where
  pub value : Text
  pub scope : Text
  pub basis : Text

-- The map Metadata: an entry that the source leaves out is `none`.
pub record Metadata : Type 0 where
  pub amount_tier : Text
  pub location_zone : Text
  pub account_hash : Text
  pub is_near_threshold : Bool
  pub device_id_hash : Option Text
  pub ip_hash : Option Text
  pub branch_id : Option Text
  pub endpoint_type : Option Text

pub record AnonymizedSignal : Type 0 where
  pub signal_id : Text
  pub institution_id : Text
  pub signal_type : Text
  pub identity : Mosaic
  pub mosaic_version : ℕ
  pub feature_version : ℕ
  pub timestamp : Text
  pub metadata : Metadata
  pub destination : Option Mosaic

-- The deployment's parameters of AnonymizeSignal.
pub record Settings (F : Type 0) : Type 0 where
  pub institution_id : Text
  pub salt : Text
  pub pepper : Text
  pub keying : Text
  pub reporting_threshold : F

-- NeedsFallbackSignalID
unfoldable pub needs_fallback_signal_id : Text → Bool
needs_fallback_signal_id ref = is_empty (trim_space ref)

-- A text, or `d` if it is empty.
abbrev pub or_else : Text → Text → Text
or_else d [] = d
or_else d (c ∷ s) = c ∷ s

-- An entry that is left out if it is empty.
abbrev pub present : Text → Option Text
present [] = none
present (c ∷ s) = some (c ∷ s)

module _ {F : Type 0} (fl : Floats F) (t : Toolkit) (s : Settings F) where
  -- The mosaic of a canonical national identifier.
  unfoldable pub national_mosaic : Text → Mosaic
  national_mosaic nid =
      if text_eq s.keying keying_regional
      then record {
        value = t.hmac_hex s.pepper (codes "v3|id|" ++ nid);
        scope = scope_regional;
        basis = basis_national_id;
      }
      else record {
        value = t.hmac_hex (mosaic_key_material s.salt s.pepper) (codes "v3|id|" ++ nid);
        scope = scope_bank;
        basis = basis_national_id;
      }

  -- The mosaic of a text made of internal identifiers.
  unfoldable pub local_mosaic : Text → Mosaic
  local_mosaic text = record {
    value = t.hmac_hex (mosaic_key_material s.salt s.pepper) (codes "v3|local|" ++ text);
    scope = scope_bank;
    basis = basis_internal_id_fallback;
  }

  -- Step 1 of AnonymizeSignal.
  unfoldable pub identity_of : RawData F → Mosaic
  identity_of r = elim (normalize_id t r.national_id) [
    | c ∷ nid ↦ national_mosaic (c ∷ nid)
    | [] ↦ local_mosaic (normalize_id t r.id ++ (b'|' ∷ normalize_name t r.name))
  ]

  -- The end of AnonymizeSignal.
  unfoldable pub destination_of : RawData F → Option Mosaic
  destination_of r = elim (normalize_id t r.counterparty_national_id) [
    | c ∷ nid ↦ some (national_mosaic (c ∷ nid))
    | [] ↦
        if is_empty r.counterparty_id
        then none
        else some (local_mosaic (normalize_id t r.counterparty_id))
  ]

  -- Step 6 of AnonymizeSignal, given the caller's fallback.
  unfoldable pub signal_id_of : Text → Text → Text
  signal_id_of ref fallback =
      if not (needs_fallback_signal_id ref)
      then t.hmac_hex s.salt (codes "v2|sigid|" ++ trim_space ref)
      else if is_empty (trim_space fallback)
      then missing_signal_id_sentinel
      else fallback

  -- Step 4 of AnonymizeSignal.
  unfoldable pub zone_of : Option F → Option F → Text
  zone_of (some lat) (some lon) = elim (geohash fl lat lon geohash_precision) [
    | none ↦ zone_unknown
    | some zone ↦ zone
  ]
  zone_of (some lat) none = zone_unknown
  zone_of none lon = zone_unknown

  -- Step 3 of AnonymizeSignal.
  unfoldable pub is_near : F → Bool
  is_near amount =
      fl.lt (fl.of_nat 0) s.reporting_threshold
      && fl.le (fl.nineteen_twentieths s.reporting_threshold) amount

  -- A hash that the caller gives, else the keyed hash of a value that is present.
  unfoldable pub hash_of : Text → Text → Text → Option Text
  hash_of domain [] [] = none
  hash_of domain [] (c ∷ value) = some (t.hmac_hex s.salt (domain ++ (c ∷ value)))
  hash_of domain (c ∷ given) value = some (c ∷ given)

  unfoldable pub metadata_of : RawData F → Metadata
  metadata_of r = record {
    amount_tier = map_to_tier fl r.amount;
    location_zone = zone_of r.latitude r.longitude;
    account_hash = t.hmac_hex s.salt (codes "v3|account|" ++ r.account);
    is_near_threshold = is_near r.amount;
    device_id_hash = hash_of (codes "v3|device|") r.device_id_hash r.device_id;
    ip_hash = hash_of (codes "v3|ip|") r.ip_hash r.ip;
    branch_id = present r.branch_id;
    endpoint_type = present r.endpoint_type;
  }

  -- AnonymizeSignal
  unfoldable pub anonymize_signal : RawData F → Text → AnonymizedSignal
  anonymize_signal r fallback = record {
    signal_id = signal_id_of r.transaction_ref fallback;
    institution_id = or_else (codes "BNK_DEFAULT") s.institution_id;
    signal_type = or_else (codes "transaction") r.signal_type;
    identity = identity_of r;
    mosaic_version = 3;
    feature_version = 1;
    timestamp = bucket_timestamp t r.timestamp;
    metadata = metadata_of r;
    destination = destination_of r;
  }

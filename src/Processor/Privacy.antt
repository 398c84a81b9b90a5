-- ===== src/Processor/Privacy.antt =====
-- What a signal reveals of the event (internal/processor/anonymizer.go).
use edge_gw_project.Prelude.{◌≡◌, ◌≢◌, refl, sym, ap, ◌∙◌, Text, Option, []}
use edge_gw_project.Processor.Outside.{Floats, Toolkit}
use edge_gw_project.Processor.Normalize.{normalize_id}
use edge_gw_project.Processor.Feature.{map_to_tier, bucket_timestamp}
use edge_gw_project.Processor.Mosaic.{identity_national}
use edge_gw_project.Processor.Signal.{
  RawData, Settings, anonymize_signal, identity_of, metadata_of, is_near, zone_of, destination_of,
}

module _ {F : Type 0} (fl : Floats F) (t : Toolkit) (s : Settings F) where
  -- The event with another amount, place and time.
  abbrev pub moved : RawData F → F → Option F → Option F → Text → RawData F
  moved r amount lat lon ts = record r {
    amount = amount;
    latitude = lat;
    longitude = lon;
    timestamp = ts;
  }

  -- The amount, the place and the time of an event reach the signal through the tier and the
  -- near-threshold flag, the zone and the bucket only: if those agree, so do the signals.
  pub amount_place_time_hidden :
      (r : RawData F) (amount : F) (lat lon : Option F) (ts fallback : Text)
      → map_to_tier fl r.amount ≡ map_to_tier fl amount
      → is_near fl t s r.amount ≡ is_near fl t s amount
      → zone_of fl t s r.latitude r.longitude ≡ zone_of fl t s lat lon
      → bucket_timestamp t r.timestamp ≡ bucket_timestamp t ts
      → anonymize_signal fl t s r fallback
        ≡ anonymize_signal fl t s (moved r amount lat lon ts) fallback
  unfolding anonymize_signal metadata_of identity_of destination_of
  amount_place_time_hidden r amount lat lon ts fallback tier near zone bucket =
      simp (tier, near, zone, bucket) refl

  -- The event of another person record with the same national identifier.
  abbrev pub renamed : RawData F → Text → Text → RawData F
  renamed r id name = record r { id = id; name = name }

  -- With a national identifier that is more than separators, the internal identifier and the
  -- name have no part in the signal.
  pub id_and_name_hidden :
      (r : RawData F) (id name fallback : Text)
      → normalize_id t r.national_id ≢ []
      → anonymize_signal fl t s (renamed r id name) fallback ≡ anonymize_signal fl t s r fallback
  unfolding anonymize_signal metadata_of destination_of
  id_and_name_hidden r id name fallback h =
      ap (λ m. record (anonymize_signal fl t s r fallback) { identity = m })
        (identity_national fl t s (renamed r id name) h ∙ sym (identity_national fl t s r h))

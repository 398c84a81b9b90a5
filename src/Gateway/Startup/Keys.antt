-- ===== src/Gateway/Startup/Keys.antt =====
-- The keys of the mosaics of a gateway that starts (cmd/gateway/main.go, validateStartup,
-- resolvePepper and the call of AnonymizeSignal; internal/processor/anonymizer.go,
-- mosaicKeyMaterial).
use edge_gw_project.Prelude.{
  ◌≡◌, ◌≢◌, refl, sym, ap, ◌∙◌, inl, inr, true, false, Option, none, some, Text, [], ◌∷◌, ◌++◌,
  codes, text_eq,
}
use edge_gw_project.Processor.Outside.{Floats, Toolkit}
use edge_gw_project.Processor.Normalize.{mosaic_key_material}
use edge_gw_project.Processor.Signal.{RawData, Mosaic, Settings, anonymize_signal}
use edge_gw_project.Processor.Mosaic.{IsKeyed, IsKeyedIfAny, scopes_are_keyings}
use edge_gw_project.Config.{GatewayConfig}
use edge_gw_project.Gateway.Startup.{Startup, pepper_env, validate_startup}
use edge_gw_project.Gateway.Startup.Laws.{validate_startup_iff}

-- The secrets that main reads from the environment.
pub record Secrets : Type 0 where
  pub hmac_secret : Text
  pub mosaic_pepper : Text
  pub regional_pepper : Text

-- What validateStartup looks at.
unfoldable pub startup_of : {F : Type 0} → GatewayConfig F → Secrets → Startup
startup_of c e = record {
  institution_id = c.institution_id;
  bank_salt = c.bank_salt;
  mode = c.mode;
  api_key = c.api_key;
  hub_endpoint_url = c.hub_endpoint_url;
  mosaic_keying = c.mosaic_keying;
  hmac_secret = e.hmac_secret;
  mosaic_pepper = e.mosaic_pepper;
  regional_pepper = e.regional_pepper;
}

-- What the handler of /process gives to AnonymizeSignal.
unfoldable pub settings_of : {F : Type 0} → GatewayConfig F → Secrets → Settings F
settings_of c e = record {
  institution_id = c.institution_id;
  salt = c.bank_salt;
  pepper = pepper_env (startup_of c e);
  keying = c.mosaic_keying;
  reporting_threshold = c.reporting_threshold;
}

key_material_ne : (salt pepper : Text) → salt ≢ [] → mosaic_key_material salt pepper ≢ []
unfolding mosaic_key_material
key_material_ne [] pepper h = absurd (h refl)
key_material_ne (a ∷ salt) [] h = h
key_material_ne (a ∷ salt) (c ∷ pepper) h = λ e. cc e

bank_not_regional : codes "bank" ≢ codes "regional"
unfolding text_eq
bank_not_regional e = let apart : true ≡ false = ap (text_eq (codes "bank")) e in cc apart

module _ {F : Type 0} (fl : Floats F) (t : Toolkit) where
  -- A MAC under a key that is not empty.
  abbrev pub HasKey : Mosaic → Type 0
  HasKey m = (key : Text) × (key ≢ []) × (text : Text) × (m.value ≡ t.hmac_hex key text)

  abbrev pub HasKeyIfAny : Option Mosaic → Type 0
  HasKeyIfAny none = Unit
  HasKeyIfAny (some m) = HasKey m

  module _ (c : GatewayConfig F) (e : Secrets)
      (ready : validate_startup (startup_of c e) ≡ []) where
    keyed : (m : Mosaic) → IsKeyed fl t (settings_of c e) m → HasKey m
    unfolding settings_of startup_of
    keyed m (inl (_, text, same)) =
        let (_, salt, _, _) = (validate_startup_iff (startup_of c e)).0 ready in
        (_, key_material_ne c.bank_salt (pepper_env (startup_of c e)) salt, text, same)
    keyed m (inr (_, regional, _, nid, same)) =
        let (_, _, _, k) = (validate_startup_iff (startup_of c e)).0 ready in
        elim k [
          | inl bank ↦ absurd (bank_not_regional (sym bank ∙ regional))
          | inr (_, pepper) ↦ (_, pepper, codes "v3|id|" ++ nid, same)
        ]

    keyed_if_any : (m : Option Mosaic) → IsKeyedIfAny fl t (settings_of c e) m → HasKeyIfAny m
    keyed_if_any none k = tt
    keyed_if_any (some m) k = keyed m k

    -- If validateStartup finds no problem, then no mosaic of any event is keyed with an empty key:
    -- the identity mosaic, and the destination mosaic if there is one, are MACs under a key that is
    -- not empty, under either keying and with or without a pepper.
    pub started_has_keys :
        (r : RawData F) (fallback : Text)
        → HasKey (anonymize_signal fl t (settings_of c e) r fallback).identity
          × HasKeyIfAny (anonymize_signal fl t (settings_of c e) r fallback).destination
    started_has_keys r fallback =
        let (i, d) = scopes_are_keyings fl t (settings_of c e) r fallback in
        (keyed _ i, keyed_if_any _ d)

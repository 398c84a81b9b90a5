-- ===== src/Config.antt =====
-- The configuration (internal/config/config.go, Load): the file, the environment over it, and the
-- defaults for what is still unset. A variable that is not set is the empty text, as os.Getenv
-- has it. InternalAdapterConfig, an opaque JSON object that nothing reads, is left out.
pub mod Laws
use edge_gw_project.Prelude.{
  ℕ, zero, suc, Option, none, some, Text, [], ◌∷◌, codes, map, trim_space, if◌then◌else◌,
}
use edge_gw_project.Processor.Outside.{Floats}

-- Go's int
pub data ℤ : Type 0 where
  pos : ℕ → ℤ
  negsuc : ℕ → ℤ

-- GatewayConfig
pub record GatewayConfig (F : Type 0) : Type 0 where
  pub mode : Text
  pub mosaic_keying : Text
  pub institution_id : Text
  pub api_key : Text
  pub hub_endpoint_url : Text
  pub bank_salt : Text
  pub local_log_retention_days : ℤ
  pub reporting_threshold : F

-- The variables that Load reads. The two numbers are what envInt and envFloat make of them.
pub record Environment (F : Type 0) : Type 0 where
  pub gateway_mode : Text
  pub mosaic_keying : Text
  pub institution_id : Text
  pub api_key : Text
  pub hub_api_url : Text
  pub bank_salt : Text
  pub local_log_retention_days : Option ℤ
  pub reporting_threshold : Option F

-- A variable over a value.
unfoldable pub override : Text → Text → Text
override [] value = value
override (c ∷ s) value = c ∷ s

unfoldable pub override_number : {F : Type 0} → Option F → F → F
override_number none value = value
override_number (some v) value = v

-- The retention, or 90 where it is not positive.
unfoldable pub positive_days : ℤ → ℤ
positive_days (pos zero) = pos 90
positive_days (pos (suc n)) = pos (suc n)
positive_days (negsuc n) = pos 90

module _ {F : Type 0} (fl : Floats F) (to_lower : ℕ → ℕ) where
  abbrev pub empty_config : GatewayConfig F
  empty_config = record {
    mode = [];
    mosaic_keying = [];
    institution_id = [];
    api_key = [];
    hub_endpoint_url = [];
    bank_salt = [];
    local_log_retention_days = pos 0;
    reporting_threshold = fl.of_nat 0;
  }

  -- Step 1: a file that cannot be opened or parsed is `none`.
  unfoldable pub from_file : Option (GatewayConfig F) → GatewayConfig F
  from_file none = empty_config
  from_file (some c) = c

  -- Step 2
  unfoldable pub from_environment : Environment F → GatewayConfig F → GatewayConfig F
  from_environment e c = record {
    mode = override e.gateway_mode c.mode;
    mosaic_keying = override e.mosaic_keying c.mosaic_keying;
    institution_id = override e.institution_id c.institution_id;
    api_key = override e.api_key c.api_key;
    hub_endpoint_url = override e.hub_api_url c.hub_endpoint_url;
    bank_salt = override e.bank_salt c.bank_salt;
    local_log_retention_days =
        override_number e.local_log_retention_days c.local_log_retention_days;
    reporting_threshold = override_number e.reporting_threshold c.reporting_threshold;
  }

  unfoldable pub normal_word : Text → Text → Text
  normal_word fallback s = override (map to_lower (trim_space s)) fallback

  unfoldable pub positive_threshold : F → F
  positive_threshold x = if fl.le x (fl.of_nat 0) then fl.of_nat 10000 else x

  -- Step 3
  unfoldable pub with_defaults : GatewayConfig F → GatewayConfig F
  with_defaults c = record c {
    mode = normal_word (codes "middleware") c.mode;
    mosaic_keying = normal_word (codes "bank") c.mosaic_keying;
    local_log_retention_days = positive_days c.local_log_retention_days;
    reporting_threshold = positive_threshold c.reporting_threshold;
  }

  -- Load, with what it has cached.
  unfoldable pub load :
      Option (GatewayConfig F) → Option (GatewayConfig F) → Environment F → GatewayConfig F
  load (some c) file e = c
  load none file e = with_defaults (from_environment e (from_file file))

  -- Reload: the cached configuration is forgotten.
  unfoldable pub reload :
      Option (GatewayConfig F) → Option (GatewayConfig F) → Environment F → GatewayConfig F
  unfolding load
  reload cached file e = load none file e

  -- Get
  unfoldable pub get :
      Option (GatewayConfig F) → Option (GatewayConfig F) → Environment F → GatewayConfig F
  unfolding load
  get cached file e = load cached file e

-- envInt and envFloat, given what strconv makes of the text.
unfoldable pub env_number : {A : Type 0} → (Text → Option A) → Text → Option A
env_number parse [] = none
env_number parse (c ∷ s) = parse (c ∷ s)

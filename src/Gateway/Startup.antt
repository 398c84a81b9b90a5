-- ===== src/Gateway/Startup.antt =====
-- The checks at start (cmd/gateway/main.go, validateStartup and pepperEnv).
pub mod Laws
pub mod Keys
use edge_gw_project.Prelude.{Bool, true, false, List, [], ◌∷◌, ◌++◌, Text}
use edge_gw_project.Prelude.{codes, text_eq, is_empty, if◌then◌else◌}

-- What validateStartup reads of the configuration, and the environment.
pub record Startup : Type 0 where
  pub institution_id : Text
  pub bank_salt : Text
  pub mode : Text
  pub api_key : Text
  pub hub_endpoint_url : Text
  pub mosaic_keying : Text
  pub hmac_secret : Text
  pub mosaic_pepper : Text
  pub regional_pepper : Text

-- The problems that validateStartup reports, by their messages.
pub data Problem : Type 0 where
  no_institution_id no_bank_salt no_api_key no_endpoint no_hmac_secret no_pepper : Problem
  unknown_mode : Text → Problem
  unknown_keying : Text → Problem

-- pepperEnv
unfoldable pub pepper_env : Startup → Text
pepper_env c = if is_empty c.mosaic_pepper then c.regional_pepper else c.mosaic_pepper

abbrev pub when : Bool → Problem → List Problem
when true p = p ∷ []
when false p = []

unfoldable pub mode_problems : Startup → List Problem
mode_problems c =
    if text_eq c.mode (codes "standalone")
    then []
    else if text_eq c.mode (codes "middleware")
    then when (is_empty c.api_key) no_api_key
      ++ (when (is_empty c.hub_endpoint_url) no_endpoint
          ++ when (is_empty c.hmac_secret) no_hmac_secret)
    else unknown_mode c.mode ∷ []

unfoldable pub keying_problems : Startup → List Problem
keying_problems c =
    if text_eq c.mosaic_keying (codes "bank")
    then []
    else if text_eq c.mosaic_keying (codes "regional")
    then when (is_empty (pepper_env c)) no_pepper
    else unknown_keying c.mosaic_keying ∷ []

-- validateStartup
unfoldable pub validate_startup : Startup → List Problem
validate_startup c =
    when (is_empty c.institution_id) no_institution_id
    ++ (when (is_empty c.bank_salt) no_bank_salt ++ (mode_problems c ++ keying_problems c))

-- ===== src/Propeller/Config/Tests.antt =====
-- The settings of Fixtures against `validate`.
use payment_processing.Common.{◌≡◌, refl, none, ok, err}
use payment_processing.Propeller.Config.{default_auth_config, from_raw, validate}
use payment_processing.Propeller.Config.Fixtures.{propeller}

propeller_valid : validate propeller ≡ ok tt
unfolding validate
propeller_valid = refl

-- The defaults alone are refused: they enable authentication and name no issuer.
default_auth_refused :
    validate (record propeller { auth = default_auth_config })
    ≡ err "auth.jwt.issuer is required when auth is enabled"
unfolding validate
default_auth_refused = refl

-- An empty section gives the defaults.
from_raw_empty :
    from_raw (record {
      enabled = none;
      legacy_header_mode = none;
      tenant_claim = none;
      legacy_tenant = none;
      api_keys = none;
      jwt = none;
    })
    ≡ default_auth_config
unfolding from_raw
from_raw_empty = refl

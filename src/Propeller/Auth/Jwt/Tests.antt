-- ===== src/Propeller/Auth/Jwt/Tests.antt =====
-- A token built and read back, with an encoding that writes a byte as so many letters.
use Prim.Native.Char.{code}
use payment_processing.Common.{
  ℕ, zero, suc, ◌+◌, true, String, ◌==◌, ◌≡◌, ◌≢◌, refl, ap, ◌∙◌, [], ◌∷◌, Option, none, some, ok,
  err, ◌>>=◌, take, arith, if◌then◌else◌,
}
use payment_processing.Common.Text.{Lacks}
use payment_processing.Propeller.Config.{AuthConfig, default_auth_config}
use payment_processing.Propeller.Error.{unauthenticated}
use payment_processing.Propeller.Auth.Signature.{Bytes}
use payment_processing.Propeller.Auth.Claims.{JwtClaims, string, validate_claims, parse_scopes}
use payment_processing.Propeller.Auth.Jwt.{Platform, decode_jwt, context_of}
use payment_processing.Propeller.Auth.Jwt.Build.{build_jwt, mac, Decodes, decode_jwt-build_jwt}

abbrev codes : String → Bytes
codes String.[] = []
codes (String.◌∷◌ c s) = code c ∷ codes s

-- A byte as so many a's and a b.
abbrev letters : ℕ → String → String
letters zero rest = String.◌∷◌ "b" rest
letters (suc n) rest = String.◌∷◌ "a" (letters n rest)

abbrev encode : Bytes → String
encode [] = ""
encode (byte ∷ bytes) = letters byte (encode bytes)

abbrev with_byte : ℕ → Option Bytes → Option Bytes
with_byte n none = none
with_byte n (some bytes) = some (n ∷ bytes)

abbrev count : ℕ → Bytes → Option Bytes
count n [] = some []
count n (c ∷ cs) = if c == b'a' then count (suc n) cs else with_byte n (count 0 cs)

abbrev claims : JwtClaims
claims = record {
  sub = some "user_1";
  exp = some 1000;
  nbf = none;
  iss = some "issuer";
  aud = some (string "audience");
  client_id = none;
  scope = none;
  scopes = none;
  extra = ("tenant_id", string "tenant_1") ∷ [];
}

abbrev platform : Platform
platform = record {
  as_bytes = codes;
  sha256 = take 2;
  decode_base64 = count 0;
  from_slice = λ bytes. some claims;
  now = some 990;
}

abbrev config : AuthConfig
config = record default_auth_config {
  enabled = true;
  tenant_claim = "tenant_id";
  jwt = record {
    issuer = "issuer";
    audience = "audience";
    clock_skew_secs = 0;
    hmac_secret = some "secret";
    jwks_url = none;
  };
}

count-letters :
    (n k : ℕ) (rest : String)
    → count n (codes (letters k rest)) ≡ with_byte (n + k) (count 0 (codes rest))
count-letters n zero rest = ap (λ m. with_byte m (count 0 (codes rest))) (omega arith)
count-letters n (suc k) rest =
    count-letters (suc n) k rest ∙ ap (λ m. with_byte m (count 0 (codes rest))) (omega arith)

count-encode : (bytes : Bytes) → count 0 (codes (encode bytes)) ≡ some bytes
count-encode [] = refl
count-encode (byte ∷ bytes) =
    count-letters 0 byte (encode bytes)
    ∙ ap (λ m. with_byte m (count 0 (codes (encode bytes)))) (omega arith)
    ∙ ap (with_byte byte) (count-encode bytes)

letters-Lacks : (k : ℕ) (rest : String) → Lacks b'.' rest → Lacks b'.' (letters k rest)
letters-Lacks zero rest h = ((λ e. grind arith), h)
letters-Lacks (suc k) rest h = ((λ e. grind arith), letters-Lacks k rest h)

encode-Lacks : (bytes : Bytes) → Lacks b'.' (encode bytes)
encode-Lacks [] = tt
encode-Lacks (byte ∷ bytes) = letters-Lacks byte (encode bytes) (encode-Lacks bytes)

platform-Decodes : Decodes platform encode
platform-Decodes = record { decode-encode = count-encode; encode-Lacks = encode-Lacks }

decode_jwt-build_jwt_example :
    let decoded =
      decode_jwt platform config (build_jwt platform encode "secret" (1 ∷ []) (2 ∷ 3 ∷ [])) in
    let expected = mac platform encode "secret" (1 ∷ []) (2 ∷ 3 ∷ []) in
    (expected ≡ expected
      → decoded ≡ (validate_claims config.jwt (some 990) claims >>= λ _. context_of config claims))
    × (expected ≢ expected → decoded ≡ err (unauthenticated "jwt signature verification failed"))
decode_jwt-build_jwt_example =
    decode_jwt-build_jwt platform encode platform-Decodes config "secret" "secret" (1 ∷ [])
      (2 ∷ 3 ∷ []) claims refl refl

-- The claims of the token are accepted.
built_accepted :
    (validate_claims config.jwt (some 990) claims >>= λ _. context_of config claims)
    ≡ ok record { subject = "user_1"; tenant_id = "tenant_1"; client_id = "user_1"; scopes = [] }
unfolding validate_claims context_of parse_scopes
built_accepted = refl

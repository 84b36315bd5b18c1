-- ===== src/Propeller/Auth/Claims.antt =====
-- The claims of a JWT and their checks, from approach-2/src/auth/mod.rs.
pub mod Acceptance
use Prim.Native.Char.{code}
use payment_processing.Common.{
  ℕ, ◌+◌, ◌%◌, ◌^◌, String, Bool, true, false, ◌||◌, ◌&&◌, List, [], ◌∷◌, ◌++◌, Option, none, some,
  Result, ok, err, ◌>>=◌, ◌>>◌, ◌==◌, ltb, leb, any, if◌then◌else◌, unwrap_or, not,
}
use payment_processing.Common.Text.{◌==◌ as same_text, is_empty}
use payment_processing.Propeller.Config.{JwtConfig}
use payment_processing.Propeller.Error.{PropellerError, unauthenticated, internal}

-- `serde_json::Value`; a number is its printed form.
mutual
  pub data Value : Type 0 where
    null : Value
    bool : Bool → Value
    number : String → Value
    string : String → Value
    array : Values → Value
    object : Fields → Value

  pub data Values : Type 0 where
    nil : Values
    cons : Value → Values → Values

  pub data Fields : Type 0 where
    end : Fields
    field : String → Value → Fields → Fields

pub record JwtClaims : Type 0 where
  pub sub : Option String
  pub exp : Option ℕ
  pub nbf : Option ℕ
  pub iss : Option String
  pub aud : Option Value
  pub client_id : Option String
  pub scope : Option String
  pub scopes : Option (List String)
  pub extra : List (String × Value)

abbrev pub value_to_string : Value → Option String
value_to_string (string v) = some v
value_to_string (number v) = some v
value_to_string _ = none

abbrev pub is_string : String → Value → Bool
is_string expected (string v) = same_text v expected
is_string expected _ = false

abbrev pub any_string : String → Values → Bool
any_string expected nil = false
any_string expected (cons v vs) = is_string expected v || any_string expected vs

unfoldable pub aud_matches : Option Value → String → Bool
aud_matches (some (string single)) expected = same_text single expected
aud_matches (some (array list)) expected = any_string expected list
aud_matches _ expected = false

-- `usize` addition in a release build.
abbrev pub add_usize : ℕ → ℕ → ℕ
add_usize a b = (a + b) % 2 ^ 64

abbrev reject_if : Bool → String → Result PropellerError (Unit {0})
reject_if true msg = err (unauthenticated msg)
reject_if false msg = ok tt

-- `claims.iss.as_deref() != Some(issuer)`
abbrev pub is_issuer : Option String → String → Bool
is_issuer none issuer = false
is_issuer (some iss) issuer = same_text iss issuer

abbrev pub not_before : Option ℕ → ℕ → ℕ → Result PropellerError (Unit {0})
not_before none now leeway = ok tt
not_before (some nbf) now leeway = reject_if (ltb (add_usize now leeway) nbf) "jwt not active yet"

abbrev pub not_expired : Option ℕ → ℕ → ℕ → Result PropellerError (Unit {0})
not_expired none now leeway = err (unauthenticated "jwt exp missing")
not_expired (some exp) now leeway = reject_if (ltb (add_usize exp leeway) now) "jwt expired"

abbrev read_clock : Option ℕ → Result PropellerError ℕ
read_clock none = err (internal "system time error")
read_clock (some now) = ok now

-- `AuthService::validate_claims`; the clock gives no time if it stands before 1970.
unfoldable pub validate_claims : JwtConfig → Option ℕ → JwtClaims → Result PropellerError (Unit {0})
unfolding aud_matches
validate_claims jwt clock claims = do
  reject_if (not (is_issuer claims.iss jwt.issuer)) "invalid jwt issuer"
  reject_if (not (aud_matches claims.aud jwt.audience)) "invalid jwt audience"
  now ← read_clock clock
  not_before claims.nbf now jwt.clock_skew_secs
  not_expired claims.exp now jwt.clock_skew_secs

-- `char::is_whitespace`
is_whitespace : ℕ → Bool
is_whitespace c =
    (leb 9 c && leb c 13)
    || c == 32
    || c == 0x85
    || c == 0xa0
    || c == 0x1680
    || (leb 0x2000 c && leb c 0x200a)
    || c == 0x2028
    || c == 0x2029
    || c == 0x202f
    || c == 0x205f
    || c == 0x3000

push_word : String → List String → List String
push_word word words = if is_empty word then words else word ∷ words

-- The word that the text begins with, and the words behind it.
words_of : String → String × List String
words_of String.[] = ("", [])
words_of (String.◌∷◌ c s) =
    let (word, words) = words_of s in
    if is_whitespace (code c) then ("", push_word word words) else (String.◌∷◌ c word, words)

-- `str::split_whitespace`
unfoldable pub split_whitespace : String → List String
unfolding words_of push_word is_whitespace
split_whitespace s = let (word, words) = words_of s in push_word word words

-- `HashSet::insert`; the set is the list of its members, in the order in which they came, where the
-- source's iteration order is left open.
unfoldable pub insert_scope : String → List String → List String
insert_scope item out = if any (λ s. same_text s item) out then out else out ++ item ∷ []

unfoldable pub insert_scopes : List String → List String → List String
unfolding insert_scope
insert_scopes [] out = out
insert_scopes (item ∷ items) out = insert_scopes items (insert_scope item out)

abbrev words_in : Option String → List String
words_in none = []
words_in (some scope) = split_whitespace scope

unfoldable pub parse_scopes : Option String → Option (List String) → List String
unfolding insert_scopes split_whitespace
parse_scopes scope scopes = insert_scopes (unwrap_or scopes []) (insert_scopes (words_in scope) [])

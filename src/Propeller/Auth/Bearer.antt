-- ===== src/Propeller/Auth/Bearer.antt =====
-- `extract_bearer` of approach-2/src/auth/mod.rs.
pub mod Schemes
use Prim.Native.Char.{code}
use payment_processing.Common.{
  ℕ, ◌+◌, String, Bool, true, false, ◌&&◌, not, Option, none, some, ◌==◌, leb, if◌then◌else◌,
}
use payment_processing.Common.Text.{is_empty}

-- `value.splitn(2, ' ')`: what stands before the first space, and what stands behind it if there is
-- one.
unfoldable pub split_at_space : String → String × Option String
split_at_space String.[] = ("", none)
split_at_space (String.◌∷◌ c s) =
    let (head, rest) = split_at_space s in
    if code c == b' ' then ("", some s) else (String.◌∷◌ c head, rest)

-- The code of a letter in lower case, for ASCII letters.
abbrev lower : ℕ → ℕ
lower c = if leb b'A' c && leb c b'Z' then c + 32 else c

-- `str::eq_ignore_ascii_case`
unfoldable pub eq_ignore_ascii_case : String → String → Bool
eq_ignore_ascii_case String.[] String.[] = true
eq_ignore_ascii_case String.[] (String.◌∷◌ d t) = false
eq_ignore_ascii_case (String.◌∷◌ c s) String.[] = false
eq_ignore_ascii_case (String.◌∷◌ c s) (String.◌∷◌ d t) =
    lower (code c) == lower (code d) && eq_ignore_ascii_case s t

abbrev pub bearer_token : String × Option String → Option String
bearer_token (scheme, none) = none
bearer_token (scheme, some token) =
    if eq_ignore_ascii_case scheme "bearer" && not (is_empty token) then some token else none

unfoldable pub extract_bearer : String → Option String
unfolding split_at_space eq_ignore_ascii_case
extract_bearer value = bearer_token (split_at_space value)

-- ===== src/Common/Text.antt =====
-- Texts: equality as a test, characters by their code points, and texts free of a character.
use Prim.Native.Char.{Char, code}
use Prim.Native.Nat.{ℕ}
use Prim.Native.String.{String}
use mathlib.Core.Path.{◌≡◌, refl, ◌∙◌, ap, subst}
use mathlib.Core.Logic.{◌≢◌}
use mathlib.Core.Bool.{Bool, true, false}
use text.Mathlib.Text.{◌==◌}
use text.Mathlib.TextLemmas.{
  cons-append, nil-append, cons-eq-cons, head-eq_of_cons-eq, tail-eq_of_cons-eq,
}
pub use Prim.Native.String.{◌++◌}
pub use text.Mathlib.Text.{◌==◌}
pub use text.Mathlib.TextEquality.{eq_iff}
pub use text.Mathlib.TextPositions.{eq_refl}
pub use text.Mathlib.TextLemmas.{append_assoc, append_cancel_left}

-- `str::is_empty`
abbrev pub is_empty : String → Bool
is_empty String.[] = true
is_empty (String.◌∷◌ c s) = false

-- The text holds no character with this code.
abbrev pub Lacks : ℕ → String → Type 0
Lacks b String.[] = Unit
Lacks b (String.◌∷◌ c s) = (code c ≢ b) × Lacks b s

-- Up to the first separator, two texts agree as a whole or not at all.
pub split_unique :
    (sep : Char) (s t u v : String)
    → Lacks (code sep) s
    → Lacks (code sep) t
    → s ++ String.◌∷◌ sep u ≡ t ++ String.◌∷◌ sep v
    → (s ≡ t) × (u ≡ v)
split_unique sep String.[] String.[] u v hs ht e = (refl, tail-eq_of_cons-eq (simp nil-append at e))
split_unique sep String.[] (String.◌∷◌ d t) u v hs ht e =
    absurd (ht.0 (cc (head-eq_of_cons-eq (simp (nil-append, cons-append) at e))))
split_unique sep (String.◌∷◌ c s) String.[] u v hs ht e =
    absurd (hs.0 (cc (head-eq_of_cons-eq (simp (nil-append, cons-append) at e))))
split_unique sep (String.◌∷◌ c s) (String.◌∷◌ d t) u v hs ht e =
    let (same_head, same_tail) = cons-eq-cons.0 (simp cons-append at e) in
    let (same, rest) = split_unique sep s t u v hs.1 ht.1 same_tail in (cc, rest)

abbrev pub colon : Char
colon = ":"

abbrev pub space : Char
space = " "

pub space-append : (u : String) → " " ++ u ≡ String.◌∷◌ space u
space-append u = cons-append space "" u ∙ ap (String.◌∷◌ space) (nil-append u)

colon-append : (u : String) → ":" ++ u ≡ String.◌∷◌ colon u
colon-append u = cons-append colon "" u ∙ ap (String.◌∷◌ colon) (nil-append u)

-- The same for two texts joined by a colon.
pub joined_unique :
    (s t u v : String)
    → Lacks (code colon) s
    → Lacks (code colon) t
    → s ++ (":" ++ u) ≡ t ++ (":" ++ v)
    → (s ≡ t) × (u ≡ v)
joined_unique s t u v hs ht e = split_unique colon s t u v hs ht (simp colon-append at e)

pub not-Lacks-joined : (s u : String) → ¬ (Lacks (code colon) (s ++ (":" ++ u)))
not-Lacks-joined String.[] u h =
    (subst (Lacks (code colon)) (nil-append _ ∙ colon-append u) h).0 refl
not-Lacks-joined (String.◌∷◌ c s) u h =
    not-Lacks-joined s u (subst (Lacks (code colon)) (cons-append c s _) h).1

-- ===== src/Propeller/Auth/Service/Calls.antt =====
-- Which gRPC calls get in, against the HTTP requests with the same headers.
use payment_processing.Common.{
  String, ◌≡◌, ◌↔◌, ◌⊎◌, inl, inr, refl, Bool, true, false, ◌||◌, none, ok, arith, Bool-cases,
}
use payment_processing.Common.Text.{◌==◌ as same_text}
use payment_processing.Propeller.Config.{AuthConfig, ClientConfig}
use payment_processing.Propeller.Auth.Jwt.{Platform, AuthContext}
use payment_processing.Propeller.Auth.Service.{
  Headers, Metadata, legacy_context, legacy_context_from_http, legacy_context_from_grpc,
  extract_http_bearer, extract_grpc_bearer, authenticate_http, authenticate_grpc,
}

-- The name ends in "-bin", as those of binary values do in gRPC.
abbrev pub is_binary : String → Bool
is_binary String.[] = false
is_binary (String.◌∷◌ c s) = same_text (String.◌∷◌ c s) "-bin" || is_binary s

-- What `MetadataMap::get` finds of the headers that a call came with.
pub record IsMetadataOf (headers : Headers) (metadata : Metadata) : Type 0 where
  pub text : (name : String) → is_binary name ≡ false → metadata name ≡ headers name
  pub binary : (name : String) → is_binary name ≡ true → metadata name ≡ none

module _ (platform : Platform) (config : AuthConfig) (client : ClientConfig) where
  -- Where both find the same in the two headers that they read.
  same_headers :
      (headers : Headers) (metadata : Metadata) (ctx : AuthContext) (flag : Bool)
      → metadata "authorization" ≡ headers "authorization"
      → metadata client.header ≡ headers client.header
      → (authenticate_grpc platform config metadata client ≡ ok (ctx, flag))
        ↔ (authenticate_http platform config headers client ≡ ok (ctx, flag))
  unfolding authenticate_grpc authenticate_http extract_grpc_bearer extract_http_bearer
      legacy_context_from_grpc legacy_context_from_http
  same_headers headers metadata ctx flag token legacy = rw (token, legacy) (ground arith)

  -- Where the call has no legacy header.
  headers_hidden :
      (headers : Headers) (metadata : Metadata) (ctx : AuthContext) (flag : Bool)
      → metadata "authorization" ≡ headers "authorization"
      → metadata client.header ≡ none
      → (authenticate_grpc platform config metadata client ≡ ok (ctx, flag))
        ↔ (authenticate_http platform config headers client ≡ ok (ctx, flag))
          × (config.enabled ≡ true)
          × (flag ≡ false)
  unfolding authenticate_grpc authenticate_http extract_grpc_bearer extract_http_bearer
      legacy_context_from_grpc legacy_context_from_http legacy_context
  headers_hidden headers metadata ctx flag token hidden = rw (token, hidden) (ground arith)

  -- Where the metadata of a call shows its headers but those whose name ends in "-bin": the gRPC entry
  -- point lets in exactly the calls that the HTTP entry point would let in with the same headers, and
  -- as the same clients, except that, if the configured client header ends in "-bin", only tokens
  -- count, and only with authentication on.
  pub authenticate_grpc_iff :
      (headers : Headers) (metadata : Metadata) (ctx : AuthContext) (flag : Bool)
      → IsMetadataOf headers metadata
      → (authenticate_grpc platform config metadata client ≡ ok (ctx, flag))
        ↔ (authenticate_http platform config headers client ≡ ok (ctx, flag))
          × ((is_binary client.header ≡ false) ⊎ ((config.enabled ≡ true) × (flag ≡ false)))
  authenticate_grpc_iff headers metadata ctx flag of = elim (Bool-cases (is_binary client.header)) [
    | inl e ↦
        let (here, there) =
          headers_hidden headers metadata ctx flag (of.text "authorization" refl)
            (of.binary client.header e) in
        (
          (λ h. let (let_in, on, token) = here h in (let_in, inr (on, token))),
          λ (h, rest). elim rest [
            | inl n ↦ absurd (not_both e n)
            | inr (on, token) ↦ there (h, on, token)
          ],
        )
    | inr e ↦
        let (here, there) =
          same_headers headers metadata ctx flag (of.text "authorization" refl)
            (of.text client.header e) in
        ((λ h. (here h, inl e)), λ (h, rest). there h)
  ]
    where
      not_both : {b : Bool} → b ≡ true → b ≡ false → ⊥
      not_both p q = cc

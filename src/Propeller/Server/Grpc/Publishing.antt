-- ===== src/Propeller/Server/Grpc/Publishing.antt =====
-- Which of the publishers' calls of approach-2/src/server/grpc_handler.rs publish, and where.
use payment_processing.Common.{
  String, ◌≡◌, ◌⊎◌, inl, inr, refl, subst, Bool, true, false, Bool-cases, ◌↔◌, some, Result, ok,
  err, Result-cases,
}
use payment_processing.Propeller.Error.{Status, to_status}
use payment_processing.Propeller.Auth.Jwt.{Platform, AuthContext}
use payment_processing.Propeller.Auth.Service.{Metadata, authorize_api_key_grpc}
use payment_processing.Propeller.Auth.Service.Requests.{IsOneOf, authorize_api_key_grpc_iff}
use payment_processing.Propeller.Ports.{PubSub, KeyValue}
use payment_processing.Propeller.Push.{World, Json}
use payment_processing.Propeller.Server.Entry.{Settings, auth_client, authorize_publisher}
use payment_processing.Propeller.Server.Grpc.Publishers.{
  IsObserved, Confined, Publication, answer, Allowed, answer-Allowed,
}

-- The call has one of the configured keys, where authentication is on.
abbrev pub HasKey : Settings → Metadata → Type 0
HasKey settings metadata =
    (settings.auth.enabled ≡ false)
    ⊎ ((key : String) × (metadata "x-api-key" ≡ some key) × IsOneOf key settings.auth.api_keys)

module _ (platform : Platform) (settings : Settings) (metadata : Metadata) where
  authorize_api_key_grpc-HasKey :
      (authorize_api_key_grpc settings.auth metadata ≡ ok tt) ↔ HasKey settings metadata
  unfolding authorize_api_key_grpc
  authorize_api_key_grpc-HasKey = elim (Bool-cases settings.auth.enabled) [
    | inl on ↦
        let (here, there) = authorize_api_key_grpc_iff settings.auth metadata on in
        (
          (λ h. inr (here h)),
          λ k. elim k [ inl off ↦ absurd (not_both on off) | inr key ↦ there key ],
        )
    | inr off ↦ ((λ h. inl off), λ k. rw off refl)
  ]
    where
      not_both : {b : Bool} → b ≡ true → b ≡ false → ⊥
      not_both p q = cc

  -- What lets a publisher in, and what keeps it out.
  authorize_publisher-cases :
      ((ctx : AuthContext) × (flag : Bool) × (authorize_publisher platform settings metadata
          ≡ ok ctx)
        × HasKey settings metadata
        × (auth_client platform settings metadata ≡ ok (ctx, flag)))
      ⊎ ((status : Status) × (authorize_publisher platform settings metadata ≡ err status)
          × ((¬ (HasKey settings metadata))
              ⊎ ((e : Status) × (auth_client platform settings metadata ≡ err e))))
  unfolding authorize_publisher
  authorize_publisher-cases = elim (Result-cases (authorize_api_key_grpc settings.auth metadata)) [
    | inl (u, accepted) ↦ elim (Result-cases (auth_client platform settings metadata)) [
      | inl ((ctx, flag), known) ↦
          inl
            (ctx, flag, rw (accepted, known) refl, authorize_api_key_grpc-HasKey.0 accepted, known)
      | inr (e, unknown) ↦ inr (e, rw (accepted, unknown) refl, inr (e, unknown))
    ]
    | inr (e, refused) ↦ inr (
      to_status e,
      rw refused refl,
      inl (λ k. not_both (authorize_api_key_grpc-HasKey.1 k) refused),
    )
  ]
    where
      not_both : {A E : Type 0} {r : Result E A} {a : A} {e : E} → r ≡ ok a → r ≡ err e → ⊥
      not_both p q = cc

module _ {S K : Type 0} (pubsub : PubSub S) (kv : KeyValue K) (json : Json) (platform : Platform)
    (settings : Settings) where
  -- A publisher's call has one of the configured keys, if authentication is on, and comes from a caller
  -- that is authenticated, and then it publishes on channels of its caller's tenant only; or it lacks
  -- one of the two, and then it fails and changes nothing.
  pub answer-HasKey :
      (seen : IsObserved pubsub) (publication : Publication) (metadata : Metadata) (w : World S K)
      → let end = answer pubsub kv json platform settings publication metadata w in
        ((ctx : AuthContext) × (flag : Bool) × HasKey settings metadata
          × (auth_client platform settings metadata ≡ ok (ctx, flag))
          × Confined pubsub kv json seen ctx.tenant_id w end.1)
        ⊎ ((status : Status) × (end ≡ (err status, w))
            × ((¬ (HasKey settings metadata))
                ⊎ ((e : Status) × (auth_client platform settings metadata ≡ err e))))
  answer-HasKey seen publication metadata w =
      let permits : Result Status AuthContext → Type 0 = λ caller.
        Allowed pubsub kv json platform settings seen w caller
          (answer pubsub kv json platform settings publication metadata w) in
      let allowed = answer-Allowed pubsub kv json platform settings seen publication metadata w in
      elim (authorize_publisher-cases platform settings metadata) [
        | inl (ctx, flag, let_in, key, known) ↦
            inl (ctx, flag, key, known, subst permits let_in allowed)
        | inr (status, refused, why) ↦ inr (status, subst permits refused allowed, why)
      ]

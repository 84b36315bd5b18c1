-- ===== src/Payments/Gateway/Choice.antt =====
-- Which gateway `pick_checkout` settles on.
use payment_processing.Common.{
  ℕ, String, ◌≡◌, refl, ◌↔◌, List, [], ◌∷◌, ◌++◌, Option, none, some, Result, ok, err, All, arith,
  Result-cases, inl, inr,
}
use payment_processing.Payments.Models.{Uuid, PaymentMethod}
use payment_processing.Payments.Gateway.{
  CheckoutSession, PaymentGateway, failure, pick_from, pick_checkout, gateways,
}

module _ (order_id payment_id : Uuid) (method : PaymentMethod) (now : ℕ) where
  abbrev attempt : PaymentGateway → Result String CheckoutSession
  attempt g = g.create_checkout order_id payment_id method now

  abbrev pub Fails : PaymentGateway → Type 0
  Fails g = (e : String) × (attempt g ≡ err e)

  -- `g` is the first gateway of the list that opens a checkout, and `session` is what it gave.
  pub record FirstSuccess (gs : List PaymentGateway) (session : CheckoutSession) : Type 0 where
    pub before : List PaymentGateway
    pub chosen : PaymentGateway
    pub after : List PaymentGateway
    pub position : gs ≡ before ++ chosen ∷ after
    pub refused : All Fails before
    pub opened : attempt chosen ≡ ok session

  pick_from-FirstSuccess :
      (gs : List PaymentGateway) (last : Option String) (session : CheckoutSession)
      → pick_from gs last order_id payment_id method now ≡ ok session
      → FirstSuccess gs session
  unfolding pick_from
  pick_from-FirstSuccess [] last session h = cc
  pick_from-FirstSuccess (g ∷ gs) last session h = elim (Result-cases (attempt g)) [
    | inl (s, e) ↦ record {
      before = [];
      chosen = g;
      after = gs;
      position = refl;
      refused = tt;
      opened = ground arith;
    }
    | inr (m, e) ↦
        let rest = pick_from-FirstSuccess gs (some (failure g m)) session (ground arith) in
        record {
          before = g ∷ rest.before;
          chosen = rest.chosen;
          after = rest.after;
          position = ground (arith, rest.position);
          refused = ((m, e), rest.refused);
          opened = rest.opened;
        }
  ]

  pick_from-of_FirstSuccess :
      (before : List PaymentGateway) (chosen : PaymentGateway) (after : List PaymentGateway)
      (last : Option String) (session : CheckoutSession)
      → All Fails before
      → attempt chosen ≡ ok session
      → pick_from (before ++ chosen ∷ after) last order_id payment_id method now ≡ ok session
  unfolding pick_from
  pick_from-of_FirstSuccess [] chosen after last session h e = rw (e, pick_from)
  pick_from-of_FirstSuccess (g ∷ gs) chosen after last session ((m, e), h) opened =
      rw (e, pick_from)
        (pick_from-of_FirstSuccess gs chosen after (some (failure g m)) session h opened)

  -- `pick_checkout` returns a session exactly when some gateway opens it and every gateway listed
  -- before that one fails.
  pub pick_checkout-eq-ok_iff :
      (gs : List PaymentGateway) (session : CheckoutSession)
      → (pick_checkout gs order_id payment_id method now ≡ ok session) ↔ FirstSuccess gs session
  unfolding pick_checkout
  pick_checkout-eq-ok_iff gs session = (
    pick_from-FirstSuccess gs none session,
    λ f.
        rw f.position
          (pick_from-of_FirstSuccess f.before f.chosen f.after none session f.refused f.opened),
  )

  pick_from-append_err :
      (before : List PaymentGateway) (g : PaymentGateway) (last : Option String) (e : String)
      → All Fails before
      → attempt g ≡ err e
      → pick_from (before ++ g ∷ []) last order_id payment_id method now ≡ err (failure g e)
  unfolding pick_from
  pick_from-append_err [] g last e h failed = rw (failed, pick_from)
  pick_from-append_err (f ∷ fs) g last e ((m, refused), h) failed =
      rw (refused, pick_from) (pick_from-append_err fs g (some (failure f m)) e h failed)

  -- Where every gateway fails, the call reports the failure of the last one of the list alone.
  pub pick_checkout-append_err :
      (before : List PaymentGateway) (g : PaymentGateway) (e : String)
      → All Fails before
      → attempt g ≡ err e
      → pick_checkout (before ++ g ∷ []) order_id payment_id method now ≡ err (failure g e)
  unfolding pick_checkout
  pick_checkout-append_err before g e = pick_from-append_err before g none e

-- With the gateways that the API starts with, each checkout is opened, at the first of them.
pub pick_checkout-gateways :
    (uuid_text : Uuid → String) (to_lowercase : String → String) (order_id payment_id : Uuid)
    (method : PaymentMethod) (now : ℕ)
    → (session : CheckoutSession) × (pick_checkout
          (gateways uuid_text to_lowercase)
          order_id
          payment_id
          method
          now
        ≡ ok session)
      × (session.gateway ≡ "Razorpay")
unfolding pick_checkout gateways
pick_checkout-gateways uuid_text to_lowercase order_id payment_id method now = (_, refl, refl)

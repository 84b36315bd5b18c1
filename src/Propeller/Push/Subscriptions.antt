-- ===== src/Propeller/Push/Subscriptions.antt =====
-- What the operations of approach-2/src/push/service.rs do to the broker: which of its operations they
-- call, and what becomes of its subscriptions.
use payment_processing.Common.{
  ℕ, String, ◌≡◌, ◌⊎◌, inl, inr, refl, ap, ◌∙◌, sym, subst, List, [], ◌∷◌, Option, none, some,
  Result, ok, err, arith,
}
use payment_processing.Propeller.Config.{ClientConfig}
use payment_processing.Propeller.Error.{PropellerError}
use payment_processing.Propeller.Channels.{client_channel, topic_channel, device_channel}
use payment_processing.Propeller.Action.{outcome}
use payment_processing.Propeller.Ports.{PubSub, KeyValue, IsReleasing}
use payment_processing.Propeller.Push.{
  World, Json, Device, subscribe_client, unsubscribe_client, topic_subscribe, topic_unsubscribe,
  supported,
}

module _ {S K : Type 0} (pubsub : PubSub S) (kv : KeyValue K) (json : Json)
    (config : ClientConfig) where
  pub topic_subscribe-pubsub :
      (tenant_id topic : String) (sub : ℕ) (w : World S K)
      → let w' = (topic_subscribe pubsub kv json config tenant_id topic sub w).1 in
        (w'.pubsub ≡ w.pubsub)
        ⊎ (w'.pubsub ≡ (pubsub.add_subscription (topic_channel tenant_id topic) sub w.pubsub).1)
  unfolding topic_subscribe
  topic_subscribe-pubsub tenant_id topic sub w = ground arith

  pub topic_unsubscribe-pubsub :
      (tenant_id topic : String) (sub : ℕ) (w : World S K)
      → let w' = (topic_unsubscribe pubsub kv json config tenant_id topic sub w).1 in
        (w'.pubsub ≡ w.pubsub)
        ⊎ (w'.pubsub ≡ (pubsub.remove_subscription (topic_channel tenant_id topic) sub w.pubsub).1)
  unfolding topic_unsubscribe
  topic_unsubscribe-pubsub tenant_id topic sub w = ground arith

  pub unsubscribe_client-pubsub :
      (tenant_id client_id : String) (sub : ℕ) (device : Option Device) (w : World S K)
      → (unsubscribe_client pubsub kv json config tenant_id client_id sub device w).1.pubsub
        ≡ (pubsub.unsubscribe sub w.pubsub).1
  unfolding unsubscribe_client
  unsubscribe_client-pubsub tenant_id client_id sub device w = ground arith

  abbrev channels_of : String → String → Option Device → List String
  channels_of tenant_id client_id none = client_channel tenant_id client_id ∷ []
  channels_of tenant_id client_id (some dev) =
      client_channel tenant_id client_id ∷ device_channel tenant_id client_id dev.id ∷ []

  subscribe_client-pubsub :
      (tenant_id client_id : String) (device found : Option Device) (w end : World S K) (sub : ℕ)
      → supported config.enable_device_support device ≡ found
      → subscribe_client pubsub kv json config tenant_id client_id device w ≡ (ok sub, end)
      → pubsub.subscribe (channels_of tenant_id client_id found) w.pubsub ≡ (ok sub, end.pubsub)
  unfolding subscribe_client
  subscribe_client-pubsub tenant_id client_id device none w end sub e h = ground arith
  subscribe_client-pubsub tenant_id client_id device (some dev) w end sub e h = ground arith

  subscribe_client_refused :
      (tenant_id client_id : String) (device found : Option Device) (w end : World S K)
      (e : PropellerError)
      → supported config.enable_device_support device ≡ found
      → subscribe_client pubsub kv json config tenant_id client_id device w ≡ (err e, end)
      → (end.pubsub ≡ w.pubsub)
        ⊎ (end.pubsub ≡ (pubsub.subscribe (channels_of tenant_id client_id found) w.pubsub).1)
  unfolding subscribe_client
  subscribe_client_refused tenant_id client_id device none w end e same h = ground arith
  subscribe_client_refused tenant_id client_id device (some dev) w end e same h = ground arith

module _ {S : Type 0} (pubsub : PubSub S) (releasing : IsReleasing pubsub) where
  open releasing use {Entry, subscriptions}

  -- The broker has an entry for a subscription, in front of the others.
  abbrev pub Held : ℕ → List (ℕ × Entry) → S → Type 0
  Held sub rest s = (e : Entry) × (subscriptions s ≡ (sub, e) ∷ rest)

  pub Held-subst :
      (sub : ℕ) (rest : List (ℕ × Entry)) (s t : S) → t ≡ s → Held sub rest s → Held sub rest t
  Held-subst sub rest s t same = subst (Held sub rest) (sym same)

  -- The broker has the entries of before, or those and one more in front of them.
  abbrev pub AtMostOneMore : List (ℕ × Entry) → S → Type 0
  AtMostOneMore before s = (subscriptions s ≡ before) ⊎ ((sub : ℕ) × Held sub before s)

  abbrev pub Opened : {K : Type 0} → List (ℕ × Entry) → Result PropellerError ℕ × World S K → Type 0
  Opened before (ok sub, end) = Held sub before end.pubsub
  Opened before (err e, end) = AtMostOneMore before end.pubsub

  module _ {K : Type 0} (kv : KeyValue K) (json : Json) (config : ClientConfig)
      (tenant_id client_id : String) (device : Option Device) where
    pub subscribe_client-Opened :
        (w : World S K)
        → Opened
            (subscriptions w.pubsub)
            (subscribe_client pubsub kv json config tenant_id client_id device w)
    subscribe_client-Opened w =
        elim (outcome (subscribe_client pubsub kv json config tenant_id client_id device w)) [
          | inl (sub, end, eq) ↦ rw eq (
              releasing.subscribe_adds _ w.pubsub end.pubsub sub (
                subscribe_client-pubsub pubsub kv json config tenant_id client_id device _ w end sub
                  refl eq))
          | inr (e, end, eq) ↦
              rw eq
                (elim (subscribe_client_refused pubsub kv json config tenant_id client_id device _ w
                  end e refl eq) [
                    | inl same ↦ inl (ap subscriptions same)
                    | inr inserted ↦ inr (
                        let (sub, entry, h) = releasing.subscribe_inserts _ w.pubsub in
                        (sub, Held-subst sub _ _ _ inserted (entry, h)))
                  ])
        ]

    pub unsubscribe_client-drops :
        (sub : ℕ) (rest : List (ℕ × Entry)) (w : World S K)
        → Held sub rest w.pubsub
        → subscriptions
            (unsubscribe_client pubsub kv json config tenant_id client_id sub device w).1.pubsub
          ≡ rest
    unsubscribe_client-drops sub rest w (e, h) =
        ap subscriptions
          (unsubscribe_client-pubsub pubsub kv json config tenant_id client_id sub device w)
        ∙ releasing.unsubscribe_drops sub w.pubsub e rest h

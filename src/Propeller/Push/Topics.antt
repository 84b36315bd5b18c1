-- ===== src/Propeller/Push/Topics.antt =====
-- Publishing: what gets through, and what a failure leaves behind.
use payment_processing.Common.{
  ◌<◌, ◌+◌, ◌^◌, ◌≡◌, ◌↔◌, refl, ap, ◌∙◌, false, List, [], ◌∷◌, ◌++◌, length, Result, ok, err,
  arith, inl, inr,
}
use payment_processing.Common.Text.{is_empty}
use payment_processing.Propeller.Channels.{client_channel}
use payment_processing.Propeller.Config.{ClientConfig}
use payment_processing.Propeller.Error.{PropellerError}
use payment_processing.Propeller.Metrics.{increment}
use payment_processing.Propeller.Action.{after, outcome, past_ok, past_err}
use payment_processing.Propeller.Ports.{PubSub, KeyValue}
use payment_processing.Propeller.Push.{
  World, Json, SendEventToTopicRequest, SendEventToClientRequest, no_bytes, publish_to_topic,
  publish_to_topics, publish_to_client,
}

module _ {S K : Type 0} (pubsub : PubSub S) (kv : KeyValue K) (json : Json)
    (config : ClientConfig) where
  -- A request that stopped the others: those before it are out, and it failed.
  pub record StoppedAt (requests : List SendEventToTopicRequest) (w : World S K)
      (e : PropellerError) (end : World S K) : Type 0 where
    pub sent : List SendEventToTopicRequest
    pub failed : SendEventToTopicRequest
    pub unsent : List SendEventToTopicRequest
    pub middle : World S K
    pub parts : requests ≡ sent ++ failed ∷ unsent
    pub first : publish_to_topics pubsub kv json config sent w ≡ (ok tt, middle)
    pub failure : publish_to_topic pubsub kv json config failed middle ≡ (err e, end)

  -- `publish_to_topics` with an error has published the requests before one of them, in order, and
  -- its error and state are those of that one, which failed; the requests behind it are not tried.
  pub publish_to_topics-StoppedAt :
      (requests : List SendEventToTopicRequest) (w : World S K) (e : PropellerError)
      (end : World S K)
      → publish_to_topics pubsub kv json config requests w ≡ (err e, end)
      → StoppedAt requests w e end
  unfolding publish_to_topics
  publish_to_topics-StoppedAt [] w e end h = cc
  publish_to_topics-StoppedAt (req ∷ requests) w e end h =
      elim (outcome (publish_to_topic pubsub kv json config req w)) [
        | inl (u, w', eq) ↦
            let rest =
              publish_to_topics-StoppedAt requests w' e end
                (past_ok (λ _. publish_to_topics pubsub kv json config requests) eq h) in
            record {
              sent = req ∷ rest.sent;
              failed = rest.failed;
              unsent = rest.unsent;
              middle = rest.middle;
              parts = ap (◌∷◌ req) rest.parts;
              first =
                  ap (λ r. after r (λ _. publish_to_topics pubsub kv json config rest.sent)) eq
                  ∙ rest.first;
              failure = rest.failure;
            }
        | inr (e', w', eq) ↦ record {
          sent = [];
          failed = req;
          unsent = requests;
          middle = w;
          parts = refl;
          first = refl;
          failure = eq ∙ past_err (λ _. publish_to_topics pubsub kv json config requests) eq h;
        }
      ]

  -- Nothing that a request to a topic has to have is missing.
  pub record IsComplete (req : SendEventToTopicRequest) : Type 0 where
    pub tenant_id : is_empty req.tenant_id ≡ false
    pub topic : is_empty req.topic ≡ false
    pub event : no_bytes req.event ≡ false

  abbrev pub AllComplete : List SendEventToTopicRequest → Type 0
  AllComplete [] = Unit
  AllComplete (req ∷ requests) = IsComplete req × AllComplete requests

  published_one :
      (req : SendEventToTopicRequest) (w end : World S K)
      → publish_to_topic pubsub kv json config req w ≡ (ok tt, end)
      → IsComplete req
        × (end.metrics.messages_published ≡ increment w.metrics.messages_published)
        × (end.kv ≡ w.kv)
  unfolding publish_to_topic
  published_one req w end h = (
    record { tenant_id = ground arith; topic = ground arith; event = ground arith },
    ground arith,
    ground arith,
  )

  err_is_not-ok :
      {e : PropellerError} {w end : World S K}
      → (Path (Result PropellerError (Unit {0}) × World S K) (err e, w) (ok tt, end))
      → ⊥
  err_is_not-ok h = cc

  -- Publishing to each of some topics succeeds only for complete requests, counts each of them, and
  -- leaves the store as it was.
  pub publish_to_topics-ok :
      (requests : List SendEventToTopicRequest) (w end : World S K)
      → w.metrics.messages_published + length requests < 2 ^ 64
      → publish_to_topics pubsub kv json config requests w ≡ (ok tt, end)
      → AllComplete requests
        × (end.metrics.messages_published ≡ w.metrics.messages_published + length requests)
        × (end.kv ≡ w.kv)
  unfolding publish_to_topics
  publish_to_topics-ok [] w end small h = (tt, ground arith, ground arith)
  publish_to_topics-ok (req ∷ requests) w end small h =
      elim (outcome (publish_to_topic pubsub kv json config req w)) [
        | inl (u, w', eq) ↦
            let (complete, counted, kept) = published_one req w w' eq in
            let (others, total, same) =
              publish_to_topics-ok requests w' end (omega arith)
                (past_ok (λ _. publish_to_topics pubsub kv json config requests) eq h) in
            ((complete, others), omega arith, same ∙ kept)
        | inr (e', w', eq) ↦
            absurd (
              err_is_not-ok (past_err (λ _. publish_to_topics pubsub kv json config requests) eq h))
      ]

  -- `publish_to_client` succeeds exactly when tenant, client and event are given and the broker
  -- takes the event on that client's channel.
  pub publish_to_client_iff :
      (req : SendEventToClientRequest) (w : World S K)
      → ((publish_to_client pubsub kv json config req w).0 ≡ ok tt)
        ↔ (is_empty req.tenant_id ≡ false)
          × (is_empty req.client_id ≡ false)
          × (no_bytes req.event ≡ false)
          × ((pubsub.publish (client_channel req.tenant_id req.client_id) req.event w.pubsub).0
              ≡ ok tt)
  unfolding publish_to_client
  publish_to_client_iff req w = (
    λ h. (ground arith, ground arith, ground arith, ground arith),
    λ (t, c, e, p). rw (t, c, e, p) refl,
  )

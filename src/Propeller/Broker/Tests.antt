-- ===== src/Propeller/Broker/Tests.antt =====
-- One subscription with one topic, worked out.
use payment_processing.Common.{ℕ, String, ◌≡◌, refl, [], ◌∷◌, ok, err}
use payment_processing.Propeller.Broker.{
  Broker, new, connected, already, subscribe, add_subscription, listener_ends,
}
use payment_processing.Propeller.Broker.Leaks.{
  IsSound, Steps, still, and_then, subscribes, adds, Steps-IsSound, ended_topic_stays_taken,
}

abbrev uuid_text : ℕ → String
uuid_text n = "7f"

abbrev listening : Broker
listening = record new {
  subscriptions = (0, ("t", 0) ∷ []) ∷ [];
  running = 0 ∷ [];
  loops = 0 ∷ [];
  active_topic_listeners = 1;
  next_task = 1;
  next_id = 1;
}

abbrev subscribed : Broker
subscribed = record new { subscriptions = (0, []) ∷ []; loops = 0 ∷ []; next_id = 1 }

added : add_subscription uuid_text connected "t" 0 subscribed ≡ (ok tt, listening)
unfolding add_subscription
added = refl

steps : Steps uuid_text new listening
unfolding subscribe add_subscription
steps = and_then (and_then still (subscribes connected)) (adds connected "t" 0)

Steps-IsSound_example : IsSound listening
Steps-IsSound_example = Steps-IsSound uuid_text steps

ended_topic_stays_taken_example :
    (add_subscription uuid_text connected "t" 0 (listener_ends 0 listening)).0
    ≡ err (already uuid_text 0 "t")
ended_topic_stays_taken_example =
    ended_topic_stays_taken uuid_text connected "t" 0 0 (("t", 0) ∷ []) listening refl refl

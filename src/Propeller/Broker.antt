-- ===== src/Propeller/Broker.antt =====
-- `RedisPubSub` of approach-2/src/broker/redis_pubsub.rs: the subscriptions that it keeps, the tasks
-- that listen for them, and the count of those. Each operation runs at once. What Redis answers to a
-- connection and to a subscription on it is an argument of the operation.
pub mod Held
pub mod Leaks
pub mod Delivery
pub mod Redis
mod Tests
use payment_processing.Common.{
  ℕ, suc, String, Bool, true, false, ◌||◌, List, [], ◌∷◌, ◌++◌, map, Option, none, some, Result, ok,
  err, any, ◌==◌, if◌then◌else◌,
}
use payment_processing.Common.Text.{◌++◌ as join, ◌==◌ as same_text}
use payment_processing.Propeller.Metrics.{increment, decrement}

-- `topic_controls`: the task that listens for each topic.
abbrev pub Controls : Type 0
Controls = List (String × ℕ)

abbrev pub Subscriptions : Type 0
Subscriptions = List (ℕ × Controls)

-- A task is its number. `running` lists the listeners of topics that have not ended, and `shutdowns`
-- those whose control channel holds `ControlMessage::Shutdown`; `loops` and `loop_shutdowns` say the
-- same of the task that `subscribe` spawns for a subscription.
pub record Broker : Type 0 where
  pub subscriptions : Subscriptions
  pub running : List ℕ
  pub shutdowns : List ℕ
  pub loops : List ℕ
  pub loop_shutdowns : List ℕ
  pub active_topic_listeners : ℕ
  pub next_task : ℕ
  pub next_id : ℕ

-- `RedisPubSub::new`; subscriptions are numbered as `Uuid::new_v4` draws them.
abbrev pub new : Broker
new = record {
  subscriptions = [];
  running = [];
  shutdowns = [];
  loops = [];
  loop_shutdowns = [];
  active_topic_listeners = 0;
  next_task = 0;
  next_id = 0;
}

-- Redis gives a connection that takes the subscription, or one of the two fails.
pub data Reply : Type 0 where
  connected : Reply
  no_connection : Reply
  refused : String → Reply

abbrev pub find : ℕ → Subscriptions → Option Controls
find sub [] = none
find sub ((id, controls) ∷ subs) = if id == sub then some controls else find sub subs

-- The entry of a subscription with other controls, and the map without it.
abbrev pub put : ℕ → Controls → Subscriptions → Subscriptions
put sub new_controls [] = []
put sub new_controls ((id, controls) ∷ subs) =
    if id == sub then (id, new_controls) ∷ subs else (id, controls) ∷ put sub new_controls subs

abbrev pub without : ℕ → Subscriptions → Subscriptions
without sub [] = []
without sub ((id, controls) ∷ subs) = if id == sub then subs else (id, controls) ∷ without sub subs

abbrev pub contains_key : String → Controls → Bool
contains_key topic [] = false
contains_key topic ((key, task) ∷ controls) = same_text key topic || contains_key topic controls

abbrev pub behind : String × ℕ → Option (ℕ × Controls) → Option (ℕ × Controls)
behind entry none = none
behind entry (some (task, controls)) = some (task, entry ∷ controls)

-- `DashMap::remove`: the task of the topic, and the other controls.
abbrev pub take_out : String → Controls → Option (ℕ × Controls)
take_out topic [] = none
take_out topic ((key, task) ∷ controls) =
    if same_text key topic
    then some (task, controls)
    else behind (key, task) (take_out topic controls)

abbrev pub tasks_of : Controls → List ℕ
tasks_of [] = []
tasks_of ((topic, task) ∷ controls) = task ∷ tasks_of controls

abbrev pub start_loop : Reply → Broker → Result String ℕ × Broker
start_loop connected b =
    (ok b.next_id, record b { loops = b.next_id ∷ b.loops; next_id = suc b.next_id })
start_loop no_connection b =
    (err "failed to get pubsub connection", record b { next_id = suc b.next_id })
start_loop (refused e) b = (err e, record b { next_id = suc b.next_id })

-- The entry is inserted before the connection is opened.
unfoldable pub subscribe : Reply → Broker → Result String ℕ × Broker
subscribe reply b =
    start_loop reply (record b { subscriptions = (b.next_id, []) ∷ b.subscriptions })

abbrev pub listen : Reply → String → ℕ → Controls → Broker → Result String (Unit {0}) × Broker
listen no_connection channel sub controls b = (err "failed to get pubsub connection", b)
listen (refused e) channel sub controls b = (err e, b)
listen connected channel sub controls b = (
  ok tt,
  record b {
    subscriptions = put sub ((channel, b.next_task) ∷ controls) b.subscriptions;
    running = b.next_task ∷ b.running;
    next_task = suc b.next_task;
    active_topic_listeners = increment b.active_topic_listeners;
  },
)

module _ (uuid_text : ℕ → String) where
  abbrev pub not_found : ℕ → String
  not_found sub = join "subscription " (join (uuid_text sub) " not found")

  abbrev pub already : ℕ → String → String
  already sub channel =
      join "subscription " (join (uuid_text sub) (join " already subscribed to " channel))

  abbrev pub not_subscribed : ℕ → String → String
  not_subscribed sub channel =
      join "subscription " (join (uuid_text sub) (join " is not subscribed to " channel))

  abbrev pub add_to :
      Reply → String → ℕ → Option Controls → Broker → Result String (Unit {0}) × Broker
  add_to reply channel sub none b = (err (not_found sub), b)
  add_to reply channel sub (some controls) b =
      if contains_key channel controls
      then (err (already sub channel), b)
      else listen reply channel sub controls b

  unfoldable pub add_subscription : Reply → String → ℕ → Broker → Result String (Unit {0}) × Broker
  add_subscription reply channel sub b = add_to reply channel sub (find sub b.subscriptions) b

  abbrev pub shut : String → ℕ → Option (ℕ × Controls) → Broker → Result String (Unit {0}) × Broker
  shut channel sub none b = (err (not_subscribed sub channel), b)
  shut channel sub (some (task, controls)) b = (
    ok tt,
    record b { subscriptions = put sub controls b.subscriptions; shutdowns = task ∷ b.shutdowns },
  )

  abbrev pub remove_from : String → ℕ → Option Controls → Broker → Result String (Unit {0}) × Broker
  remove_from channel sub none b = (err (not_found sub), b)
  remove_from channel sub (some controls) b = shut channel sub (take_out channel controls) b

  unfoldable pub remove_subscription : String → ℕ → Broker → Result String (Unit {0}) × Broker
  remove_subscription channel sub b = remove_from channel sub (find sub b.subscriptions) b

abbrev pub drop_entry : ℕ → Option Controls → Broker → Broker
drop_entry sub none b = b
drop_entry sub (some controls) b = record b {
  subscriptions = without sub b.subscriptions;
  loop_shutdowns = sub ∷ b.loop_shutdowns;
  shutdowns = tasks_of controls ++ b.shutdowns;
}

-- It always returns `Ok(())`.
unfoldable pub unsubscribe : ℕ → Broker → Broker
unsubscribe sub b = drop_entry sub (find sub b.subscriptions) b

abbrev pub remove_one : ℕ → List ℕ → List ℕ
remove_one task [] = []
remove_one task (t ∷ tasks) = if t == task then tasks else t ∷ remove_one task tasks

-- The end of a listener of a topic: it was told to, its stream ended, or nobody receives its events.
unfoldable pub listener_ends : ℕ → Broker → Broker
listener_ends task b =
    if any (λ t. t == task) b.running
    then record b {
      running = remove_one task b.running;
      active_topic_listeners = decrement b.active_topic_listeners;
    }
    else b

-- The end of the task of a subscription, for the same reasons.
unfoldable pub ends_loop : ℕ → Broker → Broker
ends_loop sub b = record b { loops = remove_one sub b.loops }

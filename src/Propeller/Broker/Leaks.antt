-- ===== src/Propeller/Broker/Leaks.antt =====
-- The listeners against their count, and against the subscriptions that hold them.
use payment_processing.Common.{
  ℕ, suc, ◌%◌, ◌^◌, String, ◌≡◌, ◌⊎◌, inl, inr, refl, ap, true, List, [], ◌∷◌, ◌++◌, length, Option,
  none, some, err, any, ◌==◌, arith, Bool-cases,
}
use payment_processing.Propeller.Broker.{
  Controls, Subscriptions, Broker, new, Reply, connected, no_connection, refused, find, put,
  without, take_out, tasks_of, contains_key, listen, add_to, shut, remove_from, drop_entry,
  subscribe, add_subscription, remove_subscription, unsubscribe, remove_one, listener_ends,
  ends_loop, already,
}
use payment_processing.Propeller.Broker.Held.{
  In, tasks, In-left, In-right, In-put, In-without, In-put_new, In-take_out,
}

-- Each of these listeners was told to end, or a subscription holds its control channel.
abbrev pub Reached : List ℕ → List ℕ → Subscriptions → Type 0
Reached [] shutdowns subs = Unit
Reached (t ∷ running) shutdowns subs =
    (In t shutdowns ⊎ In t (tasks subs)) × Reached running shutdowns subs

-- The count is that of the listeners that run, and none of them is out of reach.
pub record IsSound (b : Broker) : Type 0 where
  pub counted : b.active_topic_listeners ≡ length b.running % 2 ^ 64
  pub reached : Reached b.running b.shutdowns b.subscriptions

-- Reaching is kept when everything that was told, or held, still is.
Reached-mono :
    (running old_shutdowns shutdowns : List ℕ) (old subs : Subscriptions)
    → ((t : ℕ) → In t old_shutdowns ⊎ In t (tasks old) → In t shutdowns ⊎ In t (tasks subs))
    → Reached running old_shutdowns old
    → Reached running shutdowns subs
Reached-mono [] old_shutdowns shutdowns old subs keep h = tt
Reached-mono (t ∷ running) old_shutdowns shutdowns old subs keep h =
    (keep t h.0, Reached-mono running old_shutdowns shutdowns old subs keep h.1)

Reached-remove_one :
    (task : ℕ) (running shutdowns : List ℕ) (subs : Subscriptions)
    → Reached running shutdowns subs
    → Reached (remove_one task running) shutdowns subs
Reached-remove_one task [] shutdowns subs h = tt
Reached-remove_one task (t ∷ running) shutdowns subs h = elim (Bool-cases (t == task)) [
  | inl e ↦ rw e h.1
  | inr e ↦ rw e (h.0, Reached-remove_one task running shutdowns subs h.1)
]

length-remove_one :
    (task : ℕ) (running : List ℕ)
    → any (λ t. t == task) running ≡ true
    → suc (length (remove_one task running)) ≡ length running
length-remove_one task [] h = cc
length-remove_one task (t ∷ running) h = elim (Bool-cases (t == task)) [
  | inl e ↦ rw e refl
  | inr e ↦ rw e (ap suc (length-remove_one task running (ground arith)))
]

listen-IsSound :
    (reply : Reply) (channel : String) (sub : ℕ) (cs : Controls) (b : Broker)
    → find sub b.subscriptions ≡ some cs
    → IsSound b
    → IsSound (listen reply channel sub cs b).1
listen-IsSound no_connection channel sub cs b f h = h
listen-IsSound (refused e) channel sub cs b f h = h
listen-IsSound connected channel sub cs b f h =
    let more = (channel, b.next_task) ∷ cs in
    record {
      counted = omega (arith, h.counted);
      reached = (
        inr (In-put_new b.next_task sub cs more b.subscriptions f (inl refl)),
        Reached-mono b.running b.shutdowns b.shutdowns b.subscriptions
            (put sub more b.subscriptions)
            (λ t held. elim held [
              | inl told ↦ inl told
              | inr m ↦ elim (In-put t sub cs more b.subscriptions f m) [
                | inl o ↦ inr (In-put_new t sub cs more b.subscriptions f (inr o))
                | inr q ↦ inr q
              ]
            ])
            h.reached,
      );
    }

add_to-IsSound :
    (uuid_text : ℕ → String) (reply : Reply) (channel : String) (sub : ℕ) (found : Option Controls)
    (b : Broker)
    → find sub b.subscriptions ≡ found
    → IsSound b
    → IsSound (add_to uuid_text reply channel sub found b).1
add_to-IsSound uuid_text reply channel sub none b f h = h
add_to-IsSound uuid_text reply channel sub (some cs) b f h =
    elim (Bool-cases (contains_key channel cs)) [
      | inl e ↦ rw e h
      | inr e ↦ rw e (listen-IsSound reply channel sub cs b f h)
    ]

shut-IsSound :
    (uuid_text : ℕ → String) (channel : String) (sub : ℕ) (cs : Controls)
    (taken : Option (ℕ × Controls)) (b : Broker)
    → find sub b.subscriptions ≡ some cs
    → take_out channel cs ≡ taken
    → IsSound b
    → IsSound (shut uuid_text channel sub taken b).1
shut-IsSound uuid_text channel sub cs none b f e h = h
shut-IsSound uuid_text channel sub cs (some (task, rest)) b f e h = record {
  counted = h.counted;
  reached =
      Reached-mono b.running b.shutdowns (task ∷ b.shutdowns) b.subscriptions
        (put sub rest b.subscriptions)
        (λ t held. elim held [
          | inl told ↦ inl (inr told)
          | inr m ↦ elim (In-put t sub cs rest b.subscriptions f m) [
            | inl o ↦ elim (In-take_out t channel cs rest task e o) [
              | inl same ↦ inl (inl same)
              | inr r ↦ inr (In-put_new t sub cs rest b.subscriptions f r)
            ]
            | inr q ↦ inr q
          ]
        ])
        h.reached;
}

remove_from-IsSound :
    (uuid_text : ℕ → String) (channel : String) (sub : ℕ) (found : Option Controls) (b : Broker)
    → find sub b.subscriptions ≡ found
    → IsSound b
    → IsSound (remove_from uuid_text channel sub found b).1
remove_from-IsSound uuid_text channel sub none b f h = h
remove_from-IsSound uuid_text channel sub (some cs) b f h =
    shut-IsSound uuid_text channel sub cs (take_out channel cs) b f refl h

drop_entry-IsSound :
    (sub : ℕ) (found : Option Controls) (b : Broker)
    → find sub b.subscriptions ≡ found
    → IsSound b
    → IsSound (drop_entry sub found b)
drop_entry-IsSound sub none b f h = h
drop_entry-IsSound sub (some cs) b f h = record {
  counted = h.counted;
  reached =
      Reached-mono b.running b.shutdowns (tasks_of cs ++ b.shutdowns) b.subscriptions
        (without sub b.subscriptions)
        (λ t held. elim held [
          | inl told ↦ inl (In-right t (tasks_of cs) b.shutdowns told)
          | inr m ↦ elim (In-without t sub cs b.subscriptions f m) [
            | inl o ↦ inl (In-left t (tasks_of cs) b.shutdowns o)
            | inr q ↦ inr q
          ]
        ])
        h.reached;
}

Reached-fresh :
    (b : Broker)
    → Reached b.running b.shutdowns b.subscriptions
    → Reached b.running b.shutdowns ((b.next_id, []) ∷ b.subscriptions)
Reached-fresh b h =
    Reached-mono b.running b.shutdowns b.shutdowns b.subscriptions
      ((b.next_id, []) ∷ b.subscriptions) (λ t held. held) h

subscribe-IsSound : (reply : Reply) (b : Broker) → IsSound b → IsSound (subscribe reply b).1
unfolding subscribe
subscribe-IsSound connected b h = record {
  counted = h.counted;
  reached = Reached-fresh b h.reached;
}
subscribe-IsSound no_connection b h = record {
  counted = h.counted;
  reached = Reached-fresh b h.reached;
}
subscribe-IsSound (refused e) b h = record {
  counted = h.counted;
  reached = Reached-fresh b h.reached;
}

listener_ends-IsSound : (task : ℕ) (b : Broker) → IsSound b → IsSound (listener_ends task b)
unfolding listener_ends
listener_ends-IsSound task b h = elim (Bool-cases (any (λ t. t == task) b.running)) [
  | inl e ↦ rw e (record {
    counted = omega (arith, h.counted, length-remove_one task b.running e);
    reached = Reached-remove_one task b.running b.shutdowns b.subscriptions h.reached;
  })
  | inr e ↦ rw e h
]

-- What happens to the broker, one operation or one end of a listener at a time.
pub data Step (uuid_text : ℕ → String) (b : Broker) : Broker → Type 0 where
  subscribes : (reply : Reply) → Step uuid_text b (subscribe reply b).1
  adds :
      (reply : Reply) (channel : String) (sub : ℕ)
      → Step uuid_text b (add_subscription uuid_text reply channel sub b).1
  removes :
      (channel : String) (sub : ℕ)
      → Step uuid_text b (remove_subscription uuid_text channel sub b).1
  unsubscribes : (sub : ℕ) → Step uuid_text b (unsubscribe sub b)
  loop_ends : (sub : ℕ) → Step uuid_text b (ends_loop sub b)
  ends : (task : ℕ) → Step uuid_text b (listener_ends task b)

pub data Steps (uuid_text : ℕ → String) (b : Broker) : Broker → Type 0 where
  still : Steps uuid_text b b
  and_then : {c d : Broker} → Steps uuid_text b c → Step uuid_text c d → Steps uuid_text b d

Step-IsSound :
    (uuid_text : ℕ → String) (b : Broker) {c : Broker} → Step uuid_text b c → IsSound b → IsSound c
unfolding add_subscription remove_subscription unsubscribe ends_loop
Step-IsSound uuid_text b (subscribes reply) h = subscribe-IsSound reply b h
Step-IsSound uuid_text b (adds reply channel sub) h =
    add_to-IsSound uuid_text reply channel sub (find sub b.subscriptions) b refl h
Step-IsSound uuid_text b (removes channel sub) h =
    remove_from-IsSound uuid_text channel sub (find sub b.subscriptions) b refl h
Step-IsSound uuid_text b (unsubscribes sub) h =
    drop_entry-IsSound sub (find sub b.subscriptions) b refl h
Step-IsSound uuid_text b (loop_ends sub) h = record { counted = h.counted; reached = h.reached }
Step-IsSound uuid_text b (ends task) h = listener_ends-IsSound task b h

new-IsSound : IsSound new
new-IsSound = record { counted = refl; reached = tt }

-- Whatever happens to a new broker, its count of topic listeners is that of the listeners that run,
-- modulo 2 ^ 64, and each of these was told to shut down or is held by a subscription.
pub Steps-IsSound : (uuid_text : ℕ → String) {b : Broker} → Steps uuid_text new b → IsSound b
Steps-IsSound uuid_text still = new-IsSound
Steps-IsSound uuid_text (and_then {c} steps step) =
    Step-IsSound uuid_text c step (Steps-IsSound uuid_text steps)

-- After any listener has ended, a topic that a subscription had is still taken: subscribing to it
-- again is refused.
pub ended_topic_stays_taken :
    (uuid_text : ℕ → String) (reply : Reply) (channel : String) (sub task : ℕ) (controls : Controls)
    (b : Broker)
    → find sub b.subscriptions ≡ some controls
    → contains_key channel controls ≡ true
    → (add_subscription uuid_text reply channel sub (listener_ends task b)).0
      ≡ err (already uuid_text sub channel)
unfolding add_subscription listener_ends
ended_topic_stays_taken uuid_text reply channel sub task controls b f h =
    elim (Bool-cases (any (λ t. t == task) b.running)) [
      | inl e ↦ rw (e, f, h) refl
      | inr e ↦ rw (e, f, h) refl
    ]

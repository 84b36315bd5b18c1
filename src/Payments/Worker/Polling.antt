-- ===== src/Payments/Worker/Polling.antt =====
-- `process_webhooks` of approach-1/apps/worker/src/main.rs over several rounds of reading.
use payment_processing.Common.{
  ℕ, zero, suc, ◌*◌, ◌≤◌, String, ◌≡◌, refl, ap, sym, ◌∙◌, subst, true, false, List, [], ◌∷◌, ◌++◌,
  Option, none, some, Result, ok, err, arith, length, take, drop, All, append_assoc, Bool,
}
use payment_processing.Payments.Models.{GatewayWebhookEvent}
use payment_processing.Payments.Redis.{Redis}
use payment_processing.Payments.Repository.{log_transaction}
use payment_processing.Payments.Worker.{
  World, WorkError, in_db, idem_key, is_success_status, mark_if_absent, process, confirm,
  publish_payment_confirmed, with_payload, read_after, handle_event, handle_all, poll, polls,
  process_webhooks,
}
use payment_processing.Payments.Worker.Stream.{
  Entries, last_of, IsNumbered, IsStream, HasPayload, HasNone, last_of-append, with_payload-append,
  with_payload-HasNone, take-drop, length-drop-le, All-take, All-drop,
}

module _ (redis : Redis) (parse : String → Option GatewayWebhookEvent)
    (to_json : GatewayWebhookEvent → String) where
  handle_all-append :
      (xs ys : List (String × String)) (id : String) (w : World redis)
      → handle_all redis parse to_json (xs ++ ys) id w ≡ (
          let (id', w') = handle_all redis parse to_json xs id w in
          handle_all redis parse to_json ys id' w')
  unfolding handle_all
  handle_all-append [] ys id w = refl
  handle_all-append ((i, payload) ∷ xs) ys id w =
      handle_all-append xs ys i (handle_event redis parse to_json payload w).1

  -- The loop ends at the identifier of its last entry.
  handle_all-last_of :
      (xs : Entries) (id : String) (w : World redis)
      → All HasPayload xs
      → (handle_all redis parse to_json (with_payload redis xs) id w).0 ≡ last_of id xs
  unfolding handle_all with_payload
  handle_all-last_of [] id w _ = refl
  handle_all-last_of ((i, none) ∷ xs) id w (h, _) = absurd h
  handle_all-last_of ((i, some payload) ∷ xs) id w (_, h) =
      handle_all-last_of xs i (handle_event redis parse to_json payload w).1 h

  module _ (stream : IsStream redis "stream:webhooks") where
    abbrev entries : World redis → Entries
    entries w = stream.entries w.store

    mark_if_absent-entries :
        (key : String) (ttl : ℕ) (w : World redis)
        → entries (mark_if_absent redis key ttl w).1 ≡ entries w
    unfolding mark_if_absent
    mark_if_absent-entries key ttl w = ground (
      arith,
      stream.set_nx_entries key "1" w.store,
      stream.expire_entries key ttl (redis.set_nx key "1" w.store).1,
    )

    confirm-entries :
        (event : GatewayWebhookEvent) (payload : String) (success : Bool) (w : World redis)
        → entries (confirm redis parse to_json event payload success w).1 ≡ entries w
    unfolding confirm publish_payment_confirmed
    confirm-entries event payload success w =
        ground (arith, stream.publish_entries "payments.confirmed" payload w.store)

    process-entries :
        (event : GatewayWebhookEvent) (payload : String) (should_process : Bool) (w : World redis)
        → entries (process redis parse to_json event payload should_process w).1 ≡ entries w
    unfolding process
    process-entries event payload false w = refl
    process-entries event payload true w = ground (
      arith,
      confirm-entries event payload (is_success_status event.status)
          (in_db redis (log_transaction to_json event) w).1,
    )

    handle_event-entries :
        (payload : String) (w : World redis)
        → entries (handle_event redis parse to_json payload w).1 ≡ entries w
    unfolding handle_event
    handle_event-entries payload w = by_parse (parse payload) refl
      where
        marked :
            (event : GatewayWebhookEvent) (r : Result WorkError Bool) (w' : World redis)
            → entries w' ≡ entries w
            → entries
                (elim r as (λ x. Result WorkError (Unit {0}) × World redis) [
                  | ok a ↦ process redis parse to_json event payload a w'
                  | err x ↦ (err x, w')
                ]).1
              ≡ entries w
        marked event (ok a) w' h = process-entries event payload a w' ∙ h
        marked event (err x) w' h = h

        by_parse :
            (o : Option GatewayWebhookEvent)
            → parse payload ≡ o
            → entries (handle_event redis parse to_json payload w).1 ≡ entries w
        by_parse none known = rw known refl
        by_parse (some event) known = rw known (
            marked event (mark_if_absent redis (idem_key event) 3600 w).0 _
              (mark_if_absent-entries (idem_key event) 3600 w))

    handle_all-entries :
        (xs : List (String × String)) (id : String) (w : World redis)
        → entries (handle_all redis parse to_json xs id w).1 ≡ entries w
    unfolding handle_all
    handle_all-entries [] id w = refl
    handle_all-entries ((i, payload) ∷ xs) id w =
        handle_all-entries xs i (handle_event redis parse to_json payload w).1
        ∙ handle_event-entries payload w

    reads_behind :
        (before behind : Entries) (w : World redis)
        → IsNumbered "0-0" (entries w)
        → entries w ≡ before ++ behind
        → read_after redis "stream:webhooks" (last_of "0-0" before) 50 w
          ≡ (ok (with_payload redis (take 50 behind)), w)
    unfolding read_after
    reads_behind before behind w numbered split =
        ground (arith, stream.xread_behind before behind 50 w.store numbered split)

    -- One round handles up to fifty of the entries that are left.
    pub poll_reads :
        (before behind : Entries) (w : World redis)
        → IsNumbered "0-0" (entries w)
        → entries w ≡ before ++ behind
        → poll redis parse to_json (last_of "0-0" before) w
          ≡ handle_all redis parse to_json
              (with_payload redis (take 50 behind))
              (last_of "0-0" before)
              w
    unfolding poll
    poll_reads before behind w numbered split =
        rw (reads_behind before behind w numbered split) refl

    polls_drain :
        (n : ℕ) (before behind : Entries) (w : World redis)
        → IsNumbered "0-0" (entries w)
        → entries w ≡ before ++ behind
        → All HasPayload behind
        → length behind ≤ 50 * n
        → polls redis parse to_json n (last_of "0-0" before) w
          ≡ handle_all redis parse to_json (with_payload redis behind) (last_of "0-0" before) w
    unfolding handle_all with_payload
    polls_drain zero before [] w numbered split full short = refl
    polls_drain zero before (x ∷ behind) w numbered split full short = absurd (omega arith)
    polls_drain (suc n) before behind w numbered split full short =
        let first = take 50 behind in
        let rest = drop 50 behind in
        let id = last_of "0-0" before in
        let (id', w') = handle_all redis parse to_json (with_payload redis first) id w in
        let kept : entries w' ≡ entries w = handle_all-entries (with_payload redis first) id w in
        let at : id' ≡ last_of "0-0" (before ++ first) =
          handle_all-last_of first id w (All-take HasPayload 50 behind full)
          ∙ sym (last_of-append "0-0" before first) in
        let left : entries w' ≡ (before ++ first) ++ rest =
          kept
          ∙ split
          ∙ ap (λ es. before ++ es) (sym (take-drop 50 behind))
          ∙ sym (append_assoc before first rest) in
        ap (λ r. polls redis parse to_json n r.0 r.1) (poll_reads before behind w numbered split)
        ∙ ap (λ i. polls redis parse to_json n i w') at
        ∙ polls_drain n (before ++ first) rest w' (subst (IsNumbered "0-0") (sym kept) numbered)
            left (All-drop HasPayload 50 behind full)
            (length-drop-le 50 (50 * n) behind (omega arith))
        ∙ ap (λ i. handle_all redis parse to_json (with_payload redis rest) i w') (sym at)
        ∙ sym (handle_all-append (with_payload redis first) (with_payload redis rest) id w)
        ∙ ap (λ es. handle_all redis parse to_json es id w)
            (sym (with_payload-append redis first rest))
        ∙ ap (λ es. handle_all redis parse to_json (with_payload redis es) id w)
            (take-drop 50 behind)

    -- With a Redis that answers each read, if each entry of the stream holds a payload and none
    -- arrives meanwhile, rounds enough to read the entries fifty at a time handle each of them once,
    -- in the order of the stream.
    pub process_webhooks_drains :
        (rounds : ℕ) (w : World redis)
        → IsNumbered "0-0" (entries w)
        → All HasPayload (entries w)
        → length (entries w) ≤ 50 * rounds
        → process_webhooks redis parse to_json rounds w
          ≡ handle_all redis parse to_json (with_payload redis (entries w)) "0-0" w
    unfolding process_webhooks
    process_webhooks_drains rounds w numbered full short =
        polls_drain rounds [] (entries w) w numbered refl full short

    -- With a Redis that answers each read, if none of the first fifty entries of the stream holds a
    -- payload, no number of rounds handles any entry, also of those behind them.
    pub process_webhooks_stalls :
        (rounds : ℕ) (w : World redis)
        → IsNumbered "0-0" (entries w)
        → All HasNone (take 50 (entries w))
        → process_webhooks redis parse to_json rounds w ≡ ("0-0", w)
    unfolding process_webhooks handle_all
    process_webhooks_stalls rounds w numbered empty = repeat rounds
      where
        stuck : poll redis parse to_json "0-0" w ≡ ("0-0", w)
        stuck =
            poll_reads [] (entries w) w numbered refl
            ∙ ap (λ es. handle_all redis parse to_json es "0-0" w)
                (with_payload-HasNone redis (take 50 (entries w)) empty)

        repeat : (n : ℕ) → polls redis parse to_json n "0-0" w ≡ ("0-0", w)
        repeat zero = refl
        repeat (suc n) = ap (λ r. polls redis parse to_json n r.0 r.1) stuck ∙ repeat n

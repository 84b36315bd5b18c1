-- ===== src/Payments/Worker/Keys.antt =====
-- The idempotency key of approach-1/apps/worker/src/main.rs: which events share one.
use payment_processing.Common.{String, ◌≡◌, ap}
use payment_processing.Common.Text.{
  ◌++◌, append_assoc, append_cancel_left, Lacks, colon, joined_unique,
}
use payment_processing.Payments.Models.{GatewayWebhookEvent}
use payment_processing.Payments.Worker.{idem_key}
use Prim.Native.Char.{code}

-- Among events of gateways without a colon in their name, the key tells gateway and event apart.
pub idem_key_injective :
    (a b : GatewayWebhookEvent)
    → Lacks (code colon) a.gateway
    → Lacks (code colon) b.gateway
    → idem_key a ≡ idem_key b
    → (a.gateway ≡ b.gateway) × (a.event_id ≡ b.event_id)
unfolding idem_key
idem_key_injective a b ha hb e =
    joined_unique a.gateway b.gateway a.event_id b.event_id ha hb
      (append_cancel_left "idemp:webhook:" _ _ e)

-- With a colon in the gateway's name, events of two gateways share a key.
pub idem_key_collision :
    (a b : GatewayWebhookEvent) (part : String)
    → a.gateway ≡ b.gateway ++ (":" ++ part)
    → b.event_id ≡ part ++ (":" ++ a.event_id)
    → idem_key a ≡ idem_key b
unfolding idem_key
idem_key_collision a b part e f = ap (λ t. "idemp:webhook:" ++ t) (rw (e, f) (simp append_assoc))

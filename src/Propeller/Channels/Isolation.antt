-- ===== src/Propeller/Channels/Isolation.antt =====
-- Which channels can have one name.
use Prim.Native.Char.{code}
use text.Mathlib.TextLemmas.{cons-append, head-eq_of_cons-eq}
use payment_processing.Common.{arith, String, ◌≡◌, ◌≢◌, sym, ap, subst, ◌∙◌}
use payment_processing.Common.Text.{
  ◌++◌, append_assoc, append_cancel_left, Lacks, colon, joined_unique, not-Lacks-joined,
}
use payment_processing.Propeller.Channels.{client_channel, device_channel, topic_channel}

-- The channels of one tenant.
pub data Channel : Type 0 where
  client : String → Channel
  device : String → String → Channel
  topic : String → Channel

abbrev pub channel_name : String → Channel → String
channel_name tenant_id (client client_id) = client_channel tenant_id client_id
channel_name tenant_id (device client_id device_id) = device_channel tenant_id client_id device_id
channel_name tenant_id (topic t) = topic_channel tenant_id t

-- What stands behind the tenant in a channel's name.
abbrev scope : Channel → String
scope (client client_id) = "client:" ++ client_id
scope (device client_id device_id) = "client:" ++ (client_id ++ (":device:" ++ device_id))
scope (topic t) = "topic:" ++ t

channel_name-scope :
    (tenant_id : String) (c : Channel)
    → channel_name tenant_id c ≡ "tenant:" ++ (tenant_id ++ (":" ++ scope c))
unfolding client_channel device_channel topic_channel
channel_name-scope tenant_id (client client_id) =
    ap (λ x. "tenant:" ++ (tenant_id ++ x)) (append_assoc ":" "client:" client_id)
channel_name-scope tenant_id (device client_id device_id) =
    ap (λ x. "tenant:" ++ (tenant_id ++ x))
      (append_assoc ":" "client:" (client_id ++ (":device:" ++ device_id)))
channel_name-scope tenant_id (topic t) =
    ap (λ x. "tenant:" ++ (tenant_id ++ x)) (append_assoc ":" "topic:" t)

scopes_agree :
    (t u : String) (c d : Channel)
    → Lacks (code colon) t
    → Lacks (code colon) u
    → channel_name t c ≡ channel_name u d
    → (t ≡ u) × (scope c ≡ scope d)
scopes_agree t u c d ht hu e =
    joined_unique t u (scope c) (scope d) ht hu
      (append_cancel_left "tenant:" _ _ (sym (channel_name-scope t c) ∙ e ∙ channel_name-scope u d))

-- The client of a channel has no colon in its identifier.
abbrev pub IsPlain : Channel → Type 0
IsPlain (client client_id) = Lacks (code colon) client_id
IsPlain (device client_id device_id) = Lacks (code colon) client_id
IsPlain (topic t) = Unit

device_suffix : (d : String) → ":device:" ++ d ≡ ":" ++ ("device:" ++ d)
device_suffix d = append_assoc ":" "device:" d

client_ne_device :
    (c c' d : String)
    → Lacks (code colon) c
    → "client:" ++ c ≢ "client:" ++ (c' ++ (":device:" ++ d))
client_ne_device c c' d h e = not-Lacks-joined c' ("device:" ++ d) (
    subst (Lacks (code colon))
      (append_cancel_left "client:" _ _ e ∙ ap (λ x. c' ++ x) (device_suffix d)) h)

client_ne_topic : (x y : String) → "client:" ++ x ≢ "topic:" ++ y
client_ne_topic x y e =
    let same_code : code "c" ≡ code "t" =
      ap code
        (head-eq_of_cons-eq (sym (cons-append "c" "lient:" x) ∙ e ∙ cons-append "t" "opic:" y)) in
    absurd (omega arith)

scope_injective : (c d : Channel) → IsPlain c → IsPlain d → scope c ≡ scope d → c ≡ d
scope_injective (client c) (client d) hc hd e = ap client (append_cancel_left "client:" c d e)
scope_injective (client c) (device d x) hc hd e = absurd (client_ne_device c d x hc e)
scope_injective (client c) (topic t) hc hd e = absurd (client_ne_topic _ _ e)
scope_injective (device c x) (client d) hc hd e = absurd (client_ne_device d c x hd (sym e))
scope_injective (device c x) (device d y) hc hd e =
    let rest : c ++ (":" ++ ("device:" ++ x)) ≡ d ++ (":" ++ ("device:" ++ y)) =
      ap (λ z. c ++ z) (sym (device_suffix x))
      ∙ append_cancel_left "client:" _ _ e
      ∙ ap (λ z. d ++ z) (device_suffix y) in
    let (same_client, same_device) = joined_unique c d _ _ hc hd rest in
    let same : x ≡ y = append_cancel_left "device:" x y same_device in cc
scope_injective (device c x) (topic t) hc hd e = absurd (client_ne_topic _ _ e)
scope_injective (topic t) (client c) hc hd e = absurd (client_ne_topic _ _ (sym e))
scope_injective (topic t) (device c x) hc hd e = absurd (client_ne_topic _ _ (sym e))
scope_injective (topic t) (topic u) hc hd e = ap topic (append_cancel_left "topic:" t u e)

-- Where neither the tenants nor the clients have a colon, whatever the topics and devices are called,
-- a name belongs to one channel of one tenant.
pub channel_name_injective :
    (t u : String) (c d : Channel)
    → Lacks (code colon) t
    → Lacks (code colon) u
    → IsPlain c
    → IsPlain d
    → channel_name t c ≡ channel_name u d
    → (t ≡ u) × (c ≡ d)
channel_name_injective t u c d ht hu hc hd e =
    let (same_tenant, same_scope) = scopes_agree t u c d ht hu e in
    (same_tenant, scope_injective c d hc hd same_scope)

-- A tenant without a colon never receives on a channel of another one, even where its client
-- identifiers hold colons.
pub tenant_isolation :
    (t u : String) (c d : Channel)
    → Lacks (code colon) t
    → Lacks (code colon) u
    → t ≢ u
    → channel_name t c ≢ channel_name u d
tenant_isolation t u c d ht hu ne e = ne (scopes_agree t u c d ht hu e).0

-- ===== src/Payments/Api/Feed.antt =====
-- The live feed of approach-1/apps/api/src/main.rs: `forward_pubsub_to_ws` and `ws_stream`. The Redis
-- subscription and the broadcast channel stand outside, and what they give is a list.
use payment_processing.Common.{
  String, ◌≡◌, refl, ap, Bool, true, false, List, [], ◌∷◌, map, ◌++◌, Option, none, some,
}

-- What `rx.recv()` gives: a payload, or an error, since the receiver has fallen too far behind or
-- there is no sender left.
pub data Received : Type 0 where
  got : String → Received
  lagged closed : Received

-- The socket of a client, over what it receives, each with whether the socket can be written to:
-- whether it is still served, and the texts that it was sent. The user's identifier is not used.
unfoldable pub ws_stream : String → List (Received × Bool) → Bool × List String
ws_stream user_id [] = (true, [])
ws_stream user_id ((got payload, true) ∷ rest) =
    let (runs, sent) = ws_stream user_id rest in (runs, payload ∷ sent)
ws_stream user_id ((got payload, false) ∷ rest) = (false, [])
ws_stream user_id ((lagged, is_writable) ∷ rest) = (false, [])
ws_stream user_id ((closed, is_writable) ∷ rest) = (false, [])

-- `unwrap_or_default()` on the payload of a message.
abbrev pub payload_of : Option String → String
payload_of none = ""
payload_of (some payload) = payload

-- The task that forwards messages: what it has put on `ws_tx`, if the connection and the
-- subscription succeed.
unfoldable pub forward_pubsub_to_ws : Bool → Bool → List (Option String) → List String
forward_pubsub_to_ws false subscribed messages = []
forward_pubsub_to_ws true false messages = []
forward_pubsub_to_ws true true messages = map payload_of messages

-- A receiver that keeps up, on a socket that can be written to.
abbrev pub heard : List String → List (Received × Bool)
heard = map (λ payload. (got payload, true))

ws_stream-heard :
    (user_id : String) (payloads : List String)
    → ws_stream user_id (heard payloads) ≡ (true, payloads)
unfolding ws_stream
ws_stream-heard user_id [] = refl
ws_stream-heard user_id (p ∷ payloads) = ap (λ r. (r.0, p ∷ r.1)) (ws_stream-heard user_id payloads)

-- Whatever user a client names, each confirmation of Redis reaches it, once and in order, if it keeps
-- up.
pub ws_stream-forward_pubsub_to_ws :
    (user_id : String) (messages : List (Option String))
    → ws_stream user_id (heard (forward_pubsub_to_ws true true messages))
      ≡ (true, map payload_of messages)
unfolding forward_pubsub_to_ws
ws_stream-forward_pubsub_to_ws user_id messages = ws_stream-heard user_id (map payload_of messages)

-- A client that falls behind gets what came before, and is let go: nothing after it is sent.
pub ws_stream-lagged :
    (user_id : String) (payloads : List String) (rest : List (Received × Bool))
    → ws_stream user_id (heard payloads ++ (lagged, true) ∷ rest) ≡ (false, payloads)
unfolding ws_stream
ws_stream-lagged user_id [] rest = refl
ws_stream-lagged user_id (p ∷ payloads) rest =
    ap (λ r. (r.0, p ∷ r.1)) (ws_stream-lagged user_id payloads rest)

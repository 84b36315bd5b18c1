-- ===== src/Propeller/Server/Ws/Tests.antt =====
-- A client that answers its pings, with the settings of approach-2/config/propeller.toml and with
-- others.
use payment_processing.Common.{ℕ, arith, String, ◌≡◌, refl, true, false, List, [], ◌∷◌, none}
use payment_processing.Propeller.Config.{default_auth_config}
use payment_processing.Propeller.Push.Fixtures.{Log, recorder, fields, json, config, start}
use payment_processing.Propeller.Server.Entry.{Settings, from_secs}
use payment_processing.Propeller.Server.Ws.{
  Happening, Socket, ping_tick, pong_frame, close_frame, connect_ack, serve, handle_ws,
}
use payment_processing.Propeller.Server.Ws.Pings.{rounds, answering_socket_iff}
use payment_processing.Propeller.Server.Ws.Sessions.{Accounted, handle_ws-Accounted}

abbrev settings : ℕ → ℕ → Settings
settings interval timeout = record {
  auth = default_auth_config;
  client_config = config;
  keepalive = record {
    ws_ping_interval_secs = interval;
    ws_pong_timeout_secs = timeout;
    grpc_stream_idle_timeout_secs = 40;
  };
}

abbrev socket : Socket Log (List String)
socket = record { world = start; sent = connect_ack ∷ []; last_pong_at = 0 }

abbrev millisecond : ℕ
millisecond = 1_000_000

answering_socket_iff_example :
    (serve recorder fields json
      (settings 10 30)
      "acme"
      "rider"
      none
      5
      (rounds (from_secs 10) millisecond 3 0)
      socket).0
    ≡ true
answering_socket_iff_example =
    (answering_socket_iff recorder fields json (settings 10 30) "acme" "rider" none 5 millisecond 1
        socket (omega arith)).1
      (omega arith)

-- The settings that are shipped close the connection at the second ping.
shipped_settings :
    (serve recorder fields json
      (settings 30 10)
      "acme"
      "rider"
      none
      5
      (rounds (from_secs 30) millisecond 2 0)
      socket).0
    ≡ false
unfolding serve
shipped_settings = refl

abbrev visit : List Happening
visit =
    record { at = 0; is_writable = true; wake = ping_tick }
    ∷ record { at = millisecond; is_writable = true; wake = pong_frame [] }
    ∷ record { at = from_secs 1; is_writable = true; wake = close_frame }
    ∷ []

handle_ws-Accounted_example :
    Accounted recorder fields json
      (settings 30 10)
      "acme"
      "rider"
      none
      0
      (handle_ws recorder fields json (settings 30 10) "acme" "rider" none 0 true visit start)
handle_ws-Accounted_example =
    handle_ws-Accounted recorder fields json (settings 30 10) "acme" "rider" none 0 visit start

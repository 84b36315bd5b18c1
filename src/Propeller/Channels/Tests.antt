-- ===== src/Propeller/Channels/Tests.antt =====
-- The channel names of the tests of approach-2/src/auth/mod.rs.
use payment_processing.Common.{String, ◌≡◌, ◌≢◌, refl, arith}
use payment_processing.Common.Text.{eq_iff}
use payment_processing.Propeller.Channels.{client_channel, device_channel, topic_channel}
use payment_processing.Propeller.Channels.Isolation.{
  Channel, channel_name, channel_name_injective, tenant_isolation,
}

channel_namespaces_are_canonical :
    (client_channel "t1" "u1" ≡ "tenant:t1:client:u1")
    × (device_channel "t1" "u1" "d1" ≡ "tenant:t1:client:u1:device:d1")
    × (topic_channel "t1" "payment" ≡ "tenant:t1:topic:payment")
unfolding client_channel device_channel topic_channel
channel_namespaces_are_canonical = (refl, refl, refl)

-- A colon in a client's identifier makes its channel that of another client's device.
client_device_collision : client_channel "t1" "u1:device:d1" ≡ device_channel "t1" "u1" "d1"
unfolding client_channel device_channel
client_device_collision = refl

channel_name_injective_example :
    (◌≡◌ {A = String} "t1" "t1") × (Channel.device "u1" "d:1" ≡ Channel.device "u1" "d:1")
channel_name_injective_example =
    channel_name_injective "t1" "t1" (Channel.device "u1" "d:1") (Channel.device "u1" "d:1")
      (omega arith) (omega arith) (omega arith) (omega arith) refl

tenant_isolation_example :
    channel_name "t1" (Channel.client "a:b") ≢ channel_name "t2" (Channel.topic "x:y")
tenant_isolation_example =
    tenant_isolation "t1" "t2" (Channel.client "a:b") (Channel.topic "x:y") (omega arith)
      (omega arith) (ground (arith, eq_iff "t1" "t2"))

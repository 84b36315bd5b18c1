-- ===== src/Propeller/Channels.antt =====
-- The channel names of approach-2/src/auth/mod.rs.
pub mod Isolation
mod Tests
use payment_processing.Common.{String}
use payment_processing.Common.Text.{◌++◌}

unfoldable pub client_channel : String → String → String
client_channel tenant_id client_id = "tenant:" ++ (tenant_id ++ (":client:" ++ client_id))

unfoldable pub device_channel : String → String → String → String
device_channel tenant_id client_id device_id =
    "tenant:" ++ (tenant_id ++ (":client:" ++ (client_id ++ (":device:" ++ device_id))))

unfoldable pub topic_channel : String → String → String
topic_channel tenant_id topic = "tenant:" ++ (tenant_id ++ (":topic:" ++ topic))

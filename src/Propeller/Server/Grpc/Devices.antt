-- ===== src/Propeller/Server/Grpc/Devices.antt =====
-- Whose devices `get_client_active_devices` of approach-2/src/server/grpc_handler.rs tells of.
use payment_processing.Common.{
  String, ◌≡◌, refl, Result, ok, err, Bool, Bool-cases, inl, inr, ◌||◌, not, List, if◌then◌else◌,
}
use payment_processing.Common.Text.{is_empty, ◌==◌ as same_text, eq_iff}
use payment_processing.Propeller.Error.{PropellerError, Status, to_status, permission_denied}
use payment_processing.Propeller.Auth.Jwt.{Platform, AuthContext}
use payment_processing.Propeller.Auth.Service.{Metadata}
use payment_processing.Propeller.Action.{outcome, after, give}
use payment_processing.Propeller.Ports.{PubSub, KeyValue}
use payment_processing.Propeller.Push.{World, Json, Device, get_active_devices}
use payment_processing.Propeller.Server.Messages.{ActiveDevicesResponse, ok_status}
use payment_processing.Propeller.Server.Entry.{Settings, auth_client}
use payment_processing.Propeller.Server.Grpc.{get_client_active_devices, push, no_devices}

module _ {S K : Type 0} (pubsub : PubSub S) (kv : KeyValue K) (json : Json) (platform : Platform)
    (settings : Settings) where
  -- The answer that lists what the push service finds, or gives its error.
  abbrev pub listed :
      Result PropellerError (List Device) × World S K
      → Result Status ActiveDevicesResponse × World S K
  listed (ok devices, w) =
      let online = not (no_devices devices) in
      (ok (record { status = ok_status; is_client_online = online; devices = devices }), w)
  listed (err e, w) = (err (to_status e), w)

  -- The devices of the caller, by its own tenant and client, or the refusal of another client's.
  abbrev pub OwnOnly :
      Metadata
      → String
      → World S K
      → Result Status (AuthContext × Bool)
      → Result Status ActiveDevicesResponse × World S K
      → Type 0
  OwnOnly metadata requested w (err status) end = end ≡ (err status, w)
  OwnOnly metadata requested w (ok (viewer, legacy)) end = end ≡ (
      if is_empty requested || same_text requested viewer.client_id
      then listed (
          get_active_devices pubsub kv json settings.client_config
            (record { tenant_id = viewer.tenant_id; client_id = viewer.client_id }) w)
      else (err (to_status (permission_denied "client id mismatch")), w))

  -- A caller that is not authenticated is refused as its authentication is. Any other is answered with
  -- the devices that the push service finds for the caller's own tenant and client, or with its error,
  -- if it names no client or itself, and is refused if it names another client, without a change.
  pub get_client_active_devices-OwnOnly :
      (metadata : Metadata) (requested : String) (w : World S K)
      → OwnOnly metadata requested w
          (auth_client platform settings metadata)
          (get_client_active_devices pubsub kv json platform settings metadata requested w)
  unfolding get_client_active_devices
  get_client_active_devices-OwnOnly metadata requested w =
      by_caller (auth_client platform settings metadata) refl
    where
      listing :
          (viewer : AuthContext)
          → let found =
              get_active_devices pubsub kv json settings.client_config
                (record { tenant_id = viewer.tenant_id; client_id = viewer.client_id })
                w in
            after (push (λ _. found) w) (λ devices. give (record {
              status = ok_status;
              is_client_online = not (no_devices devices);
              devices = devices;
            }))
            ≡ listed found
      listing viewer =
          elim (outcome (
            get_active_devices pubsub kv json settings.client_config
              (record { tenant_id = viewer.tenant_id; client_id = viewer.client_id }) w)) [
                | inl (devices, end, eq) ↦ rw eq refl
                | inr (e, end, eq) ↦ rw eq refl
              ]

      by_caller :
          (caller : Result Status (AuthContext × Bool))
          → auth_client platform settings metadata ≡ caller
          → OwnOnly metadata requested w caller
              (get_client_active_devices pubsub kv json platform settings metadata requested w)
      by_caller (err status) e = rw e refl
      by_caller (ok (viewer, legacy)) e = elim (Bool-cases (is_empty requested)) [
        | inl none ↦ rw (e, none) (listing viewer)
        | inr some ↦ elim (Bool-cases (same_text requested viewer.client_id)) [
          | inl own ↦ rw (e, some, own, (eq_iff requested viewer.client_id).0 own) (listing viewer)
          | inr other ↦ rw (e, some, other) refl
        ]
      ]

-- ===== src/Propeller/Push/Devices.antt =====
-- The devices that the store lists for a client, against its subscriptions.
use payment_processing.Common.{
  ℕ, String, ◌≡◌, refl, ap, ◌∙◌, true, List, [], ◌∷◌, map, Option, none, some, ok, arith,
  if◌then◌else◌, Bool-cases, inl, inr, unwrap_or,
}
use payment_processing.Common.Text.{eq_refl, ◌==◌ as same_text}
use payment_processing.Propeller.Config.{ClientConfig}
use payment_processing.Propeller.Action.{outcome}
use payment_processing.Propeller.Ports.{PubSub, KeyValue}
use payment_processing.Propeller.Store.Refinement.{lookup, IsStore}
use payment_processing.Propeller.Push.{
  World, Json, Device, Attributes, GetActiveDevicesRequest, device_key, device_of, subscribe_client,
  unsubscribe_client, get_active_devices,
}

-- The attributes of the device with an identifier, among some devices.
abbrev pub find_device : String → List Device → Option Attributes
find_device id [] = none
find_device id (dev ∷ devices) =
    if same_text dev.id id then some dev.attributes else find_device id devices

module _ {S K : Type 0} (pubsub : PubSub S) (kv : KeyValue K) (json : Json) (config : ClientConfig)
    (laws : IsStore kv) where
  abbrev attributes_of : Option String → Option Attributes
  attributes_of none = none
  attributes_of (some text) = some (unwrap_or (json.from_str text) [])

  find_device-map :
      (id : String) (entries : List (String × String))
      → find_device id (map (device_of pubsub kv json config) entries)
        ≡ attributes_of (lookup id entries)
  find_device-map id [] = refl
  find_device-map id ((field, text) ∷ entries) = elim (Bool-cases (same_text field id)) [
    | inl e ↦ rw e refl
    | inr e ↦ rw e (find_device-map id entries)
  ]

  loaded :
      (req : GetActiveDevicesRequest) (w end : World S K) (devices : List Device)
      → get_active_devices pubsub kv json config req w ≡ (ok devices, end)
      → (entries : List (String × String)) × ((kv.load
            (device_key req.tenant_id req.client_id)
            w.kv).0
          ≡ ok entries)
        × (devices ≡ map (device_of pubsub kv json config) entries)
  unfolding get_active_devices
  loaded req w end devices h =
      elim (outcome (kv.load (device_key req.tenant_id req.client_id) w.kv)) [
        | inl (entries, s, eq) ↦ (entries, ap (λ r. r.0) eq, ground arith)
        | inr (e, s, eq) ↦ ground arith
      ]

  listed :
      (req : GetActiveDevicesRequest) (w end : World S K) (devices : List Device)
      → get_active_devices pubsub kv json config req w ≡ (ok devices, end)
      → (id : String)
      → find_device id devices
        ≡ attributes_of (laws.value_of w.kv (device_key req.tenant_id req.client_id) id)
  listed req w end devices h id =
      let (entries, got, same) = loaded req w end devices h in
      ap (find_device id) same
      ∙ find_device-map id entries
      ∙ ap attributes_of
          (laws.lookup-load (device_key req.tenant_id req.client_id) w.kv entries got id)

  stored :
      (tenant_id client_id : String) (dev : Device) (text : String) (w end : World S K) (sub : ℕ)
      → config.enable_device_support ≡ true
      → json.to_string dev.attributes ≡ ok text
      → (kv.store (device_key tenant_id client_id) dev.id text w.kv).0 ≡ ok tt
      → subscribe_client pubsub kv json config tenant_id client_id (some dev) w ≡ (ok sub, end)
      → end.kv ≡ (kv.store (device_key tenant_id client_id) dev.id text w.kv).1
  unfolding subscribe_client
  stored tenant_id client_id dev text w end sub on written kept h = ground arith

  abbrev devices_of : String → String → GetActiveDevicesRequest
  devices_of tenant_id client_id = record { tenant_id = tenant_id; client_id = client_id }

  -- With device support on, a device that has subscribed is among its client's active devices, with
  -- the attributes that it came with, if the store took its entry and the attributes are read back
  -- as they were written.
  pub get_active_devices-subscribe_client :
      (tenant_id client_id : String) (dev : Device) (text : String) (w mid end : World S K)
      (sub : ℕ) (devices : List Device)
      → config.enable_device_support ≡ true
      → json.to_string dev.attributes ≡ ok text
      → json.from_str text ≡ some dev.attributes
      → (kv.store (device_key tenant_id client_id) dev.id text w.kv).0 ≡ ok tt
      → subscribe_client pubsub kv json config tenant_id client_id (some dev) w ≡ (ok sub, mid)
      → get_active_devices pubsub kv json config
          (record { tenant_id = tenant_id; client_id = client_id })
          mid
        ≡ (ok devices, end)
      → find_device dev.id devices ≡ some dev.attributes
  get_active_devices-subscribe_client tenant_id client_id dev text w mid end sub devices on written
        read kept h got =
      let key = device_key tenant_id client_id in
      listed (devices_of tenant_id client_id) mid end devices got dev.id
      ∙ ap (λ s. attributes_of (laws.value_of s key dev.id))
          (stored tenant_id client_id dev text w mid sub on written kept h)
      ∙ ap attributes_of (laws.value_of-store key dev.id text w.kv kept key dev.id)
      ∙ rw (eq_refl key, eq_refl dev.id, read) refl

  -- With device support on, a client whose device unsubscribes no longer has it among its active
  -- devices, if the store drops its entry, also while another subscription of the device is open.
  pub get_active_devices-unsubscribe_client :
      (tenant_id client_id : String) (dev : Device) (w end : World S K) (sub : ℕ)
      (devices : List Device)
      → config.enable_device_support ≡ true
      → (kv.delete (device_key tenant_id client_id) (dev.id ∷ []) w.kv).0 ≡ ok tt
      → get_active_devices pubsub kv json config
          (record { tenant_id = tenant_id; client_id = client_id })
          (unsubscribe_client pubsub kv json config tenant_id client_id sub (some dev) w).1
        ≡ (ok devices, end)
      → find_device dev.id devices ≡ none
  unfolding unsubscribe_client
  get_active_devices-unsubscribe_client tenant_id client_id dev w end sub devices on dropped got =
      let key = device_key tenant_id client_id in
      let gone =
        (unsubscribe_client pubsub kv json config tenant_id client_id sub (some dev) w).1 in
      let same : gone.kv ≡ (kv.delete key (dev.id ∷ []) w.kv).1 = ground arith in
      listed (devices_of tenant_id client_id) gone end devices got dev.id
      ∙ ap (λ s. attributes_of (laws.value_of s key dev.id)) same
      ∙ ap attributes_of (laws.value_of-delete key (dev.id ∷ []) w.kv dropped key dev.id)
      ∙ rw (eq_refl key, eq_refl dev.id) refl

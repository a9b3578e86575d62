-- ===== src/DeviceLink/Requester.antt =====
-- The new device's half of the ceremony: runDeviceLinkRequester (src/device-link/DeviceLinkRequester.js).
-- The lengths of its sleeps and what the status listener is told are left out.
use rez_sdk.Common.{
  ℕ, ◌+◌, Bool, Option, none, some, List, [], ◌∷◌, any, leb, String, str_eq, if◌then◌else◌,
}

-- What the device asks of the world, in the order in which it asks.
pub data Effect {ℓ} (Delegation : Type ℓ) : Type ℓ where
  put_request : Effect Delegation
  persisted : Delegation → Effect Delegation
  put_confirm : Effect Delegation

pub data LinkError : Type 0 where
  timed_out : LinkError
  chain_rejected : LinkError
  not_granted : String → LinkError
  failure : LinkError

-- A turn of the poll: the time, and the record that lies at the rendezvous, if any.
pub record Look {ℓ} (Sealed : Type ℓ) : Type ℓ where
  pub at : ℕ
  pub found : Option Sealed

-- The end of a run. `waiting` is a run that the turns which were given do not end.
pub data Ended {ℓ} (Delegation : Type ℓ) : Type ℓ where
  linked : Delegation → Ended Delegation
  threw : LinkError → Ended Delegation
  waiting : Ended Delegation

-- `verifyAccountAuthority`: the capabilities that are granted, or a rejection
pub data Authority : Type 0 where
  granted : List String → Authority
  rejected : Authority

-- The core library's ceremony and the ports; an operation that answers `none` throws.
pub record Ports : Type 1 where
  pub Request : Type 0
  pub Sealed : Type 0
  pub Payload : Type 0
  pub Opened : Type 0
  pub Delegation : Type 0
  -- The code is parsed, keys and inbox are made, and the request is built and sealed.
  pub prepare : String → ℕ → Option Request
  pub put_request_record : Request → Bool
  pub verify_record : ℕ → Request → Sealed → Option Payload
  pub open_response : Request → Payload → Option Opened
  pub verify_authority : Request → Opened → Option Authority
  pub result_of : Request → Opened → Delegation
  pub persist : Delegation → Bool
  pub build_confirm : Request → Opened → Bool
  pub put_confirm_record : Request → Opened → Bool
  pub device_set_publish : String

unfoldable pub missing : List String → List String → Option String
missing [] held = none
missing (c ∷ cs) held = if any (str_eq c) held then missing cs held else some c

module _ (ports : Ports) where
  open ports use {Request, Sealed, Payload, Opened, Delegation}

  abbrev pub Run : Type 0
  Run = List (Effect Delegation) × Ended Delegation

  -- `DEVICE_LINK_LEAF_CAPABILITIES`
  abbrev pub leaf_capabilities : List String
  leaf_capabilities = "peerLink.create" ∷ ports.device_set_publish ∷ []

  abbrev pub confirm_persisted : Request → Opened → Delegation → Run
  confirm_persisted request opened result =
      if ports.build_confirm request opened
      then (
        put_request ∷ persisted result ∷ put_confirm ∷ [],
        if ports.put_confirm_record request opened then linked result else threw failure,
      )
      else (put_request ∷ persisted result ∷ [], threw failure)

  abbrev pub confirm : Request → Opened → Run
  confirm request opened =
      let result = ports.result_of request opened in
      if ports.persist result
      then confirm_persisted request opened result
      else (put_request ∷ persisted result ∷ [], threw failure)

  abbrev pub stop : LinkError → Run
  stop e = (put_request ∷ [], threw e)

  abbrev pub check_granted : Request → Opened → Option String → Run
  check_granted request opened none = confirm request opened
  check_granted request opened (some capability) = stop (not_granted capability)

  abbrev pub check_authority : Request → Opened → Option Authority → Run
  check_authority request opened none = stop failure
  check_authority request opened (some rejected) = stop chain_rejected
  check_authority request opened (some (granted held)) =
      check_granted request opened (missing leaf_capabilities held)

  abbrev pub validate : Request → Option Opened → Run
  validate request none = stop failure
  validate request (some opened) =
      check_authority request opened (ports.verify_authority request opened)

  abbrev pub open_payload : Request → Option Payload → Run
  open_payload request none = stop failure
  open_payload request (some payload) = validate request (ports.open_response request payload)

  abbrev pub look_closer : Request → ℕ → Option Sealed → Run → Run
  look_closer request at none later = later
  look_closer request at (some sealed) later =
      open_payload request (ports.verify_record at request sealed)

  -- The loop: each turn reads the clock, then the record.
  unfoldable pub poll : Request → ℕ → List (Look Sealed) → Run
  unfolding missing
  poll request deadline [] = (put_request ∷ [], waiting)
  poll request deadline (l ∷ ls) =
      let later = poll request deadline ls in
      if leb deadline l.at then stop timed_out else look_closer request l.at l.found later

  abbrev pub started : Option Request → ℕ → List (Look Sealed) → Run
  started none deadline looks = ([], threw failure)
  started (some request) deadline looks =
      if ports.put_request_record request
      then poll request deadline looks
      else (put_request ∷ [], threw failure)

  -- `runDeviceLinkRequester`
  unfoldable pub run_device_link_requester : String → ℕ → ℕ → List (Look Sealed) → Run
  unfolding poll
  run_device_link_requester code started_at deadline_ms looks =
      started (ports.prepare code started_at) (started_at + deadline_ms) looks

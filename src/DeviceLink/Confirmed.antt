-- ===== src/DeviceLink/Confirmed.antt =====
-- What a key confirmation of the new device stands on (src/device-link/DeviceLinkRequester.js).
use rez_sdk.Common.{
  ℕ, ◌+◌, ◌≡◌, refl, sym, ◌∙◌, Bool, true, false, Option, none, some, List, [], ◌∷◌, any, leb,
  String, str_eq, inl, inr, Bool-cases, arith,
}
use rez_sdk.DeviceLink.Requester.{
  Effect, put_request, persisted, put_confirm, Look, Authority, granted, rejected, Ports, missing,
  Run, leaf_capabilities, confirm, check_granted, check_authority, validate, open_payload,
  look_closer, poll, started, run_device_link_requester,
}

module _ (ports : Ports) where
  open ports use {Request, Sealed, Payload, Opened, Delegation}

  abbrev pub is_confirm : Effect Delegation → Bool
  is_confirm put_confirm = true
  is_confirm put_request = false
  is_confirm (persisted d) = false

  -- The authority behind a confirmation, and what was done before it.
  pub record IsBacked (run : Run ports) : Type 0 where
    pub request : Request
    pub opened : Opened
    pub held : List String
    pub verified : ports.verify_authority request opened ≡ some (granted held)
    pub creates : any (str_eq "peerLink.create") held ≡ true
    pub publishes : any (str_eq ports.device_set_publish) held ≡ true
    pub kept : ports.persist (ports.result_of request opened) ≡ true
    pub done_before :
        run.0 ≡ put_request ∷ persisted (ports.result_of request opened) ∷ put_confirm ∷ []

  abbrev Confirms : Run ports → Type 0
  Confirms run = any is_confirm run.0 ≡ true

  missing-none :
      (c : String) (cs held : List String)
      → missing (c ∷ cs) held ≡ none
      → (any (str_eq c) held ≡ true) × (missing cs held ≡ none)
  unfolding missing
  missing-none c cs held = elim (Bool-cases (any (str_eq c) held)) [
    | inl has ↦ λ h. (has, sym (rw has refl) ∙ h)
    | inr lacks ↦ rw lacks (λ h. absurd (ground (arith, h)))
  ]

  confirm-IsBacked :
      (request : Request) (opened : Opened) (held : List String)
      → ports.verify_authority request opened ≡ some (granted held)
      → missing (leaf_capabilities ports) held ≡ none
      → Confirms (confirm ports request opened)
      → IsBacked (confirm ports request opened)
  confirm-IsBacked request opened held verified all_granted =
      let (creates, others) =
        missing-none "peerLink.create" (ports.device_set_publish ∷ []) held all_granted in
      let (publishes, none_left) = missing-none ports.device_set_publish [] held others in
      elim (Bool-cases (ports.persist (ports.result_of request opened))) [
        | inr lost ↦ rw lost (λ h. absurd (ground (arith, h)))
        | inl kept ↦ elim (Bool-cases (ports.build_confirm request opened)) [
          | inr unbuilt ↦ rw (kept, unbuilt) (λ h. absurd (ground (arith, h)))
          | inl built ↦ λ h. record {
            request = request;
            opened = opened;
            held = held;
            verified = verified;
            creates = creates;
            publishes = publishes;
            kept = kept;
            done_before = rw (kept, built) refl;
          }
        ]
      ]

  granted-IsBacked :
      (request : Request) (opened : Opened) (held : List String) (lacks : Option String)
      → ports.verify_authority request opened ≡ some (granted held)
      → missing (leaf_capabilities ports) held ≡ lacks
      → Confirms (check_granted ports request opened lacks)
      → IsBacked (check_granted ports request opened lacks)
  granted-IsBacked request opened held none verified lacks h =
      confirm-IsBacked request opened held verified lacks h
  granted-IsBacked request opened held (some c) verified lacks h = absurd (ground (arith, h))

  authority-IsBacked :
      (request : Request) (opened : Opened) (authority : Option Authority)
      → ports.verify_authority request opened ≡ authority
      → Confirms (check_authority ports request opened authority)
      → IsBacked (check_authority ports request opened authority)
  authority-IsBacked request opened none verified h = absurd (ground (arith, h))
  authority-IsBacked request opened (some rejected) verified h = absurd (ground (arith, h))
  authority-IsBacked request opened (some (granted held)) verified h =
      granted-IsBacked request opened held (missing (leaf_capabilities ports) held) verified refl h

  validate-IsBacked :
      (request : Request) (opened : Option Opened)
      → Confirms (validate ports request opened)
      → IsBacked (validate ports request opened)
  validate-IsBacked request none h = absurd (ground (arith, h))
  validate-IsBacked request (some opened) h =
      authority-IsBacked request opened (ports.verify_authority request opened) refl h

  open_payload-IsBacked :
      (request : Request) (payload : Option Payload)
      → Confirms (open_payload ports request payload)
      → IsBacked (open_payload ports request payload)
  open_payload-IsBacked request none h = absurd (ground (arith, h))
  open_payload-IsBacked request (some payload) h =
      validate-IsBacked request (ports.open_response request payload) h

  look_closer-IsBacked :
      (request : Request) (at : ℕ) (found : Option Sealed) (later : Run ports)
      → (Confirms later → IsBacked later)
      → Confirms (look_closer ports request at found later)
      → IsBacked (look_closer ports request at found later)
  look_closer-IsBacked request at none later backed h = backed h
  look_closer-IsBacked request at (some sealed) later backed h =
      open_payload-IsBacked request (ports.verify_record at request sealed) h

  poll-IsBacked :
      (request : Request) (deadline : ℕ) (looks : List (Look Sealed))
      → Confirms (poll ports request deadline looks)
      → IsBacked (poll ports request deadline looks)
  unfolding poll
  poll-IsBacked request deadline [] = λ h. absurd (ground (arith, h))
  poll-IsBacked request deadline (l ∷ ls) = elim (Bool-cases (leb deadline l.at)) [
    | inl late ↦ rw late (λ h. absurd (ground (arith, h)))
    | inr early ↦ rw early (
        look_closer-IsBacked request l.at l.found (poll ports request deadline ls)
          (poll-IsBacked request deadline ls))
  ]

  started-IsBacked :
      (request : Option Request) (deadline : ℕ) (looks : List (Look Sealed))
      → Confirms (started ports request deadline looks)
      → IsBacked (started ports request deadline looks)
  started-IsBacked none deadline looks = λ h. absurd (ground (arith, h))
  started-IsBacked (some request) deadline looks =
      elim (Bool-cases (ports.put_request_record request)) [
        | inl sent ↦ rw sent (poll-IsBacked request deadline looks)
        | inr unsent ↦ rw unsent (λ h. absurd (ground (arith, h)))
      ]

  -- The new device confirms only as a device that was granted its capabilities and can come back: if a
  -- run puts a confirmation, then an authority was verified that grants every capability of a linked
  -- device, and the delegation was persisted without an error after the request and before the
  -- confirmation; and it did nothing else.
  pub run-IsBacked :
      (code : String) (started_at deadline_ms : ℕ) (looks : List (Look Sealed))
      → any is_confirm (run_device_link_requester ports code started_at deadline_ms looks).0 ≡ true
      → IsBacked (run_device_link_requester ports code started_at deadline_ms looks)
  unfolding run_device_link_requester
  run-IsBacked code started_at deadline_ms looks =
      started-IsBacked (ports.prepare code started_at) (started_at + deadline_ms) looks

-- ===== src/E2ee/Base.antt =====
-- What the secure channel keeps and what it asks of the core library
-- (src/e2ee/SecureChannelManager.js). What it logs is left out.
use rez_sdk.Common.{Bool, Option, none, some, String, if◌then◌else◌}

-- A key that is absent is the empty text.
pub record KeyPair : Type 0 where
  pub public_key : String
  pub private_key : String

pub record SendContext {ℓ} (State : Type ℓ) : Type ℓ where
  pub sid : String
  pub ratchet_state : State
  pub include_dh : Bool

pub record RecvContext {ℓ} (State : Type ℓ) : Type ℓ where
  pub peer_id : String
  pub ratchet_state : State

-- What is sent beside the first message
pub record HandshakeData : Type 0 where
  pub ephemeral_public_key_b64 : String
  pub used_one_time_pre_key : Bool
  pub receiver_id : String
  pub initiator_dh_public_key_b64 : String

-- A JSON object that came in: the type in its header, and the session id in the header of its body.
pub record Outer {ℓ} (Envelope : Type ℓ) : Type ℓ where
  pub header_type : Option String
  pub envelope : Option Envelope
  pub sid : Option String

-- An operation returns a value, or throws.
pub data Failure : Type 0 where
  requires : String → Failure
  no_session : Failure
  bad_envelope : Failure
  core_error : Failure
  bad_base64 : Failure

pub data Result {ℓ} (A : Type ℓ) : Type ℓ where
  failed : Failure → Result A
  done : A → Result A

-- What `decryptPayload` returns; `none` is `null`.
pub record Plain : Type 0 where
  pub plaintext_bytes : String
  pub peer_id : String

-- The core library: X3DH, the ratchet, the envelope codec, base64 and the table of sessions. An operation
-- that answers `none` throws.
pub record Core : Type 1 where
  pub State : Type 0
  pub Envelope : Type 0
  pub Bundle : Type 0
  pub Sessions : Type 0
  pub signed_pre_key_public : Bundle → String
  pub create_receiver_bundle : String → KeyPair → KeyPair → Option Bundle
  -- The handshake's receiver, ephemeral key and use of a one-time key, and the secret
  pub initiator_compute : Bundle → Option (String × String × Bool × String)
  pub receiver_compute : Bundle → String → String → String → Bool → Option String
  pub create_initiator_session :
      String → String → KeyPair → String → Sessions → Option (Sessions × String)
  pub create_responder_session :
      String → String → KeyPair → String → Sessions → Option (Sessions × String)
  pub rotate_dh : String → Sessions → Option Sessions
  pub get_send_context : String → Sessions → Option (SendContext State)
  pub commit_send : String → State → Sessions → Sessions
  pub get_recv_context : String → Sessions → Option (RecvContext State)
  pub commit_recv : String → State → Sessions → Sessions
  -- A session manager may have no snapshots.
  pub Snapshot : Type 0
  pub empty_snapshot : Snapshot
  pub manager_export : Option (Sessions → Snapshot)
  pub manager_import : Option (Snapshot → Sessions → Sessions)
  pub has_sending_chain : State → Bool
  pub remote_dh_public_key : State → Option String
  pub ratchet_step : State → String → Option State
  pub encode : String → String → State → Bool → Option (Envelope × State)
  pub decode : Envelope → String → State → Option (Option String × State)
  pub to_json : Envelope → String
  pub from_json : String → Option (Outer Envelope)
  pub bytes_to_base64 : String → String
  pub base64_to_bytes : String → Option String

module _ (core : Core) where
  open core use {State, Envelope, Bundle, Sessions, Snapshot}

  -- The sessions behind an operation, and what it answers
  abbrev pub Outcome : Type 0 → Type 0
  Outcome A = Sessions × Result A

  abbrev pub or_throw : {A B : Type 0} → Failure → Sessions → Option A → (A → Outcome B) → Outcome B
  or_throw e s none next = (s, failed e)
  or_throw e s (some a) next = next a

  abbrev pub require : {B : Type 0} → Bool → String → Sessions → Outcome B → Outcome B
  require ok what s next = if ok then next else (s, failed (requires what))

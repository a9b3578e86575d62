-- ===== src/PeerLink/Devices.antt =====
-- Secure sessions with each device of a peer (src/peer-link/DevicePeerSessions.js) over the session
-- store. The lock of a device makes one step of what runs under it.
pub mod Advance
pub mod Trial
pub mod Responder
use Prim.Native.String.{◌++◌ as append}
use rez_sdk.Common.{
  ℕ, zero, suc, Bool, true, false, not, ◌&&◌, Option, none, some, List, [], ◌∷◌, String, str_eq,
  if◌then◌else◌,
}
use rez_sdk.Common.Text.{is_empty, trim}
use rez_sdk.PeerLink.Storage.Base.{
  Record, blank, Stored, object, text, array, null, KeyValueStore, StorageError, Result, ok, throws,
  Host,
}
use rez_sdk.PeerLink.Storage.Sessions.{get_by_peer_link_and_device, list_by_peer_link, put}

-- What the codec makes of a packet under a session: who sent it, "" if it does not fit the session, and
-- the snapshot after it.
pub record Incoming : Type 0 where
  pub encrypted : Bool
  pub peer_id : String
  pub handshake : Bool
  pub plaintext : String
  pub snapshot : String

pub record KeyPair : Type 0 where
  pub public_key : String
  pub private_key : String

-- The primitives of the core library: `none` stands for what they throw. Bytes are texts.
pub record Crypto : Type 0 where
  pub sign : String → String → String
  -- `prepareInviteBinding`: the bundle and the pre-key state
  pub prepare_invite_binding : String → KeyPair → KeyPair → Option (String × String)
  -- `processAcceptedInvite`: the handshake's data and the snapshot
  pub process_accepted_invite :
      String → String → KeyPair → KeyPair → String → Option (String × String)
  -- `completeInviteHandshake`: the sender's signing key, if it is one, and the snapshot
  pub complete_invite_handshake :
      String → String → String → String → Option (Option String × String)
  -- `deviceIdFor` of a key
  pub device_id_for : String → String
  -- `encryptForPeer` under a snapshot: the packet and the snapshot after it
  pub encrypt_for_peer : String → String → String → Option (String × String)
  pub decrypt_incoming : String → String → Option Incoming

pub data DeviceError : Type 0 where
  requires : String → DeviceError
  storage : StorageError → DeviceError
  thrown unauthenticated device_id_mismatch thread_not_ready decrypt_failed : DeviceError

pub data Attempt {ℓ} (A : Type ℓ) : Type ℓ where
  fail : DeviceError → Attempt A
  done : A → Attempt A

infixl 5 ◌>>=◌ ◌>>◌
abbrev pub ◌>>=◌ {ℓ κ} : {A : Type ℓ} {B : Type κ} → Attempt A → (A → Attempt B) → Attempt B
fail e >>= next = fail e
done value >>= next = next value

abbrev pub ◌>>◌ {ℓ} : {B : Type ℓ} → Attempt (Unit {0}) → Attempt B → Attempt B
required >> rest = required >>= λ _. rest

abbrev pub from_storage {ℓ} : {A : Type ℓ} → Result A → Attempt A
from_storage (ok a) = done a
from_storage (throws e) = fail (storage e)

abbrev pub from_core {ℓ} : {A : Type ℓ} → Option A → Attempt A
from_core none = fail thrown
from_core (some a) = done a

-- `requireNonEmpty` and `requireKeyPair`
unfoldable pub require_non_empty : String → String → Attempt (Unit {0})
require_non_empty value label = if is_empty (trim value) then fail (requires label) else done tt

unfoldable pub require_key_pair : Option KeyPair → String → Attempt KeyPair
require_key_pair none label = fail (requires label)
require_key_pair (some kp) label = done kp

-- `!record || typeof record !== "object"`
abbrev pub session_of : Option Stored → Option Record
session_of (some (object r)) = some r
session_of (some (array _)) = some blank
session_of _ = none

-- `a || b` of texts and of times
abbrev pub text_or : String → String → String
text_or a b = if is_empty a then b else a

abbrev pub time_or : ℕ → ℕ → ℕ
time_or zero b = b
time_or (suc a) b = suc a

-- The device that a call is about.
pub record Device : Type 0 where
  pub owner_account_id : String
  pub peer_account_id : String
  pub peer_link_id : String
  pub peer_device_id : String

unfoldable pub require_device : Device → Attempt (Unit {0})
unfolding require_non_empty
require_device d = do
  require_non_empty d.owner_account_id "ownerAccountId"
  require_non_empty d.peer_account_id "peerAccountId"
  require_non_empty d.peer_link_id "peerLinkId"
  require_non_empty d.peer_device_id "peerDeviceId"

-- `{ ...sessionRecord, ratchetSnapshot, updatedAtMs }`
abbrev pub advance : Record → String → ℕ → Record
advance r snapshot now = record r { ratchet_snapshot = snapshot; updated_at_ms = now }

abbrev pub session_id_or : Option Record → String → String
session_id_or none fresh = fresh
session_id_or (some r) fresh = text_or r.session_id fresh

abbrev pub created_or : Option Record → ℕ → ℕ
created_or none now = now
created_or (some r) now = time_or r.created_at_ms now

-- The record of a session that is established, over the one that is there.
unfoldable pub established : Device → String → ℕ → String → Option Record → Record
established d snapshot now uuid existing = record {
  peer_link_id = d.peer_link_id;
  local_account_id = d.owner_account_id;
  peer_account_id = d.peer_account_id;
  owner_account_id = "";
  session_id = session_id_or existing (append "pls_" uuid);
  handshake_attempt_id = "";
  event_id = "";
  peer_device_id = d.peer_device_id;
  status = "active";
  version = 0;
  ratchet_snapshot = snapshot;
  created_at_ms = created_or existing now;
  updated_at_ms = now;
  rest = "";
}

-- `buildDevicePreKeyBundle`
unfoldable pub build_device_pre_key_bundle :
    Crypto → String → Option KeyPair → Option KeyPair → Attempt (String × String)
unfolding require_non_empty require_key_pair
build_device_pre_key_bundle c owner identity identity_dh = do
  require_non_empty owner "ownerAccountId"
  k ← require_key_pair identity "identityKeyPair"
  dh ← require_key_pair identity_dh "identityDhKeyPair"
  from_core (c.prepare_invite_binding owner k dh)

-- What `tryDecrypt` accepts: a packet of the session, from the peer that is expected if one is.
unfoldable pub is_from : String → Incoming → Bool
is_from expected i =
    i.encrypted
    && not (is_empty i.peer_id)
    && not i.handshake
    && (if is_empty expected then true else str_eq i.peer_id expected)

module _ (kv : KeyValueStore) (c : Crypto) where
  abbrev pub find : Device → kv.State → Result (Option Stored)
  find d s = get_by_peer_link_and_device kv d.owner_account_id d.peer_link_id d.peer_device_id s

  -- `#persistDeviceSession`
  unfoldable pub persist_device_session :
      Device → String → ℕ → String → kv.State → Attempt (kv.State × String)
  unfolding established
  persist_device_session d snapshot now uuid s = do
    existing ← from_storage (find d s)
    (s', stored) ← from_storage (put kv (established d snapshot now uuid (session_of existing)) s)
    done (s', stored.session_id)

  -- `establishInitiatorDeviceSession`: the handshake's data and the session's id.
  unfoldable pub establish_initiator :
      Device
      → Option String
      → Option KeyPair
      → Option KeyPair
      → ℕ
      → String
      → kv.State
      → Attempt (kv.State × String × String)
  unfolding require_device require_key_pair persist_device_session
  establish_initiator d bundle identity identity_dh now uuid s = do
    require_device d
    k ← require_key_pair identity "identityKeyPair"
    dh ← require_key_pair identity_dh "identityDhKeyPair"
    b ← elim bundle [ none ↦ fail (requires "peerDeviceBundleJson") | some x ↦ done x ]
    (handshake, snapshot) ←
        from_core
          (c.process_accepted_invite b d.peer_account_id k dh (c.sign k.private_key dh.public_key))
    (s', session_id) ← persist_device_session d snapshot now uuid s
    done (s', handshake, session_id)

  -- The check of the claimed device against the key that the handshake has authenticated.
  unfoldable pub check_claim : Device → Option String → Attempt (Unit {0})
  check_claim d none = fail unauthenticated
  check_claim d (some key) =
      if str_eq (c.device_id_for key) d.peer_device_id then done tt else fail device_id_mismatch

  -- `establishResponderDeviceSession`: the session's id; the authenticated device is the claimed one.
  unfoldable pub establish_responder :
      Device
      → Option KeyPair
      → Option String
      → Option String
      → ℕ
      → String
      → kv.State
      → Attempt (kv.State × String)
  unfolding require_device require_key_pair check_claim persist_device_session
  establish_responder d identity_dh pre_key_state handshake now uuid s = do
    require_device d
    dh ← require_key_pair identity_dh "identityDhKeyPair"
    state ← elim pre_key_state [ none ↦ fail (requires "preKeyState") | some x ↦ done x ]
    h ← elim handshake [ none ↦ fail (requires "handshakeData") | some x ↦ done x ]
    (sender, snapshot) ←
        from_core (c.complete_invite_handshake state dh.private_key h d.peer_account_id)
    check_claim d sender
    persist_device_session d snapshot now uuid s

  abbrev pub required_session : Option Record → Attempt Record
  required_session none = fail thread_not_ready
  required_session (some r) = done r

  -- `encryptForDevice`: the packet and the session's id.
  unfoldable pub encrypt_for_device :
      Device → String → ℕ → kv.State → Attempt (kv.State × String × String)
  unfolding require_device
  encrypt_for_device d plaintext now s = do
    require_device d
    (if is_empty plaintext then fail (requires "plaintextBytes") else done tt)
    stored ← from_storage (find d s)
    r ← required_session (session_of stored)
    (packet, snapshot) ←
        from_core (c.encrypt_for_peer r.ratchet_snapshot d.peer_account_id plaintext)
    (s', _) ← from_storage (put kv (advance r snapshot now) s)
    done (s', packet, r.session_id)

  -- What a session that fits the packet does: its advance is stored.
  abbrev pub accept_if :
      Bool → Record → Incoming → ℕ → kv.State → Attempt (kv.State × Option (String × String))
  accept_if false r i now s = done (s, none)
  accept_if true r i now s = do
    (s', _) ← from_storage (put kv (advance r i.snapshot now) s)
    done (s', some (i.plaintext, r.session_id))

  -- `#tryDecrypt`
  unfoldable pub try_decrypt :
      Record → String → String → ℕ → kv.State → Attempt (kv.State × Option (String × String))
  unfolding is_from
  try_decrypt r expected packet now s = do
    (if is_empty packet then fail (requires "packetBytes") else done tt)
    i ← from_core (c.decrypt_incoming r.ratchet_snapshot packet)
    accept_if (is_from expected i) r i now s

  abbrev pub attempt_session :
      Bool
      → Option Record
      → String
      → String
      → ℕ
      → kv.State
      → Attempt (kv.State × Option (String × String))
  attempt_session require none peer packet now s =
      if require then fail thread_not_ready else done (s, none)
  attempt_session require (some r) peer packet now s =
      try_decrypt r (text_or peer r.peer_account_id) packet now s

  -- `#attemptDeviceDecrypt`
  unfoldable pub attempt_device_decrypt :
      Device → String → Bool → ℕ → kv.State → Attempt (kv.State × Option (String × String))
  unfolding try_decrypt
  attempt_device_decrypt d packet require now s = do
    stored ← from_storage (find d s)
    attempt_session require (session_of stored) d.peer_account_id packet now s

  abbrev pub found_or_failed :
      kv.State × Option (String × String) → Attempt (kv.State × String × String)
  found_or_failed (s, none) = fail decrypt_failed
  found_or_failed (s, some (plaintext, session_id)) = done (s, plaintext, session_id)

  -- `decryptFromDevice`
  unfoldable pub decrypt_from_device :
      Device → String → ℕ → kv.State → Attempt (kv.State × String × String)
  unfolding require_non_empty attempt_device_decrypt
  decrypt_from_device d packet now s = do
    require_non_empty d.owner_account_id "ownerAccountId"
    require_non_empty d.peer_link_id "peerLinkId"
    require_non_empty d.peer_device_id "peerDeviceId"
    r ← attempt_device_decrypt d packet true now s
    found_or_failed r

  abbrev pub device_of : Device → Record → Device
  device_of d r = record d { peer_device_id = r.peer_device_id }

  -- What a trial gives: the device, the plaintext and the session's id.
  abbrev pub Trial : Type 0
  Trial = kv.State × Option (String × String × String)

  abbrev pub trial_or :
      String → kv.State × Option (String × String) → (kv.State → Attempt Trial) → Attempt Trial
  trial_or device (s, none) next = next s
  trial_or device (s, some (plaintext, session_id)) next =
      done (s, some (device, plaintext, session_id))

  unfoldable pub trial_loop : Device → String → ℕ → List Record → kv.State → Attempt Trial
  unfolding attempt_device_decrypt
  trial_loop d packet now [] s = done (s, none)
  trial_loop d packet now (r ∷ rs) s =
      let next = trial_loop d packet now rs in
      let tried =
        attempt_device_decrypt (device_of d r) packet false now s
        >>= λ (x : kv.State × Option (String × String)). trial_or r.peer_device_id x next in
      let passed = next s in if is_empty r.peer_device_id then passed else tried

  -- `trialDecryptAcrossDevices`; the device of `d` is not looked at.
  unfoldable pub trial_decrypt_across_devices :
      Host → Device → String → ℕ → kv.State → Attempt Trial
  unfolding require_non_empty trial_loop
  trial_decrypt_across_devices h d packet now s = do
    require_non_empty d.owner_account_id "ownerAccountId"
    require_non_empty d.peer_link_id "peerLinkId"
    sessions ← from_storage (list_by_peer_link kv h d.owner_account_id d.peer_link_id s)
    trial_loop d packet now sessions s

-- ===== src/FileTransfer.antt =====
-- Files in chunks (src/filetransfer/FileTransferService.js). What the progress listener is told is left
-- out.
pub mod RoundTrip
pub mod Duplicate
use Prim.Native.String.{◌++◌ as append}
use rez_sdk.Common.{
  ℕ, zero, suc, ◌+◌, Bool, true, false, not, ◌&&◌, Option, none, some, List, [], ◌∷◌, ◌++◌, map,
  String, str_eq, if◌then◌else◌,
}
use rez_sdk.Common.Text.{is_empty}
use rez_sdk.Common.Dict.{Dict, lookup, insert, erase}
use rez_sdk.PeerLink.Storage.Base.{Stored, text, KeyValueStore, read}

-- Bytes are texts.
pub record Chunk : Type 0 where
  pub transfer_id : String
  pub chunk_index : ℕ
  pub bytes : String

pub record Manifest : Type 0 where
  pub transfer_id : String
  pub chunk_count : ℕ
  pub chunk_hashes : List String
  pub file_hash : String
  pub description : String

-- A payload that was read: `other` is anything else.
pub data Payload : Type 0 where
  manifest : Manifest → Payload
  chunk : Chunk → Payload
  other : Payload

-- The core library's chunker, hash, encoding and session records.
pub record Core : Type 1 where
  pub Session : Type 0
  pub new_session : Manifest → Session
  pub manifest_of : Session → Manifest
  pub mark_chunk_received : ℕ → Session → Session
  pub is_complete : Session → Bool
  pub failed : Session → Session
  pub to_json : Session → String
  pub chunk_file : String → Manifest × List Chunk
  pub reassemble : Manifest → List (Option Chunk) → Option String
  pub sha256_hex : String → String
  pub to_base64 : String → String

-- What the receiver is told of a file.
pub record Received : Type 0 where
  pub manifest_received : Manifest
  pub file_bytes : String

-- `consumed` is `true`, `ignored` is `false`; a write into an absent buffer throws.
pub data Handled : Type 0 where
  consumed ignored type_error : Handled

-- The n-th hash of a manifest
unfoldable pub hash_at : ℕ → List String → Option String
hash_at n [] = none
hash_at zero (h ∷ hs) = some h
hash_at (suc n) (h ∷ hs) = hash_at n hs

abbrev pub is_hash : String → Option String → Bool
is_hash actual none = false
is_hash actual (some h) = str_eq actual h

-- `new Array(n)`, and `buffer[i] = chunk`
unfoldable pub blank_buffer : ℕ → List (Option Chunk)
blank_buffer zero = []
blank_buffer (suc n) = none ∷ blank_buffer n

unfoldable pub place : ℕ → Chunk → List (Option Chunk) → List (Option Chunk)
place zero c [] = some c ∷ []
place zero c (b ∷ bs) = some c ∷ bs
place (suc i) c [] = none ∷ place i c []
place (suc i) c (b ∷ bs) = b ∷ place i c bs

module _ (kv : KeyValueStore) (core : Core) where
  open core use {Session}

  pub record Service : Type 0 where
    pub sessions : Dict Session
    pub chunk_buffers : Dict (List (Option Chunk))
    pub store : kv.State
    pub received : List Received

  abbrev pub save_session : String → Session → kv.State → kv.State
  save_session id session s = kv.set (append "xfer:" id) (text (core.to_json session)) s

  abbrev pub file_key : Manifest → String
  file_key m = append "file:" m.file_hash

  -- `#handleManifest`
  unfoldable pub handle_manifest : Manifest → Service → Service × Handled
  unfolding blank_buffer
  handle_manifest m s = (
    record s {
      sessions = insert m.transfer_id (core.new_session m) s.sessions;
      chunk_buffers = insert m.transfer_id (blank_buffer m.chunk_count) s.chunk_buffers;
      store = save_session m.transfer_id (core.new_session m) s.store;
    },
    consumed,
  )

  -- `#completeTransfer`
  abbrev pub concluded : String → Session → Option String → Service → Service
  concluded id session none s = record s {
    sessions = insert id (core.failed session) s.sessions;
    store = save_session id (core.failed session) s.store;
  }
  concluded id session (some file) s = record s {
    chunk_buffers = erase id s.chunk_buffers;
    store =
        (kv.delete (append "xfer:" id)
          (kv.set (file_key (core.manifest_of session)) (text (core.to_base64 file)) s.store)).0;
    received =
        record { manifest_received = core.manifest_of session; file_bytes = file } ∷ s.received;
  }

  unfoldable pub complete_transfer : String → Session → List (Option Chunk) → Service → Service
  complete_transfer id session buffer s =
      concluded id session (core.reassemble (core.manifest_of session) buffer) s

  -- The chunk goes into its buffer, and into the session.
  abbrev pub buffered : Chunk → Session → Option (List (Option Chunk)) → Service → Service × Handled
  buffered c session none s = (s, type_error)
  buffered c session (some buffer) s =
      let updated = core.mark_chunk_received c.chunk_index session in
      let filled = place c.chunk_index c buffer in
      let s' : Service = record s {
        chunk_buffers = insert c.transfer_id filled s.chunk_buffers;
        sessions = insert c.transfer_id updated s.sessions;
        store = save_session c.transfer_id updated s.store;
      } in
      if core.is_complete updated
      then (complete_transfer c.transfer_id updated filled s', consumed)
      else (s', consumed)

  abbrev pub handle_known : Chunk → Option Session → Service → Service × Handled
  handle_known c none s = (s, consumed)
  handle_known c (some session) s =
      if is_hash (core.sha256_hex c.bytes)
        (hash_at c.chunk_index (core.manifest_of session).chunk_hashes)
      then buffered c session (lookup c.transfer_id s.chunk_buffers) s
      else (s, consumed)

  -- `#handleChunk`
  unfoldable pub handle_chunk : Chunk → Service → Service × Handled
  unfolding complete_transfer
  handle_chunk c s = handle_known c (lookup c.transfer_id s.sessions) s

  -- `handleIncomingPayload`
  unfoldable pub handle_incoming_payload : Payload → Service → Service × Handled
  unfolding handle_manifest handle_chunk
  handle_incoming_payload (manifest m) s = handle_manifest m s
  handle_incoming_payload (chunk c) s = handle_chunk c s
  handle_incoming_payload other s = (s, ignored)

  -- What `sendFile` deposits, in its order, and the store behind it; `none` is a failed assertion.
  unfoldable pub send_file : String → String → String → kv.State → Option (kv.State × List Payload)
  send_file file peer_account_id context_id s =
      let (m, chunks) = core.chunk_file file in
      if is_empty file
      then none
      else if is_empty peer_account_id
      then none
      else if is_empty context_id
      then none
      else some (
        kv.set (file_key m) (text (core.to_base64 file)) s,
        manifest m ∷ map (λ (c : Chunk). chunk c) chunks,
      )

  -- `getFile`, still encoded; `getTransferSession`
  unfoldable pub get_file : String → Service → Option Stored
  get_file file_hash s = read kv (append "file:" file_hash) s.store

  unfoldable pub get_transfer_session : String → Service → Option Session
  get_transfer_session id s = lookup id s.sessions

-- ===== src/FileTransfer/Duplicate.antt =====
-- A chunk that comes once more after its transfer is over.
use rez_sdk.Common.{◌≡◌, refl, true, Option, none, some, List, String}
use rez_sdk.Common.Dict.{lookup, insert, lookup-erase, lookup-insert_self}
use rez_sdk.Common.{eq_refl}
use rez_sdk.PeerLink.Storage.Base.{KeyValueStore}
use rez_sdk.FileTransfer.{
  Chunk, Core, Service, type_error, hash_at, is_hash, place, complete_transfer, handle_chunk,
  handle_incoming_payload, chunk,
}

module _ (kv : KeyValueStore) (core : Core) where
  handle_chunk-closed :
      (c : Chunk) (s : Service kv core) (session : core.Session)
      → lookup c.transfer_id s.sessions ≡ some session
      → lookup c.transfer_id s.chunk_buffers ≡ none
      → is_hash
          (core.sha256_hex c.bytes)
          (hash_at c.chunk_index (core.manifest_of session).chunk_hashes)
        ≡ true
      → (handle_chunk kv core c s).1 ≡ type_error
  unfolding handle_chunk
  handle_chunk-closed c s session known closed good = rw (known, good, closed) refl

  -- When the last chunk of a transfer has made the file, the same chunk throws if it comes once more: the
  -- session is still there and its buffer is not.
  pub handle_chunk-again :
      (c : Chunk) (s : Service kv core) (session : core.Session) (buffer : List (Option Chunk))
      (file : String)
      → lookup c.transfer_id s.sessions ≡ some session
      → lookup c.transfer_id s.chunk_buffers ≡ some buffer
      → is_hash
          (core.sha256_hex c.bytes)
          (hash_at c.chunk_index (core.manifest_of session).chunk_hashes)
        ≡ true
      → core.is_complete (core.mark_chunk_received c.chunk_index session) ≡ true
      → core.manifest_of (core.mark_chunk_received c.chunk_index session) ≡ core.manifest_of session
      → core.reassemble (core.manifest_of session) (place c.chunk_index c buffer) ≡ some file
      → (handle_incoming_payload kv core
          (chunk c)
          (handle_incoming_payload kv core (chunk c) s).0).1
        ≡ type_error
  unfolding handle_incoming_payload handle_chunk complete_transfer
  handle_chunk-again c s session buffer file known open_still good done same whole =
      rw
        (
          known,
          good,
          open_still,
          done,
          same,
          whole,
          lookup-insert_self c.transfer_id (core.mark_chunk_received c.chunk_index session)
              s.sessions,
          same,
          good,
          lookup-erase c.transfer_id c.transfer_id
              (insert c.transfer_id (place c.chunk_index c buffer) s.chunk_buffers),
          eq_refl c.transfer_id,
        )
        refl

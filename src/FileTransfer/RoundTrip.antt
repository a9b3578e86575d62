-- ===== src/FileTransfer/RoundTrip.antt =====
-- A file that is sent and received: the payloads of FileTransferService.sendFile, handled one after the
-- other by handleIncomingPayload.
use rez_sdk.Common.{
  ℕ, zero, suc, ◌+◌, ◌<◌, ◌≡◌, refl, ap, sym, ◌∙◌, subst, true, false, Option, none, some, List, [],
  ◌∷◌, ◌++◌, map, String, length, length-append, arith,
}
use mathlib.Core.List.{append_assoc, append-nil}
use rez_sdk.Common.Text.{is_empty}
use rez_sdk.Common.Dict.{Dict, lookup, insert, lookup-insert_self}
use rez_sdk.PeerLink.Storage.Base.{KeyValueStore}
use rez_sdk.FileTransfer.{
  Chunk, Manifest, Core, Service, Handled, consumed, ignored, type_error, Received, hash_at,
  is_hash, place, blank_buffer, complete_transfer, handle_chunk, handle_manifest,
  handle_incoming_payload, manifest, chunk, Payload, send_file, save_session,
}

pub place-end :
    (done : List Chunk) (c : Chunk) (rest : List (Option Chunk))
    → place (length done) c (map some done ++ none ∷ rest) ≡ map some (done ++ c ∷ []) ++ rest
unfolding place
place-end [] c rest = refl
place-end (d ∷ done) c rest = ap (λ t. some d ∷ t) (place-end done c rest)

lookup-insert_as {ℓ} :
    {V : Type ℓ} {k j : String}
    → k ≡ j
    → (v : V) (entries : Dict V) → lookup j (insert k v entries) ≡ some v
lookup-insert_as {k = k} e v entries =
    ap (λ i. lookup i (insert k v entries)) (sym e) ∙ lookup-insert_self k v entries

module _ (kv : KeyValueStore) (core : Core) where
  -- The session of a file after its first chunks
  abbrev pub marked : ℕ → Manifest → core.Session
  marked zero m = core.new_session m
  marked (suc i) m = core.mark_chunk_received i (marked i m)

  -- Chunks in order, with their numbers and their hashes
  abbrev pub Numbered : Manifest → ℕ → List Chunk → Type 0
  Numbered m i [] = Unit
  Numbered m i (c ∷ cs) =
      c.transfer_id ≡ m.transfer_id
      × c.chunk_index ≡ i
      × is_hash (core.sha256_hex c.bytes) (hash_at i m.chunk_hashes) ≡ true
      × Numbered m (suc i) cs

  -- What the code relies on of the core library.
  pub record IsChunker : Type 0 where
    pub manifest_new : (m : Manifest) → core.manifest_of (core.new_session m) ≡ m
    pub manifest_marked :
        (i : ℕ) (s : core.Session)
        → core.manifest_of (core.mark_chunk_received i s) ≡ core.manifest_of s
    pub marked_some :
        (m : Manifest) (i : ℕ) → i < m.chunk_count → core.is_complete (marked i m) ≡ false
    pub marked_all : (m : Manifest) → core.is_complete (marked m.chunk_count m) ≡ true
    pub chunk_numbers :
        (file : String) → Numbered (core.chunk_file file).0 0 (core.chunk_file file).1
    pub chunk_count :
        (file : String) → length (core.chunk_file file).1 ≡ (core.chunk_file file).0.chunk_count
    pub chunk_some :
        (file : String) → is_empty file ≡ false → 0 < (core.chunk_file file).0.chunk_count
    pub reassemble_chunks :
        (file : String)
        → core.reassemble (core.chunk_file file).0 (map some (core.chunk_file file).1) ≡ some file

  abbrev pub settled : Service kv core × Handled → Option (Service kv core)
  settled (s, consumed) = some s
  settled (s, ignored) = some s
  settled (s, type_error) = none

  -- The payloads one after the other; `none` when one throws.
  abbrev pub deliver : List Payload → Option (Service kv core) → Option (Service kv core)
  deliver [] s = s
  deliver (p ∷ ps) none = none
  deliver (p ∷ ps) (some s) = deliver ps (settled (handle_incoming_payload kv core p s))

  abbrev pub received_by : Option (Service kv core) → Option (List Received)
  received_by none = none
  received_by (some s) = some s.received

  -- What a chunk that is not the last leaves.
  abbrev filled : Chunk → core.Session → List (Option Chunk) → Service kv core → Service kv core
  filled c updated buffer s = record s {
    chunk_buffers = insert c.transfer_id buffer s.chunk_buffers;
    sessions = insert c.transfer_id updated s.sessions;
    store = save_session kv core c.transfer_id updated s.store;
  }

  module _ (c : Chunk) (s : Service kv core) (session updated : core.Session)
      (buffer buffer' : List (Option Chunk))
      (known : lookup c.transfer_id s.sessions ≡ some session)
      (open_still : lookup c.transfer_id s.chunk_buffers ≡ some buffer)
      (good : is_hash
          (core.sha256_hex c.bytes)
          (hash_at c.chunk_index (core.manifest_of session).chunk_hashes)
        ≡ true)
      (placed : place c.chunk_index c buffer ≡ buffer')
      (counted : core.mark_chunk_received c.chunk_index session ≡ updated) where
    handle_chunk-more :
        core.is_complete updated ≡ false
        → settled (handle_chunk kv core c s) ≡ some (filled c updated buffer' s)
    unfolding handle_chunk
    handle_chunk-more short = rw (known, good, open_still, placed, counted, short) refl

    handle_chunk-last :
        (file : String)
        → core.is_complete updated ≡ true
        → core.reassemble (core.manifest_of updated) buffer' ≡ some file
        → received_by (settled (handle_chunk kv core c s))
          ≡ some (
              record { manifest_received = core.manifest_of updated; file_bytes = file }
              ∷ s.received)
    unfolding handle_chunk complete_transfer
    handle_chunk-last file done file_made =
        rw (known, good, open_still, placed, counted, done, file_made) refl

  module _ (laws : IsChunker) (file : String) where
    abbrev m : Manifest
    m = (core.chunk_file file).0

    manifest-marked : (i : ℕ) → core.manifest_of (marked i m) ≡ m
    manifest-marked zero = laws.manifest_new m
    manifest-marked (suc i) = laws.manifest_marked i (marked i m) ∙ manifest-marked i

    good_chunk :
        (i : ℕ) (c : Chunk)
        → c.chunk_index ≡ i
        → is_hash (core.sha256_hex c.bytes) (hash_at i m.chunk_hashes) ≡ true
        → is_hash
            (core.sha256_hex c.bytes)
            (hash_at c.chunk_index (core.manifest_of (marked i m)).chunk_hashes)
          ≡ true
    good_chunk i c index good = rw (index, manifest-marked i) good

    counted_chunk :
        (done rest : List Chunk)
        → (done ++ rest) ≡ (core.chunk_file file).1
        → length done + length rest ≡ m.chunk_count
    counted_chunk done rest whole =
        sym (length-append done rest) ∙ ap length whole ∙ laws.chunk_count file

    placed_chunk :
        (n : ℕ) (done : List Chunk) (c : Chunk) (rest : List (Option Chunk))
        → length done ≡ n
        → c.chunk_index ≡ n
        → place c.chunk_index c (map some done ++ none ∷ rest) ≡ map some (done ++ c ∷ []) ++ rest
    placed_chunk n done c rest size index =
        ap (λ i. place i c (map some done ++ none ∷ rest)) (index ∙ sym size)
        ∙ place-end done c rest

    all_marked : (n : ℕ) → n ≡ m.chunk_count → core.is_complete (marked n m) ≡ true
    all_marked n all = rw (all) (laws.marked_all m)

    -- A transfer whose first chunks are there makes the file when the others have come.
    deliver_rest :
        (n : ℕ) (done rest : List Chunk) (c : Chunk) (s : Service kv core)
        → length done ≡ n
        → (done ++ c ∷ rest) ≡ (core.chunk_file file).1
        → Numbered m n (c ∷ rest)
        → lookup m.transfer_id s.sessions ≡ some (marked n m)
        → lookup m.transfer_id s.chunk_buffers
          ≡ some (map some done ++ none ∷ blank_buffer (length rest))
        → received_by (deliver (chunk c ∷ map (λ (d : Chunk). chunk d) rest) (some s))
          ≡ some (record { manifest_received = m; file_bytes = file } ∷ s.received)
    unfolding handle_incoming_payload blank_buffer
    deliver_rest n done [] c s size whole (owner, index, good, rest_good) known open_still =
        handle_chunk-last c s (marked n m) (marked (suc n) m) (map some done ++ none ∷ [])
          (map some (done ++ c ∷ []) ++ []) (ap (λ k. lookup k s.sessions) owner ∙ known)
          (ap (λ k. lookup k s.chunk_buffers) owner ∙ open_still) (good_chunk n c index good)
          (placed_chunk n done c [] size index)
          (ap (λ i. core.mark_chunk_received i (marked n m)) index) file
          (all_marked (suc n) (omega (arith, size, counted_chunk done (c ∷ []) whole)))
          (rw (manifest-marked (suc n), append-nil (map some (done ++ c ∷ [])), whole)
            (laws.reassemble_chunks file))
        ∙ rw (manifest-marked (suc n)) refl
    deliver_rest n done (d ∷ rest) c s size whole (owner, index, good, rest_good) known open_still =
        let updated = marked (suc n) m in
        let blanks = blank_buffer (suc (length rest)) in
        let buffer = map some (done ++ c ∷ []) ++ blanks in
        ap (λ o. received_by (deliver (map (λ (e : Chunk). chunk e) (d ∷ rest)) o))
          (handle_chunk-more c s (marked n m) updated (map some done ++ none ∷ blanks) buffer
            (ap (λ k. lookup k s.sessions) owner ∙ known)
            (ap (λ k. lookup k s.chunk_buffers) owner ∙ open_still) (good_chunk n c index good)
            (placed_chunk n done c blanks size index)
            (ap (λ i. core.mark_chunk_received i (marked n m)) index)
            (laws.marked_some m (suc n)
              (omega (arith, size, counted_chunk done (c ∷ d ∷ rest) whole))))
        ∙ deliver_rest (suc n) (done ++ c ∷ []) rest d (filled c updated buffer s)
            (omega (arith, size, length-append done (c ∷ [])))
            (append_assoc done (c ∷ []) (d ∷ rest) ∙ whole) rest_good
            (lookup-insert_as owner updated s.sessions)
            (lookup-insert_as owner buffer s.chunk_buffers)

    deliver_all :
        (chunks : List Chunk) (s : Service kv core)
        → is_empty file ≡ false
        → chunks ≡ (core.chunk_file file).1
        → received_by (deliver (manifest m ∷ map (λ (c : Chunk). chunk c) chunks) (some s))
          ≡ some (record { manifest_received = m; file_bytes = file } ∷ s.received)
    unfolding handle_incoming_payload handle_manifest blank_buffer
    deliver_all [] s some_file whole =
        absurd
          (omega (arith, laws.chunk_some file some_file, laws.chunk_count file, ap length whole))
    deliver_all (c ∷ rest) s some_file whole =
        deliver_rest 0 [] rest c (handle_manifest kv core m s).0 refl whole
          (subst (λ xs. Numbered m 0 xs) (sym whole) (laws.chunk_numbers file))
          (lookup-insert_self m.transfer_id (core.new_session m) s.sessions)
          (lookup-insert_self m.transfer_id (blank_buffer m.chunk_count) s.chunk_buffers
            ∙ ap (λ n. some (blank_buffer n)) (sym (laws.chunk_count file) ∙ ap length (sym whole)))

  -- What comes of a sent file when its payloads are delivered; `none` when something throws.
  abbrev pub receive_sent :
      Option (kv.State × List Payload) → Service kv core → Option (List Received)
  receive_sent none s = none
  receive_sent (some (stored, payloads)) s = received_by (deliver payloads (some s))

  -- A file with something in it, sent to a named peer in a named context, arrives: when the payloads that
  -- sendFile deposits are handled in their order, none throws, and the receiver is told of one file more,
  -- with the manifest and the bytes that were sent. This holds for whatever the receiver has in hand, and
  -- relies on the core library's chunker: chunks that are numbered, hashed and counted as the manifest
  -- says, and that reassemble to the file.
  pub send_file-deliver :
      (laws : IsChunker) (file peer_account_id context_id : String) (sender : kv.State)
      (s : Service kv core)
      → is_empty file ≡ false
      → is_empty peer_account_id ≡ false
      → is_empty context_id ≡ false
      → receive_sent (send_file kv core file peer_account_id context_id sender) s
        ≡ some (
            record { manifest_received = (core.chunk_file file).0; file_bytes = file } ∷ s.received)
  unfolding send_file
  send_file-deliver laws file peer_account_id context_id sender s some_file peer context =
      rw (some_file, peer, context)
        (deliver_all laws file (core.chunk_file file).1 s some_file refl)

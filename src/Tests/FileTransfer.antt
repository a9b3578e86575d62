-- ===== src/Tests/FileTransfer.antt =====
-- File transfer with a core library that makes a head and a body of every file.
use rez_sdk.Common.{
  ℕ, zero, suc, ◌≡◌, refl, Option, none, some, List, [], ◌∷◌, String, arith, eq_refl,
}
use rez_sdk.Common.{◌==◌}
use rez_sdk.PeerLink.Storage.Base.{text, read}
use rez_sdk.Common.Dict.{lookup, insert, erase}
use rez_sdk.FileTransfer.{
  Chunk, Manifest, Core, Service, chunk, consumed, type_error, hash_at, handle_chunk,
  handle_manifest, complete_transfer, handle_incoming_payload, blank_buffer, place, send_file,
  get_file,
}
use rez_sdk.FileTransfer.RoundTrip.{IsChunker, marked, send_file-deliver, receive_sent}
use rez_sdk.FileTransfer.Duplicate.{handle_chunk-again}
use rez_sdk.Tests.Storage.{host}

abbrev manifest_for : String → Manifest
manifest_for file = record {
  transfer_id = "t";
  chunk_count = 2;
  chunk_hashes = "" ∷ file ∷ [];
  file_hash = file;
  description = "";
}

abbrev part : ℕ → String → Chunk
part i bytes = record { transfer_id = "t"; chunk_index = i; bytes = bytes }

abbrev body_of : List (Option Chunk) → Option String
body_of (some a ∷ some b ∷ cs) = some b.bytes
body_of cs = none

abbrev two_parts : Core
two_parts = record {
  Session = Manifest × ℕ;
  new_session = λ m. (m, 0);
  manifest_of = λ s. s.0;
  mark_chunk_received = λ i s. (s.0, suc s.1);
  is_complete = λ s. s.1 == s.0.chunk_count;
  failed = λ s. s;
  to_json = λ s. s.0.transfer_id;
  chunk_file = λ file. (manifest_for file, part 0 "" ∷ part 1 file ∷ []);
  reassemble = λ m. body_of;
  sha256_hex = λ bytes. bytes;
  to_base64 = λ bytes. bytes;
}

marked_lem : (m : Manifest) (i : ℕ) → marked host two_parts i m ≡ (m, i)
marked_lem m zero = refl
marked_lem m (suc i) = rw (marked_lem m i) refl

two_parts-IsChunker : IsChunker host two_parts
unfolding hash_at
two_parts-IsChunker = record {
  manifest_new = λ m. refl;
  manifest_marked = λ i s. refl;
  marked_some = λ m i short. rw (marked_lem m i) (ground arith);
  marked_all = λ m. rw (marked_lem m m.chunk_count) (ground arith);
  chunk_numbers = λ file. (refl, refl, refl, (refl, refl, rw (eq_refl file) refl, tt));
  chunk_count = λ file. refl;
  chunk_some = λ file some_file. omega arith;
  reassemble_chunks = λ file. refl;
}

abbrev idle : Service host two_parts
idle = record { sessions = []; chunk_buffers = []; store = []; received = [] }

send_file-deliver_example :
    receive_sent host two_parts (send_file host two_parts "abc" "bob" "ctx" []) idle
    ≡ some (record { manifest_received = manifest_for "abc"; file_bytes = "abc" } ∷ [])
send_file-deliver_example =
    send_file-deliver host two_parts two_parts-IsChunker "abc" "bob" "ctx" [] idle refl refl refl

program : Unit {0}
unfolding handle_incoming_payload handle_chunk handle_manifest complete_transfer blank_buffer place
    hash_at get_file read lookup insert erase
program = tt

-- The receiver has the head of the file, and waits for the body.
abbrev waiting : Service host two_parts
waiting =
    (handle_chunk host two_parts (part 0 "")
      (handle_manifest host two_parts (manifest_for "abc") idle).0).0

kept :
    get_file host two_parts "abc"
      (handle_incoming_payload host two_parts (chunk (part 1 "abc")) waiting).0
    ≡ some (text "abc")
unfolding program
kept = refl

bad_hash :
    handle_incoming_payload host two_parts (chunk (part 1 "xyz")) waiting ≡ (waiting, consumed)
unfolding program
bad_hash = refl

handle_chunk-again_example :
    (handle_incoming_payload host two_parts
      (chunk (part 1 "abc"))
      (handle_incoming_payload host two_parts (chunk (part 1 "abc")) waiting).0).1
    ≡ type_error
unfolding program
handle_chunk-again_example =
    handle_chunk-again host two_parts (part 1 "abc") waiting (manifest_for "abc", 1)
      (some (part 0 "") ∷ none ∷ []) "abc" refl refl refl refl refl refl

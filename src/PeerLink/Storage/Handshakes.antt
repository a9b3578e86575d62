-- ===== src/PeerLink/Storage/Handshakes.antt =====
-- `KeyValueHandshakeAttemptStore` (src/peer-link/createKeyValueBackedPeerLinkStorage.js).
use rez_sdk.Common.{
  ℕ, ◌+◌, not, ◌&&◌, Option, none, some, List, String, str_eq, leb, ◌==◌, is_some, if◌then◌else◌,
}
use rez_sdk.Common.Text.{is_empty}
use rez_sdk.PeerLink.Storage.Base.{
  Record, Stored, object, KeyValueStore, already_exists, not_found, bad_expected_version,
  version_mismatch, Result, ok, throws, ◌>>=◌, ◌>>◌, ensure, read, assert_non_empty,
  normalize_version, fields_of, key_of, Host, is_pending_status, sort_by, scan,
}

-- `_recordKey`
unfoldable pub record_key : String → String → Result String
unfolding key_of
record_key owner_account_id handshake_attempt_id =
    key_of "peer-link:handshakes:" owner_account_id "ownerAccountId" handshake_attempt_id
      "handshakeAttemptId"

abbrev pub held : String → Option Stored → Result Record
held id none = throws (not_found id)
held id (some v) = ok (fields_of v)

-- The checks of `update`; an expected version that is no positive integer is 0.
unfoldable pub check_update : Record → String → ℕ → Option Stored → Result Record
unfolding normalize_version
check_update r id expected_version stored = do
  current ← held id stored
  ensure (leb 1 expected_version) bad_expected_version
  ensure (normalize_version current == expected_version) (version_mismatch id)
  ok (record r { version = normalize_version current + 1 })

module _ (kv : KeyValueStore) where
  unfoldable pub get_by_id : String → String → kv.State → Result (Option Stored)
  unfolding record_key
  get_by_id owner_account_id handshake_attempt_id s = do
    key ← record_key owner_account_id handshake_attempt_id
    ok (read kv key s)

  unfoldable pub create : Record → kv.State → Result (kv.State × Record)
  unfolding assert_non_empty record_key normalize_version
  create r s = do
    id ← assert_non_empty r.handshake_attempt_id "handshakeAttemptId"
    owner ← assert_non_empty r.owner_account_id "ownerAccountId"
    key ← record_key owner id
    ensure (not (is_some (read kv key s))) (already_exists id)
    let next : Record = record r { version = normalize_version r }
    ok (kv.set key (object next) s, next)

  unfoldable pub update : Record → ℕ → kv.State → Result (kv.State × Record)
  unfolding assert_non_empty record_key check_update
  update r expected_version s = do
    id ← assert_non_empty r.handshake_attempt_id "handshakeAttemptId"
    owner ← assert_non_empty r.owner_account_id "ownerAccountId"
    key ← record_key owner id
    next ← check_update r id expected_version (read kv key s)
    ok (kv.set key (object next) s, next)

  unfoldable pub list_by_peer_link_id : Host → String → String → kv.State → Result (List Record)
  unfolding assert_non_empty scan sort_by
  list_by_peer_link_id h owner_account_id peer_link_id s = do
    owner ← assert_non_empty owner_account_id "ownerAccountId"
    link ← assert_non_empty peer_link_id "peerLinkId"
    ok (
        sort_by h (λ (r : Record). r.handshake_attempt_id)
          (scan kv (λ (r : Record). str_eq r.owner_account_id owner && str_eq r.peer_link_id link)
            (kv.keys "peer-link:handshakes:" s) s))

  unfoldable pub list_pending : Host → String → kv.State → Result (List Record)
  unfolding assert_non_empty is_pending_status scan sort_by
  list_pending h owner_account_id s = do
    owner ← assert_non_empty owner_account_id "ownerAccountId"
    ok (
        sort_by h (λ (r : Record). r.handshake_attempt_id)
          (scan kv
            (λ (r : Record).
              str_eq
                (if is_empty r.owner_account_id then r.local_account_id else r.owner_account_id)
                owner
              && is_pending_status h r.status)
            (kv.keys "peer-link:handshakes:" s) s))

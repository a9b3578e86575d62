-- ===== src/PeerLink/Storage/Sessions.antt =====
-- `KeyValueSecureSessionStore` (src/peer-link/createKeyValueBackedPeerLinkStorage.js).
pub mod Device
use Prim.Native.String.{◌++◌ as append}
use rez_sdk.Common.{
  ℕ, zero, suc, ◌+◌, Bool, true, false, not, ◌&&◌, Option, none, some, List, String, str_eq,
  is_some, if◌then◌else◌,
}
use rez_sdk.Common.Text.{is_empty, trim}
use rez_sdk.PeerLink.Storage.Base.{
  Record, Stored, object, text, array, KeyValueStore, Result, ok, throws, ◌>>=◌, read,
  assert_non_empty, normalize_version, record_of, id_of, joined, key_of, Host,
  is_recoverable_status, sort_by, scan,
}

-- `_recordKey`, `_indexKey` and `_deviceIndexKey`
unfoldable pub record_key : String → String → Result String
unfolding key_of
record_key owner_account_id session_id =
    key_of "peer-link:sessions:" owner_account_id "ownerAccountId" session_id "sessionId"

unfoldable pub index_key : String → String → Result String
unfolding key_of
index_key owner_account_id peer_link_id =
    key_of "peer-link:sessions:by-peer-link:" owner_account_id "ownerAccountId" peer_link_id
      "peerLinkId"

unfoldable pub device_index_key : String → String → String → Result String
unfolding assert_non_empty
device_index_key owner_account_id peer_link_id peer_device_id = do
  owner ← assert_non_empty owner_account_id "ownerAccountId"
  link ← assert_non_empty peer_link_id "peerLinkId"
  device ← assert_non_empty peer_device_id "peerDeviceId"
  ok (append "peer-link:sessions:by-peer-link-device:" (joined owner (joined link device)))

-- The version that a record is stored with over what is there.
abbrev pub next_version : Record → Option Stored → ℕ
next_version r (some (object existing)) = normalize_version existing + 1
next_version r (some (array _)) = 2
next_version r _ = normalize_version r

-- The key of the index under which a session is found: by its device if it has one.
unfoldable pub index_key_of : String → String → String → Result String
unfolding index_key device_index_key trim
index_key_of owner peer_link_id peer_device_id =
    if is_empty (trim peer_device_id)
    then index_key owner peer_link_id
    else device_index_key owner peer_link_id (trim peer_device_id)

module _ (kv : KeyValueStore) where
  unfoldable pub get_by_id : String → String → kv.State → Result (Option Stored)
  unfolding record_key
  get_by_id owner_account_id session_id s = do
    key ← record_key owner_account_id session_id
    ok (read kv key s)

  abbrev pub get_if : String → Option String → kv.State → Result (Option Stored)
  get_if owner_account_id none s = ok none
  get_if owner_account_id (some id) s = get_by_id owner_account_id id s

  unfoldable pub get_by_peer_link_id : String → String → kv.State → Result (Option Stored)
  unfolding index_key get_by_id
  get_by_peer_link_id owner_account_id peer_link_id s = do
    key ← index_key owner_account_id peer_link_id
    get_if owner_account_id (id_of (read kv key s)) s

  unfoldable pub get_by_peer_link_and_device :
      String → String → String → kv.State → Result (Option Stored)
  unfolding device_index_key get_by_id
  get_by_peer_link_and_device owner_account_id peer_link_id peer_device_id s = do
    key ← device_index_key owner_account_id peer_link_id peer_device_id
    get_if owner_account_id (id_of (read kv key s)) s

  unfoldable pub list_by_peer_link : Host → String → String → kv.State → Result (List Record)
  unfolding assert_non_empty trim scan sort_by
  list_by_peer_link h owner_account_id peer_link_id s = do
    owner ← assert_non_empty owner_account_id "ownerAccountId"
    link ← assert_non_empty peer_link_id "peerLinkId"
    ok (
        sort_by h (λ (r : Record). r.peer_device_id)
          (scan kv
            (λ (r : Record).
              str_eq r.local_account_id owner
              && str_eq r.peer_link_id link
              && not (is_empty (trim r.peer_device_id)))
            (kv.keys "peer-link:sessions:" s) s))

  unfoldable pub put : Record → kv.State → Result (kv.State × Record)
  unfolding assert_non_empty record_key index_key_of normalize_version
  put r s = do
    session_id ← assert_non_empty r.session_id "sessionId"
    owner ← assert_non_empty r.local_account_id "localAccountId"
    peer_link_id ← assert_non_empty r.peer_link_id "peerLinkId"
    key ← record_key owner session_id
    index ← index_key_of owner peer_link_id r.peer_device_id
    let next : Record = record r { version = next_version r (read kv key s) }
    ok (kv.set index (text session_id) (kv.set key (object next) s), next)

  -- The index entry goes too, if it still names the session.
  abbrev pub unindexed : String → String → Option String → kv.State → kv.State
  unindexed index session_id none s = s
  unindexed index session_id (some id) s = if str_eq id session_id then (kv.delete index s).0 else s

  abbrev pub unindex : String → Result String → kv.State → kv.State × Result Bool
  unindex session_id (ok index) s =
      (unindexed index session_id (id_of (read kv index s)) s, ok true)
  unindex session_id (throws e) s = (s, throws e)

  abbrev pub delete_index : String → String → Option Record → kv.State → kv.State × Result Bool
  delete_index owner session_id none s = (s, ok true)
  delete_index owner session_id (some existing) s =
      if is_empty existing.peer_link_id
      then (s, ok true)
      else unindex session_id (index_key_of owner existing.peer_link_id existing.peer_device_id) s

  -- `delete` behind its checks: the owner, the session's id and its key.
  unfoldable pub remove_at : String → String → String → kv.State → kv.State × Result Bool
  unfolding index_key_of
  remove_at owner session_id key s =
      let (after, removed) = kv.delete key s in
      if not removed
      then (after, ok false)
      else delete_index owner session_id (record_of (read kv key s)) after

  unfoldable pub remove_key : String → String → Result (String × String × String)
  unfolding assert_non_empty record_key
  remove_key owner_account_id session_id = do
    owner ← assert_non_empty owner_account_id "ownerAccountId"
    id ← assert_non_empty session_id "sessionId"
    key ← record_key owner id
    ok (owner, id, key)

  abbrev pub remove_if : Result (String × String × String) → kv.State → kv.State × Result Bool
  remove_if (ok (owner, id, key)) s = remove_at owner id key s
  remove_if (throws e) s = (s, throws e)

  -- `delete`
  unfoldable pub remove : String → String → kv.State → kv.State × Result Bool
  unfolding remove_key remove_at
  remove owner_account_id session_id s = remove_if (remove_key owner_account_id session_id) s

  unfoldable pub list_recoverable : Host → String → kv.State → Result (List Record)
  unfolding assert_non_empty is_recoverable_status scan sort_by
  list_recoverable h owner_account_id s = do
    owner ← assert_non_empty owner_account_id "ownerAccountId"
    ok (
        sort_by h (λ (r : Record). r.session_id)
          (scan kv
            (λ (r : Record).
              str_eq
                (if is_empty r.local_account_id then r.owner_account_id else r.local_account_id)
                owner
              && is_recoverable_status h r.status)
            (kv.keys "peer-link:sessions:" s) s))

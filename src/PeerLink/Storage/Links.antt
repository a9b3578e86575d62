-- ===== src/PeerLink/Storage/Links.antt =====
-- `KeyValuePeerLinkStore` (src/peer-link/createKeyValueBackedPeerLinkStorage.js). What is read before a
-- write is given as what the store holds, since other calls may come in between.
pub mod Steps
pub mod Versions
pub mod Race
use rez_sdk.Common.{
  ℕ, zero, suc, ◌+◌, Bool, true, false, not, ◌&&◌, Option, none, some, List, String, str_eq, leb,
  ◌==◌, is_some, if◌then◌else◌,
}
use rez_sdk.PeerLink.Storage.Base.{
  Record, Stored, object, text, KeyValueStore, already_exists, pair_exists, not_found,
  bad_expected_version, version_mismatch, owner_changed, pair_changed, Result, ok, throws, ◌>>=◌,
  ◌>>◌, ensure, read, assert_non_empty, normalize_version, fields_of, id_of, key_of, pair_key_for,
  Host, sort_by, scan,
}

-- `_recordKey` and `_pairKey`
unfoldable pub record_key : String → String → Result String
unfolding key_of
record_key owner_account_id peer_link_id =
    key_of "peer-link:records:" owner_account_id "ownerAccountId" peer_link_id "peerLinkId"

unfoldable pub pair_key : String → String → Result String
unfolding key_of
pair_key owner_account_id peer_account_id =
    key_of "peer-link:pairs:" owner_account_id "localAccountId" peer_account_id "peerAccountId"

-- The keys of a record's link and of its pair, and its link's id trimmed.
pub record LinkKeys : Type 0 where
  pub link : String
  pub pair : String
  pub peer_link_id : String
  pub local_account_id : String
  pub peer_account_id : String

unfoldable pub keys_of : Record → Result LinkKeys
unfolding assert_non_empty record_key pair_key
keys_of r = do
  peer_link_id ← assert_non_empty r.peer_link_id "peerLinkId"
  local_account_id ← assert_non_empty r.local_account_id "localAccountId"
  peer_account_id ← assert_non_empty r.peer_account_id "peerAccountId"
  link ← record_key local_account_id peer_link_id
  pair ← pair_key local_account_id peer_account_id
  ok (record {
    link = link;
    pair = pair;
    peer_link_id = peer_link_id;
    local_account_id = local_account_id;
    peer_account_id = peer_account_id;
  })

-- Whether the pair belongs to another link.
abbrev pub is_taken : String → Option String → Bool
is_taken peer_link_id none = false
is_taken peer_link_id (some id) = not (str_eq id peer_link_id)

-- The checks of `create`.
unfoldable pub check_create : Record → LinkKeys → Option Stored → Option Stored → Result Record
unfolding normalize_version
check_create r k existing indexed = do
  ensure (not (is_some existing)) (already_exists k.peer_link_id)
  ensure (not (is_taken k.peer_link_id (id_of indexed))) pair_exists
  ok (record r { version = normalize_version r })

abbrev pub held : String → Option Stored → Result Record
held peer_link_id none = throws (not_found peer_link_id)
held peer_link_id (some v) = ok (fields_of v)

-- The checks of `update`; an expected version that is no positive integer is 0.
unfoldable pub check_update : Record → LinkKeys → ℕ → Option Stored → Result Record
unfolding normalize_version pair_key_for
check_update r k expected_version stored = do
  current ← held k.peer_link_id stored
  ensure (leb 1 expected_version) bad_expected_version
  ensure (normalize_version current == expected_version) (version_mismatch k.peer_link_id)
  ensure (str_eq current.local_account_id k.local_account_id) owner_changed
  current_pair ← pair_key_for current.local_account_id current.peer_account_id
  next_pair ← pair_key_for k.local_account_id k.peer_account_id
  ensure (str_eq current_pair next_pair) pair_changed
  ok (record r { version = normalize_version current + 1 })

module _ (kv : KeyValueStore) where
  -- The two writes of `create` and of `update`.
  unfoldable pub write : LinkKeys → Record → kv.State → kv.State
  write k r s = kv.set k.pair (text k.peer_link_id) (kv.set k.link (object r) s)

  unfoldable pub create : Record → kv.State → Result (kv.State × Record)
  unfolding keys_of check_create write
  create r s = do
    k ← keys_of r
    next ← check_create r k (read kv k.link s) (read kv k.pair s)
    ok (write k next s, next)

  unfoldable pub update : Record → ℕ → kv.State → Result (kv.State × Record)
  unfolding keys_of check_update write
  update r expected_version s = do
    k ← keys_of r
    next ← check_update r k expected_version (read kv k.link s)
    ok (write k next s, next)

  unfoldable pub get_by_id : String → String → kv.State → Result (Option Stored)
  unfolding record_key
  get_by_id owner_account_id peer_link_id s = do
    key ← record_key owner_account_id peer_link_id
    ok (read kv key s)

  abbrev pub get_if : String → Option String → kv.State → Result (Option Stored)
  get_if owner_account_id none s = ok none
  get_if owner_account_id (some id) s = get_by_id owner_account_id id s

  unfoldable pub get_by_pair : String → String → kv.State → Result (Option Stored)
  unfolding pair_key get_by_id
  get_by_pair owner_account_id peer_account_id s = do
    key ← pair_key owner_account_id peer_account_id
    get_if owner_account_id (id_of (read kv key s)) s

  unfoldable pub list_by_owner : Host → String → kv.State → Result (List Record)
  unfolding assert_non_empty scan sort_by
  list_by_owner h owner_account_id s = do
    owner ← assert_non_empty owner_account_id "ownerAccountId"
    ok (
        sort_by h (λ (r : Record). r.peer_link_id)
          (scan kv (λ (r : Record). str_eq r.local_account_id owner)
            (kv.keys "peer-link:records:" s) s))

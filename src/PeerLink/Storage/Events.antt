-- ===== src/PeerLink/Storage/Events.antt =====
-- `KeyValuePeerLinkEventStore` (src/peer-link/createKeyValueBackedPeerLinkStorage.js).
pub mod Pages
pub mod Following
use rez_sdk.Common.{
  ℕ, zero, suc, ◌+◌, Bool, true, false, not, ◌&&◌, Option, none, some, List, [], ◌∷◌, ◌++◌, String,
  str_eq, ltb, ◌==◌, is_some, if◌then◌else◌, length,
}
use rez_sdk.Common.Text.{is_empty, trim}
use rez_sdk.PeerLink.Storage.Base.{
  Record, Stored, object, text, array, null, KeyValueStore, already_exists, Result, ok, throws,
  ◌>>=◌, ◌>>◌, ensure, read, assert_non_empty, key_of,
}
use rez_sdk.Transport.Framing.{take, drop}

-- `_recordKey` and `_indexKey`
unfoldable pub record_key : String → String → Result String
unfolding key_of
record_key owner_account_id event_id =
    key_of "peer-link:events:" owner_account_id "ownerAccountId" event_id "eventId"

unfoldable pub index_key : String → String → Result String
unfolding key_of
index_key owner_account_id peer_link_id =
    key_of "peer-link:events:index:" owner_account_id "ownerAccountId" peer_link_id "peerLinkId"

-- `Array.isArray(index) ? index.slice() : []`
abbrev pub ids_of : Option Stored → List String
ids_of (some (array ids)) = ids
ids_of _ = []

-- An event that is there already: the same one if it belongs to the same link.
abbrev pub existing_event : String → String → Stored → Result Record
existing_event event_id peer_link_id (object r) =
    if str_eq r.peer_link_id peer_link_id then ok r else throws (already_exists event_id)
existing_event event_id peer_link_id _ = throws (already_exists event_id)

-- The options of a list: a limit that is no positive integer is 0, a cursor that is absent "".
pub record ListOptions : Type 0 where
  pub limit : ℕ
  pub cursor : String

-- `ids.indexOf(cursor)`, one more: 0 if it is not there
unfoldable pub behind : String → List String → ℕ
behind cursor [] = 0
behind cursor (id ∷ ids) =
    let rest = behind cursor ids in
    if str_eq id cursor then 1 else elim rest [ zero ↦ 0 | suc n ↦ suc (suc n) ]

-- The index at which a page starts.
unfoldable pub start_of : ListOptions → List String → ℕ
unfolding behind trim
start_of o ids = if is_empty (trim o.cursor) then 0 else behind (trim o.cursor) ids

-- The ids of a page.
unfoldable pub window : ℕ → ℕ → List String → List String
window limit start ids = if limit == 0 then drop start ids else take limit (drop start ids)

pub record Page : Type 0 where
  pub items : List Stored
  pub next_cursor : Option String

abbrev pub last_event_id : List Stored → String
last_event_id [] = ""
last_event_id (object r ∷ []) = r.event_id
last_event_id (_ ∷ []) = ""
last_event_id (_ ∷ x ∷ xs) = last_event_id (x ∷ xs)

abbrev pub is_nil : List Stored → Bool
is_nil [] = true
is_nil (_ ∷ _) = false

-- `nextCursor`
abbrev pub cursor_after : ℕ → ℕ → ℕ → List Stored → Option String
cursor_after limit start total items =
    if not (limit == 0) && ltb (start + limit) total && not (is_nil items)
    then some (last_event_id items)
    else none

abbrev pub and_item : Option Stored → List Stored → List Stored
and_item none items = items
and_item (some v) items = v ∷ items

module _ (kv : KeyValueStore) where
  abbrev pub append_event :
      Record
      → String
      → String
      → String
      → String
      → Option Stored
      → kv.State
      → Result (kv.State × Record)
  append_event r event_id peer_link_id key index (some v) s = do
    found ← existing_event event_id peer_link_id v
    ok (s, found)
  append_event r event_id peer_link_id key index none s =
      let s' = kv.set key (object r) s in
      ok (kv.set index (array (ids_of (read kv index s') ++ event_id ∷ [])) s', r)

  -- `append`
  unfoldable pub append : Record → kv.State → Result (kv.State × Record)
  unfolding assert_non_empty record_key index_key
  append r s = do
    owner ← assert_non_empty r.owner_account_id "ownerAccountId"
    event_id ← assert_non_empty r.event_id "eventId"
    peer_link_id ← assert_non_empty r.peer_link_id "peerLinkId"
    key ← record_key owner event_id
    index ← index_key owner peer_link_id
    append_event r event_id peer_link_id key index (read kv key s) s

  -- The records of a page's ids; an id without a record is passed over.
  unfoldable pub items_of : String → List String → kv.State → Result (List Stored)
  unfolding record_key
  items_of owner [] s = ok []
  items_of owner (id ∷ ids) s = do
    key ← record_key owner id
    rest ← items_of owner ids s
    ok (and_item (read kv key s) rest)

  unfoldable pub list_by_peer_link_id : String → String → ListOptions → kv.State → Result Page
  unfolding assert_non_empty index_key start_of window items_of
  list_by_peer_link_id owner_account_id peer_link_id o s = do
    owner ← assert_non_empty owner_account_id "ownerAccountId"
    link ← assert_non_empty peer_link_id "peerLinkId"
    index ← index_key owner link
    let ids = ids_of (read kv index s)
    let start = start_of o ids
    items ← items_of owner (window o.limit start ids) s
    ok (record { items = items; next_cursor = cursor_after o.limit start (length ids) items })

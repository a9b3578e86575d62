-- ===== src/PeerLink/Storage/Links/Steps.antt =====
-- `KeyValuePeerLinkStore.update`, from one `await` to the next, so that two calls interleave
-- (src/peer-link/createKeyValueBackedPeerLinkStorage.js).
use rez_sdk.Common.{ℕ, List, [], ◌∷◌}
use rez_sdk.PeerLink.Storage.Base.{
  Record, object, text, KeyValueStore, StorageError, Result, ok, throws, ◌>>=◌, read,
}
use rez_sdk.PeerLink.Storage.Links.{LinkKeys, keys_of, check_update}

-- A call of `update`: not begun, behind its checks, behind the write of the record, and over.
pub data Task : Type 0 where
  called : Record → ℕ → Task
  checked : LinkKeys → Record → Task
  recorded : LinkKeys → Record → Task
  returned : Record → Task
  refused : StorageError → Task

abbrev pub task_of : Result (LinkKeys × Record) → Task
task_of (throws e) = refused e
task_of (ok (k, next)) = checked k next

-- Which of two calls goes on.
pub data Turn : Type 0 where
  first second : Turn

module _ (kv : KeyValueStore) where
  unfoldable pub proceed : Task → kv.State → kv.State × Task
  unfolding keys_of check_update
  proceed (called r expected_version) s = (
    s,
    task_of (do
      k ← keys_of r
      next ← check_update r k expected_version (read kv k.link s)
      ok (k, next)),
  )
  proceed (checked k next) s = (kv.set k.link (object next) s, recorded k next)
  proceed (recorded k next) s = (kv.set k.pair (text k.peer_link_id) s, returned next)
  proceed (returned next) s = (s, returned next)
  proceed (refused e) s = (s, refused e)

  -- A store with two calls that are under way.
  pub record Race : Type 0 where
    pub store : kv.State
    pub one : Task
    pub other : Task

  unfoldable pub turn : Turn → Race → Race
  unfolding proceed
  turn first w =
      let (s, t) = proceed w.one w.store in record { store = s; one = t; other = w.other }
  turn second w =
      let (s, t) = proceed w.other w.store in record { store = s; one = w.one; other = t }

  unfoldable pub turns : List Turn → Race → Race
  unfolding turn
  turns [] w = w
  turns (t ∷ ts) w = turns ts (turn t w)

-- ===== src/PeerLink/Devices/Advance.antt =====
-- To encrypt for a device advances the session of that device alone.
use rez_sdk.Common.{ℕ, ◌≡◌, refl, false, Option, some, String}
use rez_sdk.Common.Text.{is_empty, trim}
use rez_sdk.PeerLink.Storage.Base.{Record, Stored, object, KeyValueStore, IsLawful, ok, read, id_of}
use rez_sdk.PeerLink.Storage.Sessions.{get_by_peer_link_and_device}
use rez_sdk.PeerLink.Storage.Sessions.Device.{
  IsFull, IsPlain, IsDeviceRecord, device_at, stored_record, state_after, put-device, get-put,
  get-put_other,
}
use rez_sdk.PeerLink.Devices.{
  Crypto, done, Device, require_non_empty, require_device, session_of, advance, find,
  encrypt_for_device,
}

pub record IsComplete (d : Device) : Type 0 where
  pub owner : IsFull d.owner_account_id
  pub peer : IsFull d.peer_account_id
  pub link : IsFull d.peer_link_id
  pub device : IsFull d.peer_device_id

require_device_complete : (d : Device) → IsComplete d → require_device d ≡ done tt
unfolding require_device require_non_empty
require_device_complete d h = rw (h.owner, h.peer, h.link, h.device) refl

-- A session record whose owner and link have no colon in their ids, as the keys of sessions need it.
pub record IsSession (r : Record) : Type 0 where
  pub ids : IsDeviceRecord r
  pub owner : IsPlain r.local_account_id
  pub link : IsPlain r.peer_link_id

-- Another device than that of a record: its ids differ, and the session it has, if any, is another one.
pub record IsOther (kv : KeyValueStore) (s : kv.State) (r : Record) (owner link device : String)
    : Type 0 where
  pub full_owner : IsFull owner
  pub full_link : IsFull link
  pub full_device : IsFull device
  pub plain_owner : IsPlain owner
  pub plain_link : IsPlain link
  pub differs : ¬ (
      (trim owner ≡ trim r.local_account_id)
      × (trim link ≡ trim r.peer_link_id)
      × (trim device ≡ trim r.peer_device_id))
  pub elsewhere :
      (id : String)
      → id_of (read kv (device_at (trim owner) (trim link) (trim device)) s) ≡ some id
      → ¬ ((trim owner ≡ trim r.local_account_id) × (trim id ≡ trim r.session_id))

advance-IsDeviceRecord :
    (r : Record) (snapshot : String) (now : ℕ)
    → IsDeviceRecord r
    → IsDeviceRecord (advance r snapshot now)
advance-IsDeviceRecord r snapshot now h = record {
  session = h.session;
  owner = h.owner;
  link = h.link;
  device = h.device;
}

-- What a device has after its session was advanced to a snapshot, and what another device has.
pub record IsAdvanced (kv : KeyValueStore) (r : Record) (snapshot : String)
    (owner link device : String) (s s' : kv.State) : Type 0 where
  pub held : Record
  pub found :
      get_by_peer_link_and_device kv r.local_account_id r.peer_link_id r.peer_device_id s'
      ≡ ok (some (object held))
  pub stepped : held.ratchet_snapshot ≡ snapshot
  pub same_session : held.session_id ≡ r.session_id
  pub others :
      get_by_peer_link_and_device kv owner link device s'
      ≡ get_by_peer_link_and_device kv owner link device s

-- On a lawful store, to encrypt a text with something in it for a device whose four ids are given and
-- that has a session succeeds, if the core encrypts. The packet is the core's for the snapshot that was
-- stored; the snapshot after it is stored before the call returns, in the same session; and what another
-- device has is unchanged. The record of the session has all its ids, its owner and link without a
-- colon; the other device has other ids, its owner and link without a colon too, and not this session.
pub encrypt_for_device-IsAdvanced :
    (kv : KeyValueStore) (law : IsLawful kv) (c : Crypto) (d : Device) (plaintext : String)
    (now : ℕ) (s : kv.State) (stored : Option Stored) (r : Record) (packet snapshot : String)
    (owner link device : String)
    → IsComplete d
    → is_empty plaintext ≡ false
    → find kv c d s ≡ ok stored
    → session_of stored ≡ some r
    → c.encrypt_for_peer r.ratchet_snapshot d.peer_account_id plaintext ≡ some (packet, snapshot)
    → IsSession r
    → IsOther kv s r owner link device
    → (s' : kv.State) × (encrypt_for_device kv c d plaintext now s
        ≡ done (s', packet, r.session_id))
      × IsAdvanced kv r snapshot owner link device s s'
unfolding encrypt_for_device
encrypt_for_device-IsAdvanced kv law c d plaintext now s stored r packet snapshot owner link device
      complete solid found session encrypted good other =
    let next = advance r snapshot now in
    let ids = advance-IsDeviceRecord r snapshot now good.ids in
    (
      state_after kv next s,
      rw
          (
            require_device_complete d complete,
            solid,
            found,
            session,
            encrypted,
            put-device kv next s ids,
          )
          refl,
      record {
        held = stored_record kv next s;
        found = get-put kv law next s ids good.owner good.link;
        stepped = refl;
        same_session = refl;
        others =
            get-put_other kv law next s ids good.owner good.link owner link device other.full_owner
              other.full_link other.full_device other.plain_owner other.plain_link other.differs
              other.elsewhere;
      },
    )

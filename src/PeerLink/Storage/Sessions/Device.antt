-- ===== src/PeerLink/Storage/Sessions/Device.antt =====
-- One session for each device: what is put for a device is found there, and nothing else changes.
use Prim.Native.String.{◌++◌ as append}
use package.text.Mathlib.TextLemmas.{append_assoc, append_cancel_left}
use rez_sdk.Common.{
  ◌≡◌, refl, sym, ap, ◌∙◌, true, false, Option, none, some, String, str_eq, inl, inr, Bool-cases,
}
use rez_sdk.Common.Text.{is_empty, trim, trim_idem}
use rez_sdk.PeerLink.Storage.Base.{
  Record, object, text, KeyValueStore, IsLawful, ok, throws, read, id_of, joined, key_of,
  assert_non_empty, required,
}
use rez_sdk.Common.Dict.{str_eq_sym}
use rez_sdk.PeerLink.Storage.Distinct.{has_colon, joined-injective, joined-apart, str_eq-false}
use rez_sdk.PeerLink.Storage.Reading.{read-set_self, read-set_ne}
use rez_sdk.PeerLink.Storage.Sessions.{
  record_key, device_index_key, index_key_of, next_version, get_by_id, get_if,
  get_by_peer_link_and_device, put,
}

-- A text that is not blank.
abbrev pub IsFull : String → Type 0
IsFull v = is_empty (trim v) ≡ false

-- An id without a colon.
abbrev pub IsPlain : String → Type 0
IsPlain v = has_colon (trim v) ≡ false

trim-IsFull : (v : String) → IsFull v → IsFull (trim v)
trim-IsFull v h = rw (trim_idem v) h

pub assert_non_empty-full : (v label : String) → IsFull v → assert_non_empty v label ≡ ok (trim v)
unfolding assert_non_empty
assert_non_empty-full v label h = rw h refl

assert_non_empty-blank :
    (v label : String)
    → is_empty (trim v) ≡ true
    → assert_non_empty v label ≡ throws (required label)
unfolding assert_non_empty
assert_non_empty-blank v label h = rw h refl

-- The keys of a session and of a device's index entry, for trimmed ids.
abbrev pub session_at : String → String → String
session_at owner id = append "peer-link:sessions:" (joined owner id)

abbrev pub device_at : String → String → String → String
device_at owner link device =
    append "peer-link:sessions:by-peer-link-device:" (joined owner (joined link device))

record_key-full :
    (owner id : String)
    → IsFull owner
    → IsFull id
    → record_key owner id ≡ ok (session_at (trim owner) (trim id))
unfolding record_key key_of
record_key-full owner id ho hi =
    rw (assert_non_empty-full owner "ownerAccountId" ho, assert_non_empty-full id "sessionId" hi)
      refl

device_index_key-full :
    (owner link device : String)
    → IsFull owner
    → IsFull link
    → IsFull device
    → device_index_key owner link device ≡ ok (device_at (trim owner) (trim link) (trim device))
unfolding device_index_key
device_index_key-full owner link device ho hl hd =
    rw
      (
        assert_non_empty-full owner "ownerAccountId" ho,
        assert_non_empty-full link "peerLinkId" hl,
        assert_non_empty-full device "peerDeviceId" hd,
      )
      refl

-- A record of a device, with its ids.
pub record IsDeviceRecord (r : Record) : Type 0 where
  pub session : IsFull r.session_id
  pub owner : IsFull r.local_account_id
  pub link : IsFull r.peer_link_id
  pub device : IsFull r.peer_device_id

abbrev pub key_of_record : Record → String
key_of_record r = session_at (trim r.local_account_id) (trim r.session_id)

abbrev pub index_of_record : Record → String
index_of_record r =
    device_at (trim r.local_account_id) (trim r.peer_link_id) (trim r.peer_device_id)

module _ (kv : KeyValueStore) where
  abbrev pub stored_record : Record → kv.State → Record
  stored_record r s = record r { version = next_version r (read kv (key_of_record r) s) }

  abbrev pub state_after : Record → kv.State → kv.State
  state_after r s =
      kv.set (index_of_record r) (text (trim r.session_id))
        (kv.set (key_of_record r) (object (stored_record r s)) s)

  -- `put` never fails for such a record.
  pub put-device :
      (r : Record) (s : kv.State)
      → IsDeviceRecord r
      → put kv r s ≡ ok (state_after r s, stored_record r s)
  unfolding put index_key_of
  put-device r s h =
      let key : record_key (trim r.local_account_id) (trim r.session_id) ≡ ok (key_of_record r) =
        record_key-full (trim r.local_account_id) (trim r.session_id)
          (trim-IsFull r.local_account_id h.owner) (trim-IsFull r.session_id h.session)
        ∙ rw (trim_idem r.local_account_id, trim_idem r.session_id) refl in
      let index : device_index_key (trim r.local_account_id) (trim r.peer_link_id)
            (trim r.peer_device_id)
          ≡ ok (index_of_record r) =
        device_index_key-full (trim r.local_account_id) (trim r.peer_link_id)
          (trim r.peer_device_id) (trim-IsFull r.local_account_id h.owner)
          (trim-IsFull r.peer_link_id h.link) (trim-IsFull r.peer_device_id h.device)
        ∙ rw (trim_idem r.local_account_id, trim_idem r.peer_link_id, trim_idem r.peer_device_id)
            refl in
      rw
        (
          assert_non_empty-full r.session_id "sessionId" h.session,
          assert_non_empty-full r.local_account_id "localAccountId" h.owner,
          assert_non_empty-full r.peer_link_id "peerLinkId" h.link,
          key,
          h.device,
          index,
        )
        refl

  pub get-device :
      (owner link device : String) (s : kv.State)
      → IsFull owner
      → IsFull link
      → IsFull device
      → get_by_peer_link_and_device kv owner link device s
        ≡ get_if kv owner (id_of (read kv (device_at (trim owner) (trim link) (trim device)) s)) s
  unfolding get_by_peer_link_and_device
  get-device owner link device s ho hl hd =
      rw (device_index_key-full owner link device ho hl hd) refl

  get_by_id-full :
      (owner id : String) (s : kv.State)
      → IsFull owner
      → IsFull id
      → get_by_id kv owner id s ≡ ok (read kv (session_at (trim owner) (trim id)) s)
  unfolding get_by_id
  get_by_id-full owner id s ho hi = rw (record_key-full owner id ho hi) refl

-- A session's key is never that of an index entry.
device_at-session_at :
    (o l d a id : String)
    → is_empty o ≡ false
    → has_colon o ≡ false
    → has_colon a ≡ false
    → str_eq (device_at o l d) (session_at a id) ≡ false
unfolding has_colon
device_at-session_at o l d a id full plain plain_a =
    str_eq-false (device_at o l d) (session_at a id) (λ same.
      joined-apart a id "by-peer-link-device" o (joined l d) plain_a refl plain full (
        append_cancel_left "peer-link:sessions:" _ _ (
          sym same
          ∙ append_assoc "peer-link:sessions:by-peer-link-device" ":" (joined o (joined l d))
          ∙ append_assoc "peer-link:sessions:" "by-peer-link-device"
              (append ":" (joined o (joined l d))))))

module _ (kv : KeyValueStore) (law : IsLawful kv) (r : Record) (s : kv.State) (h : IsDeviceRecord r)
    (plain : IsPlain r.local_account_id) (plain_link : IsPlain r.peer_link_id) where
  -- What was put for a device is found there.
  pub get-put :
      get_by_peer_link_and_device kv r.local_account_id r.peer_link_id r.peer_device_id
        (state_after kv r s)
      ≡ ok (some (object (stored_record kv r s)))
  get-put =
      let owner = trim r.local_account_id in
      let id = trim r.session_id in
      let apart_keys =
        device_at-session_at owner (trim r.peer_link_id) (trim r.peer_device_id) owner id h.owner
          plain plain in
      let indexed : id_of (read kv (index_of_record r) (state_after kv r s)) ≡ some id =
        ap id_of (read-set_self kv law (index_of_record r) (text id) _) ∙ rw h.session refl in
      let found : read kv (session_at owner (trim id)) (state_after kv r s)
          ≡ some (object (stored_record kv r s)) =
        ap (λ x. read kv (session_at owner x) (state_after kv r s)) (trim_idem r.session_id)
        ∙ read-set_ne kv law (index_of_record r) (key_of_record r) (text id) _ apart_keys
        ∙ read-set_self kv law (key_of_record r) (object (stored_record kv r s)) s in
      get-device kv r.local_account_id r.peer_link_id r.peer_device_id (state_after kv r s) h.owner
        h.link h.device
      ∙ ap (λ o. get_if kv r.local_account_id o (state_after kv r s)) indexed
      ∙ get_by_id-full kv r.local_account_id id (state_after kv r s) h.owner
          (trim-IsFull r.session_id h.session)
      ∙ ap ok found

  -- A session that is neither put nor an index entry.
  read_session-kept :
      (owner id : String)
      → has_colon owner ≡ false
      → ¬ ((owner ≡ trim r.local_account_id) × (id ≡ trim r.session_id))
      → read kv (session_at owner id) (state_after kv r s) ≡ read kv (session_at owner id) s
  read_session-kept owner id po other =
      let not_index =
        device_at-session_at (trim r.local_account_id) (trim r.peer_link_id) (trim r.peer_device_id)
          owner id h.owner plain po in
      let not_key = str_eq-false (key_of_record r) (session_at owner id) (λ same.
        let (a, b) =
          joined-injective owner (trim r.local_account_id) id (trim r.session_id) po plain
            (append_cancel_left "peer-link:sessions:" _ _ (sym same)) in
        other (a, b)) in
      read-set_ne kv law (index_of_record r) (session_at owner id) _ _ not_index
      ∙ read-set_ne kv law (key_of_record r) (session_at owner id) _ s not_key

  read_index-kept :
      (owner link device : String)
      → is_empty owner ≡ false
      → has_colon owner ≡ false
      → has_colon link ≡ false
      → ¬ (
          (owner ≡ trim r.local_account_id)
          × (link ≡ trim r.peer_link_id)
          × (device ≡ trim r.peer_device_id))
      → read kv (device_at owner link device) (state_after kv r s)
        ≡ read kv (device_at owner link device) s
  read_index-kept owner link device full po pl other =
      let not_index = str_eq-false (index_of_record r) (device_at owner link device) (λ same.
        let (a, e) =
          joined-injective owner (trim r.local_account_id) (joined link device)
            (joined (trim r.peer_link_id) (trim r.peer_device_id)) po plain
            (append_cancel_left "peer-link:sessions:by-peer-link-device:" _ _ (sym same)) in
        let (b, c) =
          joined-injective link (trim r.peer_link_id) device (trim r.peer_device_id) pl plain_link
            e in
        other (a, b, c)) in
      let not_key = str_eq_sym (device_at owner link device) (key_of_record r) (
        device_at-session_at owner link device (trim r.local_account_id) (trim r.session_id) full po
          plain) in
      read-set_ne kv law (index_of_record r) (device_at owner link device) _ _ not_index
      ∙ read-set_ne kv law (key_of_record r) (device_at owner link device) _ s not_key

  get_if-kept :
      (owner : String) (o : Option String)
      → IsFull owner
      → IsPlain owner
      → ((id : String)
          → o ≡ some id
          → ¬ ((trim owner ≡ trim r.local_account_id) × (trim id ≡ trim r.session_id)))
      → get_if kv owner o (state_after kv r s) ≡ get_if kv owner o s
  unfolding get_by_id record_key key_of
  get_if-kept owner none ho po elsewhere = refl
  get_if-kept owner (some id) ho po elsewhere = elim (Bool-cases (is_empty (trim id))) [
    | inl blank ↦
        let bad = assert_non_empty-blank id "sessionId" blank in
        rw (assert_non_empty-full owner "ownerAccountId" ho, bad) refl
    | inr full ↦
        rw
          (
            assert_non_empty-full owner "ownerAccountId" ho,
            assert_non_empty-full id "sessionId" full,
          )
          (ap ok (read_session-kept (trim owner) (trim id) po (elsewhere id refl)))
  ]

  -- What another device has, under another session, is kept.
  pub get-put_other :
      (owner link device : String)
      → IsFull owner
      → IsFull link
      → IsFull device
      → IsPlain owner
      → IsPlain link
      → ¬ (
          (trim owner ≡ trim r.local_account_id)
          × (trim link ≡ trim r.peer_link_id)
          × (trim device ≡ trim r.peer_device_id))
      → ((id : String)
          → id_of (read kv (device_at (trim owner) (trim link) (trim device)) s) ≡ some id
          → ¬ ((trim owner ≡ trim r.local_account_id) × (trim id ≡ trim r.session_id)))
      → get_by_peer_link_and_device kv owner link device (state_after kv r s)
        ≡ get_by_peer_link_and_device kv owner link device s
  get-put_other owner link device ho hl hd po pl other elsewhere =
      let at = device_at (trim owner) (trim link) (trim device) in
      get-device kv owner link device (state_after kv r s) ho hl hd
      ∙ ap (λ x. get_if kv owner (id_of x) (state_after kv r s))
          (read_index-kept (trim owner) (trim link) (trim device) ho po pl other)
      ∙ get_if-kept owner (id_of (read kv at s)) ho po elsewhere
      ∙ sym (get-device kv owner link device s ho hl hd)

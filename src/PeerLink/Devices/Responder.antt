-- ===== src/PeerLink/Devices/Responder.antt =====
-- A session with a device is established only for the device that the handshake has authenticated.
use Prim.Native.String.{◌++◌ as append}
use rez_sdk.Common.{
  ℕ, ◌≡◌, refl, sym, ap, subst, ◌∙◌, Option, none, some, String, str_eq, eq_iff, arith, inl, inr,
  Bool-cases,
}
use rez_sdk.PeerLink.Storage.Base.{
  Record, Stored, object, KeyValueStore, IsLawful, ok, assert_non_empty,
}
use rez_sdk.PeerLink.Storage.Reading.{>>=-eq-ok, ok-injective}
use rez_sdk.PeerLink.Storage.Sessions.{put}
use rez_sdk.PeerLink.Storage.Sessions.Device.{
  IsFull, IsPlain, IsDeviceRecord, stored_record, state_after, put-device, get-put,
}
use rez_sdk.PeerLink.Devices.{
  Crypto, KeyPair, done, from_storage, from_core, require_non_empty, require_device,
  require_key_pair, Device, session_of, session_id_or, established, find, persist_device_session,
  check_claim, establish_responder,
}
use rez_sdk.PeerLink.Devices.Trial.{>>=-eq-done, done-injective, from_storage-done, from_core-done}

assert_full : (v label : String) {t : String} → assert_non_empty v label ≡ ok t → IsFull v
unfolding assert_non_empty
assert_full v label h = ground arith

-- What is stored of a session has its ids.
put-ids :
    (kv : KeyValueStore) (r : Record) (s : kv.State) {x : kv.State × Record}
    → put kv r s ≡ ok x
    → IsFull r.session_id × IsFull r.local_account_id × IsFull r.peer_link_id
unfolding put
put-ids kv r s h =
    let (a, ha, h1) = >>=-eq-ok (assert_non_empty r.session_id "sessionId") _ h in
    let (b, hb, h2) = >>=-eq-ok (assert_non_empty r.local_account_id "localAccountId") _ h1 in
    let (c, hc, h3) = >>=-eq-ok (assert_non_empty r.peer_link_id "peerLinkId") _ h2 in
    (
      assert_full r.session_id "sessionId" ha,
      assert_full r.local_account_id "localAccountId" hb,
      assert_full r.peer_link_id "peerLinkId" hc,
    )

require_full : (v label : String) {t : Unit {0}} → require_non_empty v label ≡ done t → IsFull v
unfolding require_non_empty
require_full v label h = ground arith

-- The session of a device after it was established from a snapshot.
pub record IsEstablished (kv : KeyValueStore) (c : Crypto) (d : Device) (snapshot uuid : String)
    (s s' : kv.State) (session_id : String) : Type 0 where
  pub before : Option Stored
  pub held : Record
  pub found : find kv c d s ≡ ok before
  pub kept : session_id ≡ session_id_or (session_of before) (append "pls_" uuid)
  pub after : find kv c d s' ≡ ok (some (object held))
  pub fresh : held.ratchet_snapshot ≡ snapshot
  pub named : held.session_id ≡ session_id

module _ (kv : KeyValueStore) (law : IsLawful kv) (c : Crypto) (d : Device)
    (plain : IsPlain d.owner_account_id) (plain_link : IsPlain d.peer_link_id) where
  persist-IsEstablished :
      (snapshot : String) (now : ℕ) (uuid : String) (s s' : kv.State) (session_id : String)
      → IsFull d.peer_device_id
      → persist_device_session kv c d snapshot now uuid s ≡ done (s', session_id)
      → IsEstablished kv c d snapshot uuid s s' session_id
  unfolding persist_device_session established
  persist-IsEstablished snapshot now uuid s s' session_id full h =
      let (before, hf, h1) = >>=-eq-done (from_storage (find kv c d s)) _ h in
      let r = established d snapshot now uuid (session_of before) in
      let ((t, stored), hp, h2) = >>=-eq-done (from_storage (put kv r s)) _ h1 in
      let written = from_storage-done (put kv r s) hp in
      let ids = put-ids kv r s written in
      let device : IsDeviceRecord r = record {
        session = ids.0;
        owner = ids.1;
        link = ids.2;
        device = full;
      } in
      let same : (state_after kv r s, stored_record kv r s) ≡ (t, stored) =
        ok-injective (sym (put-device kv r s device) ∙ written) in
      let result : (t, stored.session_id) ≡ (s', session_id) = done-injective h2 in
      let named : r.session_id ≡ session_id =
        ap (λ (x : kv.State × Record). x.1.session_id) same
        ∙ ap (λ (x : kv.State × String). x.1) result in
      record {
        before = before;
        held = stored_record kv r s;
        found = from_storage-done (find kv c d s) hf;
        kept = sym named;
        after =
            subst (λ u. find kv c d u ≡ ok (some (object (stored_record kv r s))))
              (ap (λ (x : kv.State × Record). x.0) same
                ∙ ap (λ (x : kv.State × String). x.0) result)
              (get-put kv law r s device plain plain_link);
        fresh = refl;
        named = named;
      }

  check_claim-done :
      (sender : Option String) {t : Unit {0}}
      → check_claim kv c d sender ≡ done t
      → (key : String) × (sender ≡ some key) × (c.device_id_for key ≡ d.peer_device_id)
  unfolding check_claim
  check_claim-done none h = cc
  check_claim-done (some key) h =
      elim (Bool-cases (str_eq (c.device_id_for key) d.peer_device_id)) [
        | inl e ↦ (key, refl, (eq_iff (c.device_id_for key) d.peer_device_id).0 e)
        | inr e ↦ absurd (ground arith)
      ]

  -- If the responder's side comes back, on a lawful store and for ids without a colon, then the handshake
  -- was complete and its sender's key is that of the claimed device; the session of that device is found,
  -- with the snapshot of the handshake, and it is the session that the device had before, if it had one.
  pub establish_responder-IsEstablished :
      (dh : KeyPair) (state handshake : String) (now : ℕ) (uuid : String) (s s' : kv.State)
      (session_id : String)
      → establish_responder kv c d (some dh) (some state) (some handshake) now uuid s
        ≡ done (s', session_id)
      → (key : String) × (snapshot : String) × (c.complete_invite_handshake state dh.private_key
            handshake d.peer_account_id
          ≡ some (some key, snapshot))
        × (c.device_id_for key ≡ d.peer_device_id)
        × IsEstablished kv c d snapshot uuid s s' session_id
  unfolding establish_responder require_device require_key_pair
  establish_responder-IsEstablished dh state handshake now uuid s s' session_id h =
      let (_, hd, h1) = >>=-eq-done (require_device d) _ h in
      let (_, _, d1) = >>=-eq-done (require_non_empty d.owner_account_id "ownerAccountId") _ hd in
      let (_, _, d2) = >>=-eq-done (require_non_empty d.peer_account_id "peerAccountId") _ d1 in
      let (_, _, d3) = >>=-eq-done (require_non_empty d.peer_link_id "peerLinkId") _ d2 in
      let ((sender, snapshot), hc, h2) =
        >>=-eq-done
          (from_core (c.complete_invite_handshake state dh.private_key handshake d.peer_account_id))
          _ h1 in
      let (_, hk, h3) = >>=-eq-done (check_claim kv c d sender) _ h2 in
      let (key, is_key, claimed) = check_claim-done sender hk in
      let complete = from_core-done _ hc in
      (
        key,
        snapshot,
        complete ∙ ap (λ (o : Option String). some (o, snapshot)) is_key,
        claimed,
        persist-IsEstablished snapshot now uuid s s' session_id
            (require_full d.peer_device_id "peerDeviceId" d3) h3,
      )

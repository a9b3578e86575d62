-- ===== src/PeerLink/Devices/Trial.antt =====
-- A trial over the devices of a link writes only the session that decrypts.
use rez_sdk.Common.{
  ℕ, ◌≡◌, refl, sym, ap, subst, ◌∙◌, Bool, true, false, Option, none, some, List, [], ◌∷◌, String,
  if◌then◌else◌, inl, inr, Bool-cases,
}
use rez_sdk.Common.Text.{is_empty}
use rez_sdk.PeerLink.Storage.Base.{Record, Stored, KeyValueStore, Result, ok, throws, Host}
use rez_sdk.PeerLink.Storage.Sessions.{put, list_by_peer_link}
use rez_sdk.PeerLink.Devices.{
  Crypto, Incoming, Attempt, DeviceError, done, fail, ◌>>=◌, from_storage, from_core,
  require_non_empty, Device, session_of, advance, text_or, is_from, find, accept_if, try_decrypt,
  attempt_session, attempt_device_decrypt, device_of, Trial, trial_or, trial_loop,
  trial_decrypt_across_devices,
}

pub >>=-eq-done {ℓ κ} :
    {A : Type ℓ} {B : Type κ} (tried : Attempt A) (next : A → Attempt B) {last : B}
    → (tried >>= next) ≡ done last
    → (value : A) × (tried ≡ done value) × (next value ≡ done last)
>>=-eq-done (fail e) next came = cc
>>=-eq-done (done value) next came = (value, refl, came)

pub done-injective {ℓ} : {A : Type ℓ} {x y : A} → done x ≡ done y → x ≡ y
done-injective e = cc

pub from_storage-done {ℓ} : {A : Type ℓ} (m : Result A) {a : A} → from_storage m ≡ done a → m ≡ ok a
from_storage-done (ok b) h = ap ok (done-injective h)
from_storage-done (throws e) h = cc

pub from_core-done {ℓ} : {A : Type ℓ} (o : Option A) {a : A} → from_core o ≡ done a → o ≡ some a
from_core-done none h = cc
from_core-done (some b) h = ap some (done-injective h)

-- The session of a device decrypts the packet, and only its advance was stored.
module _ (kv : KeyValueStore) (c : Crypto) where
  pub record IsDecrypted (d : Device) (packet : String) (now : ℕ) (s s' : kv.State)
      (plaintext session_id : String) : Type 0 where
    pub stored : Option Stored
    pub session : Record
    pub incoming : Incoming
    pub written : Record
    pub found : find kv c d s ≡ ok stored
    pub held : session_of stored ≡ some session
    pub decrypted : c.decrypt_incoming session.ratchet_snapshot packet ≡ some incoming
    pub from_peer : is_from (text_or d.peer_account_id session.peer_account_id) incoming ≡ true
    pub read_as : plaintext ≡ incoming.plaintext
    pub named : session_id ≡ session.session_id
    pub advanced : put kv (advance session incoming.snapshot now) s ≡ ok (s', written)

  abbrev pub IsAttempt :
      Device → String → ℕ → kv.State → kv.State × Option (String × String) → Type 0
  IsAttempt d packet now s (s', none) = s' ≡ s
  IsAttempt d packet now s (s', some (plaintext, session_id)) =
      IsDecrypted d packet now s s' plaintext session_id

  accept_if-IsAttempt :
      (d : Device) (packet : String) (now : ℕ) (s : kv.State) (stored : Option Stored) (r : Record)
      (i : Incoming) (b : Bool) (x : kv.State × Option (String × String))
      → find kv c d s ≡ ok stored
      → session_of stored ≡ some r
      → c.decrypt_incoming r.ratchet_snapshot packet ≡ some i
      → is_from (text_or d.peer_account_id r.peer_account_id) i ≡ b
      → accept_if kv c b r i now s ≡ done x
      → IsAttempt d packet now s x
  accept_if-IsAttempt d packet now s stored r i false x hf hs hd hb h =
      subst (IsAttempt d packet now s) (done-injective h) refl
  accept_if-IsAttempt d packet now s stored r i true x hf hs hd hb h =
      let ((s', written), hw, h1) =
        >>=-eq-done (from_storage (put kv (advance r i.snapshot now) s)) _ h in
      subst (IsAttempt d packet now s) (done-injective h1) (record {
        stored = stored;
        session = r;
        incoming = i;
        written = written;
        found = hf;
        held = hs;
        decrypted = hd;
        from_peer = hb;
        read_as = refl;
        named = refl;
        advanced = from_storage-done _ hw;
      })

  try_decrypt-IsAttempt :
      (d : Device) (packet : String) (now : ℕ) (s : kv.State) (stored : Option Stored) (r : Record)
      (x : kv.State × Option (String × String))
      → find kv c d s ≡ ok stored
      → session_of stored ≡ some r
      → try_decrypt kv c r (text_or d.peer_account_id r.peer_account_id) packet now s ≡ done x
      → IsAttempt d packet now s x
  unfolding try_decrypt
  try_decrypt-IsAttempt d packet now s stored r x hf hs h =
      let (_, _, h1) =
        >>=-eq-done (if is_empty packet then fail (DeviceError.requires "packetBytes") else done tt)
          _ h in
      let (i, hi, h2) =
        >>=-eq-done (from_core (c.decrypt_incoming r.ratchet_snapshot packet)) _ h1 in
      accept_if-IsAttempt d packet now s stored r i _ x hf hs (from_core-done _ hi) refl h2

  attempt_session-IsAttempt :
      (d : Device) (packet : String) (now : ℕ) (s : kv.State) (stored : Option Stored)
      (o : Option Record) (x : kv.State × Option (String × String))
      → find kv c d s ≡ ok stored
      → session_of stored ≡ o
      → attempt_session kv c false o d.peer_account_id packet now s ≡ done x
      → IsAttempt d packet now s x
  attempt_session-IsAttempt d packet now s stored none x hf hs h =
      subst (IsAttempt d packet now s) (done-injective h) refl
  attempt_session-IsAttempt d packet now s stored (some r) x hf hs h =
      try_decrypt-IsAttempt d packet now s stored r x hf hs h

  attempt_device_decrypt-IsAttempt :
      (d : Device) (packet : String) (now : ℕ) (s : kv.State)
      (x : kv.State × Option (String × String))
      → attempt_device_decrypt kv c d packet false now s ≡ done x
      → IsAttempt d packet now s x
  unfolding attempt_device_decrypt
  attempt_device_decrypt-IsAttempt d packet now s x h =
      let (stored, hf, h1) = >>=-eq-done (from_storage (find kv c d s)) _ h in
      attempt_session-IsAttempt d packet now s stored (session_of stored) x (from_storage-done _ hf)
        refl h1

  -- Without a match nothing was written.
  abbrev pub IsTrial : Device → String → ℕ → kv.State → Trial kv c → Type 0
  IsTrial d packet now s (s', none) = s' ≡ s
  IsTrial d packet now s (s', some (device, plaintext, session_id)) =
      IsDecrypted (record d { peer_device_id = device }) packet now s s' plaintext session_id

  trial_loop-IsTrial :
      (d : Device) (packet : String) (now : ℕ) (rs : List Record) (s : kv.State) (x : Trial kv c)
      → trial_loop kv c d packet now rs s ≡ done x
      → IsTrial d packet now s x
  unfolding trial_loop
  trial_loop-IsTrial d packet now [] s x h = subst (IsTrial d packet now s) (done-injective h) refl
  trial_loop-IsTrial d packet now (r ∷ rs) s x h = elim (Bool-cases (is_empty r.peer_device_id)) [
    | inl e ↦ trial_loop-IsTrial d packet now rs s x (rw e at h)
    | inr e ↦
        let (y, hy, h1) =
          >>=-eq-done (attempt_device_decrypt kv c (device_of kv c d r) packet false now s) _
            (rw e at h) in
        tried r rs s x y (attempt_device_decrypt-IsAttempt (device_of kv c d r) packet now s y hy)
          h1 (trial_loop-IsTrial d packet now rs s x)
  ]
    where
      tried :
          (r : Record) (rs : List Record) (s : kv.State) (x : Trial kv c)
          (y : kv.State × Option (String × String))
          → IsAttempt (device_of kv c d r) packet now s y
          → trial_or kv c r.peer_device_id y (trial_loop kv c d packet now rs) ≡ done x
          → (trial_loop kv c d packet now rs s ≡ done x → IsTrial d packet now s x)
          → IsTrial d packet now s x
      tried r rs s x (s', none) a h rest = rest (ap (trial_loop kv c d packet now rs) (sym a) ∙ h)
      tried r rs s x (s', some (plaintext, session_id)) a h rest =
          subst (IsTrial d packet now s) (done-injective h) a

-- A trial that comes back has either found no session and written nothing, or it names a device whose
-- session, as it was stored, decrypts the packet as one of the expected peer; then the plaintext is that
-- session's, and its advance is all that was written.
pub trial_decrypt-IsTrial :
    (kv : KeyValueStore) (c : Crypto) (h : Host) (d : Device) (packet : String) (now : ℕ)
    (s : kv.State) (x : Trial kv c)
    → trial_decrypt_across_devices kv c h d packet now s ≡ done x
    → IsTrial kv c d packet now s x
unfolding trial_decrypt_across_devices
trial_decrypt-IsTrial kv c h d packet now s x e =
    let (_, _, e1) = >>=-eq-done (require_non_empty d.owner_account_id "ownerAccountId") _ e in
    let (_, _, e2) = >>=-eq-done (require_non_empty d.peer_link_id "peerLinkId") _ e1 in
    let (rs, _, e3) =
      >>=-eq-done (from_storage (list_by_peer_link kv h d.owner_account_id d.peer_link_id s)) _
        e2 in
    trial_loop-IsTrial kv c d packet now rs s x e3

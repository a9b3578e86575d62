-- ===== src/PeerLink/Storage/Base.antt =====
-- What the five stores share (src/peer-link/createKeyValueBackedPeerLinkStorage.js): the host's
-- key-value store, the records, the checks of arguments and the keys.
use Prim.Native.String.{◌++◌ as append}
use rez_sdk.Common.{
  ℕ, zero, suc, ◌≡◌, Bool, not, Option, none, some, List, [], ◌∷◌, String, str_eq, is_some,
  if◌then◌else◌, any,
}
use rez_sdk.Common.Text.{is_empty, trim}

-- A record as the stores read it: a field that is absent or no text is "", a version that is no
-- positive integer is 0, so is a time that is absent, and `rest` stands for the other fields.
pub record Record : Type 0 where
  pub peer_link_id : String
  pub local_account_id : String
  pub peer_account_id : String
  pub owner_account_id : String
  pub session_id : String
  pub handshake_attempt_id : String
  pub event_id : String
  pub peer_device_id : String
  pub status : String
  pub version : ℕ
  pub ratchet_snapshot : String
  pub created_at_ms : ℕ
  pub updated_at_ms : ℕ
  pub rest : String

-- What a key holds. A host that has nothing under a key may answer `null`.
pub data Stored : Type 0 where
  object : Record → Stored
  text : String → Stored
  array : List String → Stored
  null : Stored

-- The host's store; `none` is `undefined`.
pub record KeyValueStore : Type 1 where
  pub State : Type 0
  pub get : String → State → Option Stored
  pub set : String → Stored → State → State
  pub delete : String → State → State × Bool
  pub keys : String → State → List String

-- What the code relies on: a key holds what was last set under it, until it is deleted, and `delete`
-- says whether there was something.
pub record IsLawful (kv : KeyValueStore) : Type 0 where
  pub get-set :
      (k j : String) (v : Stored) (s : kv.State)
      → kv.get j (kv.set k v s) ≡ (if str_eq k j then some v else kv.get j s)
  pub get-delete :
      (k j : String) (s : kv.State)
      → kv.get j (kv.delete k s).0 ≡ (if str_eq k j then none else kv.get j s)
  pub delete_found : (k : String) (s : kv.State) → (kv.delete k s).1 ≡ is_some (kv.get k s)

-- The errors that the stores throw.
pub data StorageError : Type 0 where
  required : String → StorageError
  already_exists : String → StorageError
  pair_exists : StorageError
  not_found : String → StorageError
  bad_expected_version : StorageError
  version_mismatch : String → StorageError
  owner_changed : StorageError
  pair_changed : StorageError

-- What a store answers: a value, or what it throws.
pub data Result {ℓ} (A : Type ℓ) : Type ℓ where
  throws : StorageError → Result A
  ok : A → Result A

-- `ensure holds e` is `if (!holds) throw e`.
abbrev pub ensure : Bool → StorageError → Result (Unit {0})
ensure holds e = if holds then ok tt else throws e

infixl 5 ◌>>=◌ ◌>>◌
abbrev pub ◌>>=◌ {ℓ κ} : {A : Type ℓ} {B : Type κ} → Result A → (A → Result B) → Result B
throws e >>= next = throws e
ok value >>= next = next value

abbrev pub ◌>>◌ {ℓ} : {B : Type ℓ} → Result (Unit {0}) → Result B → Result B
check >> rest = check >>= λ _. rest

-- `absenceNormalizingStore.get`
abbrev pub absence : Option Stored → Option Stored
absence none = none
absence (some null) = none
absence (some v) = some v

module _ (kv : KeyValueStore) where
  unfoldable pub read : String → kv.State → Option Stored
  read key s = absence (kv.get key s)

-- `assertNonEmptyString`
unfoldable pub assert_non_empty : String → String → Result String
assert_non_empty value label =
    if is_empty (trim value) then throws (required label) else ok (trim value)

-- `normalizeVersion`
unfoldable pub normalize_version : Record → ℕ
normalize_version r = elim r.version [ zero ↦ 1 | suc n ↦ suc n ]

-- `typeof value === "object"` of what is there
abbrev pub record_of : Option Stored → Option Record
record_of (some (object r)) = some r
record_of _ = none

abbrev pub blank : Record
blank = record {
  peer_link_id = "";
  local_account_id = "";
  peer_account_id = "";
  owner_account_id = "";
  session_id = "";
  handshake_attempt_id = "";
  event_id = "";
  peer_device_id = "";
  status = "";
  version = 0;
  ratchet_snapshot = "";
  created_at_ms = 0;
  updated_at_ms = 0;
  rest = "";
}

-- The fields of what is there; a text or an array has none of them.
abbrev pub fields_of : Stored → Record
fields_of (object r) = r
fields_of _ = blank

-- `typeof value === "string"` and not empty
abbrev pub id_of : Option Stored → Option String
id_of (some (text t)) = if is_empty t then none else some t
id_of _ = none

-- A check, a key's prefix and the two ids behind it.
abbrev pub joined : String → String → String
joined a b = append a (append "::" b)

unfoldable pub key_of : String → String → String → String → String → Result String
unfolding assert_non_empty
key_of prefix owner owner_label id id_label = do
  a ← assert_non_empty owner owner_label
  b ← assert_non_empty id id_label
  ok (append prefix (joined a b))

-- `pairKeyFor`
unfoldable pub pair_key_for : String → String → Result String
unfolding assert_non_empty
pair_key_for local_account_id peer_account_id = do
  a ← assert_non_empty local_account_id "localAccountId"
  b ← assert_non_empty peer_account_id "peerAccountId"
  ok (joined a b)

-- `String.prototype.toLowerCase` is the host's; the order of `localeCompare` too.
pub record Host : Type 0 where
  pub to_lower : String → String
  pub locale_le : String → String → Bool

-- `isRecoverableStatus` and `isPendingStatus`
abbrev pub one_of : String → List String → Bool
one_of t = any (λ u. str_eq u t)

unfoldable pub is_recoverable_status : Host → String → Bool
unfolding trim
is_recoverable_status h status =
    not (one_of (h.to_lower (trim status)) ("closed" ∷ "revoked" ∷ "deleted" ∷ []))

unfoldable pub is_pending_status : Host → String → Bool
unfolding trim
is_pending_status h status =
    not (one_of (h.to_lower (trim status)) ("completed" ∷ "failed" ∷ "revoked" ∷ "cancelled" ∷ []))

-- `out.sort(… localeCompare …)` by one field
unfoldable pub place : Host → (Record → String) → Record → List Record → List Record
place h field r [] = r ∷ []
place h field r (x ∷ xs) =
    let behind = place h field r xs in
    if h.locale_le (field r) (field x) then r ∷ x ∷ xs else x ∷ behind

unfoldable pub sort_by : Host → (Record → String) → List Record → List Record
sort_by h field [] = []
sort_by h field (x ∷ xs) = place h field x (sort_by h field xs)

-- The scan of the lists: the objects under the keys that a test accepts.
abbrev pub kept_if : (Record → Bool) → Option Record → List Record → List Record
kept_if test none rs = rs
kept_if test (some r) rs = if test r then r ∷ rs else rs

module _ (kv : KeyValueStore) where
  unfoldable pub scan : (Record → Bool) → List String → kv.State → List Record
  scan test [] s = []
  scan test (key ∷ keys) s = kept_if test (record_of (read kv key s)) (scan test keys s)

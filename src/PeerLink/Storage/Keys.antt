-- ===== src/PeerLink/Storage/Keys.antt =====
-- `KeyValueNodeKeyMaterialStore` (src/peer-link/createKeyValueBackedPeerLinkStorage.js).
use Prim.Native.String.{◌++◌ as append}
use rez_sdk.Common.{Bool, Option, none, some, String}
use rez_sdk.PeerLink.Storage.Base.{
  Stored, KeyValueStore, Result, ok, throws, ◌>>=◌, required, read, assert_non_empty, key_of,
}

-- The four kinds of material, each with the ids that it is kept under.
pub data Place : Type 0 where
  account_identity : String → Place
  device_identity invite_pre_key device_pre_key : String → String → Place

-- `_identityKey`, `_deviceIdentityKey`, `_invitePreKey` and `_devicePreKey`
unfoldable pub place_key : Place → Result String
unfolding assert_non_empty key_of
place_key (account_identity account_id) = do
  account ← assert_non_empty account_id "accountId"
  ok (append "peer-link:keys:identity:" account)
place_key (device_identity account_id device_id) =
    key_of "peer-link:keys:device:" account_id "accountId" device_id "deviceId"
place_key (invite_pre_key owner_account_id invite_id) =
    key_of "peer-link:keys:invite:" owner_account_id "ownerAccountId" invite_id "inviteId"
place_key (device_pre_key owner_account_id peer_account_id) =
    key_of "peer-link:keys:device-prekey:" owner_account_id "ownerAccountId" peer_account_id
      "peerAccountId"

-- `material === undefined`
abbrev pub assert_material : Option Stored → Result Stored
assert_material none = throws (required "material")
assert_material (some m) = ok m

module _ (kv : KeyValueStore) where
  -- `getAccountIdentity` and the like
  unfoldable pub get : Place → kv.State → Result (Option Stored)
  unfolding place_key
  get p s = do key ← place_key p; ok (read kv key s)

  -- `putAccountIdentity` and the like
  unfoldable pub put : Place → Option Stored → kv.State → Result (kv.State × Stored)
  unfolding place_key
  put p material s = do m ← assert_material material; key ← place_key p; ok (kv.set key m s, m)

  -- `deleteInvitePreKey` and `deleteDevicePreKey`
  unfoldable pub remove : Place → kv.State → Result (kv.State × Bool)
  unfolding place_key
  remove p s = do key ← place_key p; ok (kv.delete key s)

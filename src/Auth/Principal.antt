-- ===== src/Auth/Principal.antt =====
-- Who authenticates, and the payloads that are signed (src/auth/AuthStateMachine.js, src/auth/signing.js).
use rez_sdk.Common.{ℕ, Bool, false, Option, none, some, String, List, if◌then◌else◌}
use rez_sdk.Common.Text.{is_empty}
use rez_sdk.Common.Value.{Number}

pub record DeviceKey : Type 0 where
  pub public_key_b64 : String
  pub private_key_b64 : String

-- The certificates of the chain are opaque. A field that is absent is "".
pub record Identity : Type 0 where
  pub public_key_b64 : String
  pub private_key_b64 : String
  pub device_id : String
  pub device_key : Option DeviceKey
  pub cert_chain : List String

pub record ClaimantIdentity : Type 0 where
  pub claimant_public_key_b64 : String
  pub private_key_b64 : String

-- The mode of a machine, with the identity that it authenticates as.
pub data Principal : Type 0 where
  account : Identity → Principal
  claimant : ClaimantIdentity → Principal

-- What both sides sign of a challenge.
pub record Terms : Type 0 where
  pub challenge_id : String
  pub nonce_b64 : String
  pub node_key_id : String
  pub node_public_key_b64 : String
  pub relay_key_id : String
  pub ws_path : String

-- The fields of a challenge behind `String(… || "")`; `Number(…)` of the two times.
pub record Challenge : Type 0 where
  pub terms : Terms
  pub issued_at_ms : Number
  pub expires_at_ms : Number
  pub signature_b64 : String

-- The four kinds of payload, each with its fields.
pub data Payload : Type 0 where
  session_challenge : Terms → Number → Number → String → String → Payload
  session_challenge_claimant : Terms → Number → Number → String → Payload
  session_auth : Terms → String → String → Payload
  session_auth_claimant : Terms → String → Payload

-- What a node's signature has to cover.
unfoldable pub challenge_payload : Principal → Challenge → Payload
challenge_payload (account i) c =
    session_challenge c.terms c.issued_at_ms c.expires_at_ms i.public_key_b64 i.device_id
challenge_payload (claimant i) c =
    session_challenge_claimant c.terms c.issued_at_ms c.expires_at_ms i.claimant_public_key_b64

-- What is signed back.
unfoldable pub auth_payload : Principal → Terms → Payload
auth_payload (account i) t = session_auth t i.public_key_b64 i.device_id
auth_payload (claimant i) t = session_auth_claimant t i.claimant_public_key_b64

abbrev pub device_private : Option DeviceKey → String
device_private none = ""
device_private (some d) = d.private_key_b64

abbrev pub device_public : Option DeviceKey → String
device_public none = ""
device_public (some d) = d.public_key_b64

-- A delegated device holds no account key, and signs with its own.
unfoldable pub signing_key : Principal → String
signing_key (account i) =
    if is_empty i.private_key_b64 then device_private i.device_key else i.private_key_b64
signing_key (claimant i) = i.private_key_b64

-- What the hello discloses.
pub data Hello : Type 0 where
  account_hello : String → String → Hello
  claimant_hello : String → Hello

unfoldable pub hello_of : Principal → Hello
hello_of (account i) = account_hello i.device_id i.public_key_b64
hello_of (claimant i) = claimant_hello i.claimant_public_key_b64

-- The body of `session.authenticate`; a delegated device adds its key and its chain.
pub record AuthBody : Type 0 where
  pub challenge_id : String
  pub signature_b64 : String
  pub delegation : Option (String × List String)

abbrev pub delegation_of : Principal → Option (String × List String)
delegation_of (account i) =
    if is_empty i.private_key_b64 then some (device_public i.device_key, i.cert_chain) else none
delegation_of (claimant i) = none

abbrev pub auth_body : Principal → Terms → String → AuthBody
auth_body p t signature = record {
  challenge_id = t.challenge_id;
  signature_b64 = signature;
  delegation = delegation_of p;
}

-- WebCrypto with the decoding of keys, and `validateRelayIdentityBinding` of @rezprotocol/core.
-- `verify` is false and `sign` is `none` where the platform throws.
pub record Crypto : Type 0 where
  pub binds : String → String → String → Bool
  pub verify : String → String → Payload → Bool
  pub sign : String → Payload → Option String

-- `verifyPayload`
unfoldable pub verify_payload : Crypto → String → String → Payload → Bool
verify_payload crypto public_key signature payload =
    if is_empty public_key
    then false
    else if is_empty signature
    then false
    else crypto.verify public_key signature payload

-- The constants of @rezprotocol/core.
pub record Contract : Type 0 where
  pub hello_type : String
  pub challenge_type : String
  pub authenticate_type : String
  pub ready_type : String
  pub version : ℕ

-- `CONTRACT_VERSION` in account mode, 5 in claimant mode.
abbrev pub version_of : Contract → Principal → ℕ
version_of contract (account _) = contract.version
version_of contract (claimant _) = 5

-- ===== src/Inbox/Claim.antt =====
-- A claim as it is kept in memory, and as it is stored (src/inbox/InboxClaimStore.js,
-- `#normalizeStored` and the rows of `#persistAll`).
pub mod RoundTrip
use rez_sdk.Common.{
  ℕ, zero, suc, ◌≡◌, ◌<◌, Bool, true, false, not, ◌&&◌, ◌||◌, Option, none, some, String, str_eq,
  is_some, if◌then◌else◌, leb,
}
use rez_sdk.Common.Text.{is_empty}
use rez_sdk.Common.Value.{
  Number, Value, undefined, text, number, trimmed, is_finite, is_positive, is_above, to_number,
}

-- `RCapability`, which is not part of this code: made from JSON and written as JSON.
pub record Capability : Type 1 where
  pub Cap : Type 0
  pub Json : Type 0
  pub of_json : Json → Cap
  pub to_json : Cap → Json

-- What is written is read back.
pub record IsFaithful (k : Capability) : Type 0 where
  pub of-to : (c : k.Cap) → k.of_json (k.to_json c) ≡ c

pub data RetentionClass : Type 0 where
  transient standard : RetentionClass

abbrev pub retention_text : RetentionClass → String
retention_text transient = "transient"
retention_text standard = "standard"

-- `cls === "transient" || cls === "standard"`, with no `trim`
unfoldable pub read_retention : Value → Option RetentionClass
read_retention (text s) =
    if str_eq s "transient"
    then some transient
    else if str_eq s "standard"
    then some standard
    else none
read_retention _ = none

pub record Lease : Type 0 where
  pub issued_at_ms : Number
  pub expires_at_ms : Number
  pub retention_class : RetentionClass

pub record RawLease : Type 0 where
  pub issued_at_ms : Value
  pub expires_at_ms : Value
  pub retention_class : Value

-- The second key pair, and the generation: all of it is there or nothing.
pub record CloseKeys : Type 0 where
  pub close_public_key_b64 : String
  pub close_private_key_b64 : String
  pub generation : ℕ

-- The window test that the reading of a row and `recordAcceptedLease` share.
abbrev pub is_window : Number → Number → Bool
is_window issued expires =
    is_finite issued && is_positive issued && is_finite expires && is_above issued expires

unfoldable pub lease_of : Number → Number → Option RetentionClass → Option Lease
lease_of issued expires none = none
lease_of issued expires (some c) =
    if is_window issued expires
    then some (record { issued_at_ms = issued; expires_at_ms = expires; retention_class = c })
    else none

-- A malformed lease counts as absent.
unfoldable pub read_lease : Option RawLease → Option Lease
read_lease none = none
read_lease (some r) =
    lease_of (to_number r.issued_at_ms) (to_number r.expires_at_ms)
      (read_retention r.retention_class)

-- `Number.isInteger(Number(v)) && Number(v) >= 1`
abbrev pub positive_integer : Number → Option ℕ
positive_integer (Number.integer (suc n)) = some (suc n)
positive_integer _ = none

abbrev pub row_lease : Option Lease → Option RawLease
row_lease none = none
row_lease (some l) = some (record {
  issued_at_ms = number l.issued_at_ms;
  expires_at_ms = number l.expires_at_ms;
  retention_class = text (retention_text l.retention_class);
})

abbrev pub row_public : Option CloseKeys → Value
row_public none = undefined
row_public (some c) = text c.close_public_key_b64

abbrev pub row_private : Option CloseKeys → Value
row_private none = undefined
row_private (some c) = text c.close_private_key_b64

abbrev pub row_generation : Option CloseKeys → Value
row_generation none = undefined
row_generation (some c) = number (Number.integer c.generation)

-- The lease fields are all there (`some (some _)`), all absent (`some none`), or the record is
-- corrupt (`none`).
unfoldable pub read_close_keys : String → String → Option ℕ → Option (Option CloseKeys)
read_close_keys close_public close_private none =
    if not (is_empty close_public) || not (is_empty close_private) then none else some none
read_close_keys close_public close_private (some g) =
    if not (is_empty close_public) && not (is_empty close_private)
    then some (
        some (record {
          close_public_key_b64 = close_public;
          close_private_key_b64 = close_private;
          generation = g;
        }))
    else none

module _ (k : Capability) where
  -- `record.rootCap`: an `RCapability`, another truthy value, or nothing.
  pub data RootCap : Type 0 where
    live : k.Cap → RootCap
    json : k.Json → RootCap
    missing : RootCap

  -- A record as callers and the storage hand it in.
  pub record RawClaim : Type 0 where
    pub inbox_id : Value
    pub claimant_public_key_b64 : Value
    pub claimant_private_key_b64 : Value
    pub claimed_at_ms : Value
    pub claim_signature_b64 : Value
    pub root_cap : RootCap
    pub close_public_key_b64 : Value
    pub close_private_key_b64 : Value
    pub generation : Value
    pub lease : Option RawLease

  pub record Claim : Type 0 where
    pub inbox_id : String
    pub claimant_public_key_b64 : String
    pub claimant_private_key_b64 : String
    pub claimed_at_ms : Number
    pub claim_signature_b64 : String
    pub root_cap : k.Cap
    pub close_keys : Option CloseKeys
    pub lease : Option Lease

  unfoldable pub read_root_cap : RootCap → Option k.Cap
  read_root_cap (live c) = some c
  read_root_cap (json j) = some (k.of_json j)
  read_root_cap missing = none

  unfoldable pub assemble : RawClaim → Option k.Cap → Option (Option CloseKeys) → Option Claim
  assemble r (some cap) (some keys) = some (record {
    inbox_id = trimmed r.inbox_id;
    claimant_public_key_b64 = trimmed r.claimant_public_key_b64;
    claimant_private_key_b64 = trimmed r.claimant_private_key_b64;
    claimed_at_ms = to_number r.claimed_at_ms;
    claim_signature_b64 = trimmed r.claim_signature_b64;
    root_cap = cap;
    close_keys = keys;
    lease = read_lease r.lease;
  })
  assemble r _ _ = none

  -- `#normalizeStored`, for a record that is an object.
  unfoldable pub normalize_stored : RawClaim → Option Claim
  normalize_stored r =
      if is_empty (trimmed r.inbox_id)
        || is_empty (trimmed r.claimant_public_key_b64)
        || is_empty (trimmed r.claimant_private_key_b64)
        || is_empty (trimmed r.claim_signature_b64)
      then none
      else if not (is_finite (to_number r.claimed_at_ms))
          || not (is_positive (to_number r.claimed_at_ms))
      then none
      else assemble r (read_root_cap r.root_cap) (
          read_close_keys (trimmed r.close_public_key_b64) (trimmed r.close_private_key_b64)
            (positive_integer (to_number r.generation)))

  -- The row that `#persistAll` writes for a claim.
  unfoldable pub row_of : Claim → RawClaim
  row_of c = record {
    inbox_id = text c.inbox_id;
    claimant_public_key_b64 = text c.claimant_public_key_b64;
    claimant_private_key_b64 = text c.claimant_private_key_b64;
    claimed_at_ms = number c.claimed_at_ms;
    claim_signature_b64 = text c.claim_signature_b64;
    root_cap = json (k.to_json c.root_cap);
    close_public_key_b64 = row_public c.close_keys;
    close_private_key_b64 = row_private c.close_keys;
    generation = row_generation c.close_keys;
    lease = row_lease c.lease;
  }

-- ===== src/Relay/Policy.antt =====
-- Whether an identity-bearing handshake may be started toward a relay
-- (src/relay/DowngradePolicy.js).
pub mod Refusal
use rez_sdk.Common.{ℕ, Bool, true, false, Option, none, some, String, ltb, if◌then◌else◌, ◌≡◌}
use rez_sdk.Common.Text.{is_empty}
use rez_sdk.Common.Value.{Value, boolean, trimmed}
use rez_sdk.Relay.Floor.{Backing, FloorStore, floor_for}

-- The texts of `reason`; the last names the floor.
pub data Reason : Type 0 where
  downgrade_condition_recorded : Reason
  enforced : ℕ → Reason

pub record Permit : Type 0 where
  pub permitted : Bool
  pub floor : Option ℕ
  pub reason : Option Reason

-- `enforce === true`
abbrev pub is_true : Value → Bool
is_true (boolean true) = true
is_true _ = false

-- What the policy answers for a floor.
abbrev pub permit_at : Option ℕ → Value → Permit
permit_at none enforce = record { permitted = true; floor = none; reason = none }
permit_at (some f) enforce =
    if ltb f 5
    then record { permitted = true; floor = some f; reason = none }
    else if is_true enforce
    then record { permitted = false; floor = some f; reason = some (enforced f) }
    else record { permitted = true; floor = some f; reason = some downgrade_condition_recorded }

module _ (b : Backing) where
  unfoldable pub permits_account_mode_auth : Value → Option (FloorStore b) → Value → Permit
  permits_account_mode_auth relay_identity none enforce = record {
    permitted = true;
    floor = none;
    reason = none;
  }
  permits_account_mode_auth relay_identity (some store) enforce =
      let identity = trimmed relay_identity in
      if is_empty identity
      then record { permitted = true; floor = none; reason = none }
      else permit_at (floor_for b store (Value.text identity)) enforce

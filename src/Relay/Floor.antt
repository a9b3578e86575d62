-- ===== src/Relay/Floor.antt =====
-- The highest wire contract that each verified relay identity has authenticated at
-- (src/relay/RelayContractFloorStore.js).
pub mod Highest
use rez_sdk.Common.{
  ℕ, zero, suc, max, Bool, true, false, Option, none, some, String, ltb, if◌then◌else◌, ◌≡◌, ◌<◌,
  str_eq,
}
use rez_sdk.Common.Text.{is_empty}
use rez_sdk.Common.Value.{Number, Value, number, trimmed}
use rez_sdk.Common.Dict.{Dict, lookup, insert}

-- The `backing` that an embedder may supply.
pub record Backing : Type 1 where
  pub State : Type 0
  pub get : State → String → Value
  pub set : State → String → ℕ → State

-- What the store relies on: a positive number that is set is read back, and other keys are kept.
pub record IsLawful (b : Backing) : Type 0 where
  pub get-set_self :
      (s : b.State) (k : String) (n : ℕ)
      → b.get (b.set s k (suc n)) k ≡ number (Number.integer (suc n))
  pub get-set_ne :
      (s : b.State) (k j : String) (n : ℕ) → str_eq k j ≡ false → b.get (b.set s k n) j ≡ b.get s j

-- `Number.isInteger(value) && value > 0 ? value : null`
abbrev pub positive_or_null : Value → Option ℕ
positive_or_null (number (Number.integer (suc n))) = some (suc n)
positive_or_null _ = none

pub record Observation : Type 0 where
  pub floor : ℕ
  pub observed_current : ℕ
  pub downgrade : Bool

pub data Failure : Type 0 where
  missing_relay_identity bad_contract_version : Failure

-- `existing === null ? contractVersion : Math.max(existing, contractVersion)`
abbrev pub raise : Option ℕ → ℕ → ℕ
raise none n = n
raise (some e) n = max e n

-- `existing === null || floor > existing`
abbrev pub is_raised : Option ℕ → ℕ → Bool
is_raised none f = true
is_raised (some e) f = ltb e f

abbrev pub is_downgrade : Option ℕ → ℕ → Bool
is_downgrade none n = false
is_downgrade (some e) n = ltb n e

module _ (b : Backing) where
  pub data FloorStore : Type 0 where
    memory : Dict ℕ → FloorStore
    backed : b.State → FloorStore

  unfoldable pub read : FloorStore → String → Option ℕ
  read (memory m) k = lookup k m
  read (backed s) k = positive_or_null (b.get s k)

  unfoldable pub write : FloorStore → String → ℕ → FloorStore
  write (memory m) k n = memory (insert k n m)
  write (backed s) k n = backed (b.set s k n)

  pub data Outcome : Type 0 where
    recorded : FloorStore → Observation → Outcome
    threw : Failure → Outcome

  -- The body behind the two checks of the arguments.
  unfoldable pub record_version : FloorStore → String → ℕ → Outcome
  record_version s key version =
      let existing = read s key in
      let floor = raise existing version in
      recorded (if is_raised existing floor then write s key floor else s) (record {
        floor = floor;
        observed_current = version;
        downgrade = is_downgrade existing version;
      })

  unfoldable pub record_observed : FloorStore → Value → Value → Outcome
  record_observed s relay_identity contract_version =
      let key = trimmed relay_identity in
      if is_empty key
      then threw missing_relay_identity
      else elim (positive_or_null contract_version) [
        | none ↦ threw bad_contract_version
        | some version ↦ record_version s key version
      ]

  unfoldable pub floor_for : FloorStore → Value → Option ℕ
  floor_for s relay_identity =
      let key = trimmed relay_identity in if is_empty key then none else read s key

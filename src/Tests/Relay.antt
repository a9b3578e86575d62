-- ===== src/Tests/Relay.antt =====
-- Floors of relays, in memory and over a backing.
use rez_sdk.Common.{ℕ, suc, ◌≡◌, refl, true, false, Option, none, some, List, [], ◌∷◌}
use rez_sdk.Common.Text.{trim}
use rez_sdk.Common.Value.{Number, Value, boolean, undefined, text, number, trimmed}
use rez_sdk.Common.Dict.{Dict, lookup, insert, lookup-insert, lookup-insert_self}
use rez_sdk.Relay.Floor.{
  Backing, IsLawful, FloorStore, memory, backed, read, write, record_version, record_observed,
  floor_for,
}
use rez_sdk.Relay.Floor.Highest.{Report, contribution, highest, observe_all, floor_for-highest}
use rez_sdk.Relay.Policy.{permits_account_mode_auth}
use rez_sdk.Relay.Policy.Refusal.{permits_account_mode_auth_for_ever}

-- A backing that keeps its values in a map.
abbrev pub value_of : Option ℕ → Value
value_of none = undefined
value_of (some n) = number (Number.integer n)

abbrev pub map_backing : Backing
map_backing = record {
  State = Dict ℕ;
  get = λ s key. value_of (lookup key s);
  set = λ s key n. insert key n s;
}

pub map_backing-IsLawful : IsLawful map_backing
map_backing-IsLawful = record {
  get-set_self = λ s key n. rw (lookup-insert_self key (suc n) s) refl;
  get-set_ne = λ s key j n e. rw (lookup-insert key j n s) (rw e refl);
}

program : Unit {0}
unfolding read write record_version record_observed floor_for contribution highest observe_all
    permits_account_mode_auth trimmed trim lookup insert
program = tt

abbrev relay : Value
relay = text "relay-a"

abbrev reports : List Report
reports =
    (relay, number (Number.integer 5))
    ∷ (text "relay-b", number (Number.integer 9))
    ∷ (relay, number (Number.integer 4))
    ∷ (relay, number (Number.half 7))
    ∷ (text " relay-a ", number (Number.integer 6))
    ∷ []

observed : floor_for map_backing (observe_all map_backing (memory []) reports) relay ≡ some 6
unfolding program
observed = refl

observed_backed : floor_for map_backing (observe_all map_backing (backed []) reports) relay ≡ some 6
unfolding program
observed_backed = refl

floor_for-highest_example :
    floor_for map_backing (observe_all map_backing (backed []) reports) relay
    ≡ highest (trimmed relay) (floor_for map_backing (backed []) relay) reports
unfolding program
floor_for-highest_example =
    floor_for-highest map_backing map_backing-IsLawful (backed []) relay reports refl

abbrev seen : FloorStore map_backing
seen = memory (("relay-a", 5) ∷ [])

permits_account_mode_auth_for_ever_example :
    (permits_account_mode_auth map_backing relay
      (some (observe_all map_backing seen reports))
      (boolean true)).permitted
    ≡ false
unfolding program
permits_account_mode_auth_for_ever_example =
    permits_account_mode_auth_for_ever map_backing map_backing-IsLawful relay seen reports refl

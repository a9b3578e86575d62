-- ===== src/Relay/Floor/Highest.antt =====
-- The floor of a relay is the highest contract that was ever recorded for it.
use rez_sdk.Common.{
  ℕ, suc, max, ◌≡◌, refl, ap, ◌∙◌, inl, inr, false, Option, none, some, String, List, [], ◌∷◌, ltb,
  if◌then◌else◌, arith, tests, str_eq, eq_iff, Bool-cases, Option-cases,
}
use rez_sdk.Common.Text.{is_empty}
use rez_sdk.Common.Value.{Number, Value, number, trimmed}
use rez_sdk.Common.Dict.{lookup-insert}
use rez_sdk.Relay.Floor.{
  Backing, IsLawful, FloorStore, memory, backed, Outcome, recorded, threw, positive_or_null, read,
  write, record_version, record_observed, floor_for,
}

-- A relay and a contract version, as `recordObserved` is given them.
abbrev pub Report : Type 0
Report = Value × Value

-- The number that a report contributes to the floor of a relay: none, if it is about another relay
-- or would be refused.
unfoldable pub contribution : String → Report → Option ℕ
contribution key (relay, version) =
    if is_empty (trimmed relay)
    then none
    else if str_eq (trimmed relay) key
    then positive_or_null version
    else none

-- The greater of two floors, where there may be none.
abbrev pub higher : Option ℕ → Option ℕ → Option ℕ
higher none o = o
higher (some a) none = some a
higher (some a) (some b) = some (max a b)

-- The highest contract among the reports about a relay, above what was known before.
unfoldable pub highest : String → Option ℕ → List Report → Option ℕ
highest key known [] = known
highest key known (r ∷ rs) = highest key (higher known (contribution key r)) rs

higher-none : (o : Option ℕ) → o ≡ higher o none
higher-none none = refl
higher-none (some a) = refl

module _ (b : Backing) where
  -- The store after the reports, one call of `recordObserved` for each; a call that throws leaves it.
  abbrev pub after : FloorStore b → Outcome b → FloorStore b
  after s (recorded t _) = t
  after s (threw _) = s

  unfoldable pub observe_all : FloorStore b → List Report → FloorStore b
  observe_all s [] = s
  observe_all s ((relay, version) ∷ rs) =
      observe_all (after s (record_observed b s relay version)) rs

  module _ (lawful : IsLawful b) where
    read-write :
        (s : FloorStore b) (k j : String) (n : ℕ)
        → read b (write b s k (suc n)) j ≡ (if str_eq k j then some (suc n) else read b s j)
    unfolding read write
    read-write (memory m) k j n = lookup-insert k j (suc n) m
    read-write (backed s) k j n = elim (Bool-cases (str_eq k j)) [
      | inl e ↦ rw e (rw (← (eq_iff k j).0 e) (rw (lawful.get-set_self s k n) refl))
      | inr e ↦ rw e (rw (lawful.get-set_ne s k j (suc n) e) refl)
    ]

    read-record_version :
        (s : FloorStore b) (key j : String) (n : ℕ)
        → read b (after s (record_version b s key (suc n))) j
          ≡ (if str_eq key j then higher (read b s key) (some (suc n)) else read b s j)
    unfolding record_version
    read-record_version s key j n = elim (Option-cases (read b s key)) [
      | inl e ↦ rw e (read-write s key j n)
      | inr (f, e) ↦ elim (Bool-cases (ltb f (suc n))) [
        | inl up ↦
            let top : max f (suc n) ≡ suc n = omega tests in
            rw e (rw top (rw up (read-write s key j n)))
        | inr down ↦
            let top : max f (suc n) ≡ f = ground arith in
            rw e (rw top (ground (arith, eq_iff key j)))
      ]
    ]

    after-record_observed :
        (s : FloorStore b) (key : String) (r : Report)
        → is_empty key ≡ false
        → read b (after s (record_observed b s r.0 r.1)) key
          ≡ higher (read b s key) (contribution key r)
    unfolding record_observed contribution
    after-record_observed s key (relay, number (Number.integer (suc n))) solid =
        elim (Bool-cases (is_empty (trimmed relay))) [
          | inl e ↦ rw e (higher-none (read b s key))
          | inr e ↦ rw e (elim (Bool-cases (str_eq (trimmed relay) key)) [
            | inl k ↦ rw k (
                read-record_version s (trimmed relay) key n
                ∙ rw k (
                    ap (λ x. higher (read b s x) (some (suc n)))
                      ((eq_iff (trimmed relay) key).0 k)))
            | inr k ↦
                rw k
                  (read-record_version s (trimmed relay) key n ∙ rw k (higher-none (read b s key)))
          ])
        ]
    after-record_observed s key (relay, _) solid = ground (arith, higher-none (read b s key))

    floor_for-record_observed :
        (s : FloorStore b) (relay : Value) (r : Report)
        → is_empty (trimmed relay) ≡ false
        → floor_for b (after s (record_observed b s r.0 r.1)) relay
          ≡ higher (floor_for b s relay) (contribution (trimmed relay) r)
    unfolding floor_for
    floor_for-record_observed s relay r solid =
        rw solid (after-record_observed s (trimmed relay) r solid)

    -- Over a lawful backing, for a relay whose name is no blank: after any calls of `recordObserved`, refused ones included, the floor of a relay is the
    -- highest contract version that was recorded for it, above the floor from before: it never
    -- falls, and a relay's floor is moved by reports about that relay alone.
    pub floor_for-highest :
        (s : FloorStore b) (relay : Value) (rs : List Report)
        → is_empty (trimmed relay) ≡ false
        → floor_for b (observe_all s rs) relay ≡ highest (trimmed relay) (floor_for b s relay) rs
    unfolding observe_all highest
    floor_for-highest s relay [] solid = refl
    floor_for-highest s relay (r ∷ rs) solid =
        floor_for-highest (after s (record_observed b s r.0 r.1)) relay rs solid
        ∙ ap (λ o. highest (trimmed relay) o rs) (floor_for-record_observed s relay r solid)

-- ===== src/Relay/Policy/Refusal.antt =====
-- When the policy refuses, and for how long.
use rez_sdk.Common.{
  ℕ, max, ◌≡◌, refl, sym, ◌∙◌, ◌≤◌, ◌↔◌, inl, inr, true, false, Option, none, some, List, [], ◌∷◌,
  arith, Bool-cases, Option-cases,
}
use rez_sdk.Common.Text.{is_empty}
use rez_sdk.Common.Value.{Value, boolean, text, trimmed, trimmed-trimmed}
use rez_sdk.Relay.Floor.{Backing, IsLawful, FloorStore, floor_for}
use rez_sdk.Relay.Floor.Highest.{Report, highest, contribution, observe_all, floor_for-highest}
use rez_sdk.Relay.Policy.{permit_at, permits_account_mode_auth}

highest-ge :
    (key : _) (known : Option ℕ) (rs : List Report) {m : ℕ}
    → known ≡ some m
    → (n : ℕ) × (highest key known rs ≡ some n) × (m ≤ n)
unfolding highest
highest-ge key known [] {m} h = (m, h, omega arith)
highest-ge key none (r ∷ rs) {m} h = cc
highest-ge key (some k) (r ∷ rs) {m} h = elim (Option-cases (contribution key r)) [
  | inl e ↦ rw e (highest-ge key (some k) rs h)
  | inr (c, e) ↦
      let (n, found, above) = highest-ge key (some (max k c)) rs {m = max k c} refl in
      (n, rw e found, ground arith)
]

permit_at-refused :
    (o : Option ℕ) (enforce : Value)
    → (permit_at o enforce).permitted ≡ false
    → (enforce ≡ boolean true) × ((n : ℕ) × (o ≡ some n) × (5 ≤ n))
permit_at-refused none enforce h = cc
permit_at-refused (some n) (boolean true) h = (refl, (n, refl, ground arith))
permit_at-refused (some n) enforce h = absurd (ground arith)

permit_at_high : (n : ℕ) → 5 ≤ n → (permit_at (some n) (boolean true)).permitted ≡ false
permit_at_high n h = ground arith

module _ (b : Backing) where
  floor_for-trimmed :
      (s : FloorStore b) (v : Value) → floor_for b s (text (trimmed v)) ≡ floor_for b s v
  unfolding floor_for
  floor_for-trimmed s v = rw (trimmed-trimmed v)

  floor_for-empty :
      (s : FloorStore b) (v : Value) {n : ℕ}
      → is_empty (trimmed v) ≡ true
      → floor_for b s v ≡ some n
      → ⊥
  unfolding floor_for
  floor_for-empty s v e h = ground arith

  permitted-permit_at :
      (relay : Value) (s : FloorStore b) (enforce : Value)
      → (permits_account_mode_auth b relay (some s) enforce).permitted
        ≡ (permit_at (floor_for b s relay) enforce).permitted
  unfolding permits_account_mode_auth
  permitted-permit_at relay s enforce = elim (Bool-cases (is_empty (trimmed relay))) [
    | inl e ↦ rw e (unfold floor_for in rw e refl)
    | inr e ↦ rw e (rw floor_for-trimmed refl)
  ]

  -- A handshake is refused exactly if enforcement is on and the relay has a recorded floor of 5 or
  -- more.
  pub permits_account_mode_auth-refused_iff :
      (relay : Value) (s : FloorStore b) (enforce : Value)
      → ((permits_account_mode_auth b relay (some s) enforce).permitted ≡ false)
        ↔ ((enforce ≡ boolean true) × ((n : ℕ) × (floor_for b s relay ≡ some n) × (5 ≤ n)))
  permits_account_mode_auth-refused_iff relay s enforce = (
    λ h. permit_at-refused _ enforce (sym (permitted-permit_at relay s enforce) ∙ h),
    λ (on, (n, found, high)).
        permitted-permit_at relay s enforce ∙ rw (on, found) (permit_at_high n high),
  )

  -- Over a lawful backing, refusal is for ever: once a relay's floor is 5 or more, a later handshake under enforcement is
  -- refused whatever has been recorded in between.
  pub permits_account_mode_auth_for_ever :
      (lawful : IsLawful b) (relay : Value) (s : FloorStore b) (rs : List Report)
      → (permits_account_mode_auth b relay (some s) (boolean true)).permitted ≡ false
      → (permits_account_mode_auth b relay (some (observe_all b s rs)) (boolean true)).permitted
        ≡ false
  permits_account_mode_auth_for_ever lawful relay s rs h =
      let (on, (m, found, high)) =
        (permits_account_mode_auth-refused_iff relay s (boolean true)).0 h in
      elim (Bool-cases (is_empty (trimmed relay))) [
        | inl e ↦ absurd (floor_for-empty s relay e found)
        | inr e ↦
            let (n, top, above) = highest-ge (trimmed relay) (floor_for b s relay) rs found in
            (permits_account_mode_auth-refused_iff relay (observe_all b s rs) (boolean true)).1
              (refl, (n, floor_for-highest b lawful s relay rs e ∙ top, omega arith))
      ]

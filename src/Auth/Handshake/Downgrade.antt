-- ===== src/Auth/Handshake/Downgrade.antt =====
-- No way back from a claimant's session to one that discloses the account.
use rez_sdk.Common.{
  ℕ, suc, max, ◌≤◌, ◌≡◌, refl, sym, ap, subst, ◌∙◌, true, false, Option, none, some, String, List,
  [], ◌∷◌, arith, inl, inr, Bool-cases, some_eq, eq_refl,
}
use rez_sdk.Common.Text.{is_empty, trim}
use rez_sdk.Common.Value.{Number, Value, text, boolean, trimmed}
use rez_sdk.Relay.Floor.{
  Backing, IsLawful, FloorStore, recorded, Observation, record_observed, floor_for,
}
use rez_sdk.Relay.Floor.Highest.{
  Report, after, higher, highest, contribution, observe_all, floor_for-highest,
}
use rez_sdk.Relay.Policy.{permits_account_mode_auth}
use rez_sdk.Relay.Policy.Refusal.{
  permits_account_mode_auth-refused_iff, permits_account_mode_auth_for_ever,
}
use rez_sdk.Auth.Principal.{
  Identity, ClaimantIdentity, account, claimant, Crypto, Contract, version_of,
}
use rez_sdk.Auth.Handshake.{
  unauthenticated, downgrade_refused, SessionInfo, Node, ContractFloor, Machine, session,
  transition, fail_with, verdict, permitted, authenticate,
}
use rez_sdk.Auth.Handshake.Signing.{IsRaised}
use rez_sdk.Auth.Handshake.Signing.Run.{authenticate-IsHonest}

module _ (b : Backing) (lawful : IsLawful b) where
  record_observed-solid :
      (s t : FloorStore b) (relay version : Value) (o : Observation)
      → record_observed b s relay version ≡ recorded t o
      → is_empty (trimmed relay) ≡ false
  unfolding record_observed
  record_observed-solid s t relay version o e = elim (Bool-cases (is_empty (trimmed relay))) [
    | inr h ↦ h
    | inl h ↦ absurd (ground (arith, h, e))
  ]

  higher_least : (o : Option ℕ) (v : ℕ) → (n : ℕ) × (higher o (some v) ≡ some n) × (v ≤ n)
  higher_least none v = (v, refl, omega arith)
  higher_least (some a) v = (max a v, refl, ground arith)

  own_contribution :
      (relay : Value) (v : ℕ)
      → is_empty (trimmed relay) ≡ false
      → contribution (trimmed relay) (relay, Value.number (Number.integer (suc v))) ≡ some (suc v)
  unfolding contribution
  own_contribution relay v solid = rw (solid, eq_refl (trimmed relay)) refl

  -- What was recorded bounds the floor from below.
  recorded_floor :
      (s t : FloorStore b) (relay : Value) (v : ℕ) (o : Observation)
      → record_observed b s relay (Value.number (Number.integer (suc v))) ≡ recorded t o
      → (n : ℕ) × (floor_for b t relay ≡ some n) × (suc v ≤ n)
  unfolding observe_all highest
  recorded_floor s t relay v o e =
      let solid = record_observed-solid s t relay _ o e in
      let report : Report = (relay, Value.number (Number.integer (suc v))) in
      let (n, top, least) = higher_least (floor_for b s relay) (suc v) in
      let found = floor_for-highest b lawful s relay (report ∷ []) solid in
      (
        n,
        ap (λ x. floor_for b (after b s x) relay) (sym e)
            ∙ found
            ∙ ap (higher (floor_for b s relay)) (own_contribution relay v solid)
            ∙ top,
        least,
      )

  -- The policy refuses an account where a floor of 5 was recorded for the very relay that is expected.
  refused_after :
      (s t : FloorStore b) (relay : Value) (v : ℕ) (o : Observation) (rs : List Report)
      → record_observed b s relay (Value.number (Number.integer (suc v))) ≡ recorded t o
      → 5 ≤ suc v
      → (permits_account_mode_auth b relay (some (observe_all b t rs)) (boolean true)).permitted
        ≡ false
  refused_after s t relay v o rs e high =
      let (n, found, least) = recorded_floor s t relay v o e in
      permits_account_mode_auth_for_ever b lawful relay t rs (
        (permits_account_mode_auth-refused_iff b relay t (boolean true)).1
          (refl, (n, found, omega arith)))

  -- The handshake of an account is refused before its hello, if the policy says so.
  authenticate-refused :
      (crypto : Crypto) (contract : Contract) (node : Node) (a : Machine b) (i : Identity)
      (f : ContractFloor b)
      → a.principal ≡ account i
      → a.contract_floor ≡ some f
      → is_empty a.expected_node_public_key_b64 ≡ false
      → (permits_account_mode_auth b
          (text a.expected_node_public_key_b64)
          (some f.store)
          (boolean f.enforce)).permitted
        ≡ false
      → authenticate b crypto contract node a
        ≡ fail_with b
            (downgrade_refused
              (permits_account_mode_auth b
                (text a.expected_node_public_key_b64)
                (some f.store)
                (boolean f.enforce)).floor)
            (transition b unauthenticated (record a { session_info = none }))
  unfolding authenticate verdict permitted
  authenticate-refused crypto contract node a i f as_account kept pinned denied =
      rw (as_account, kept, pinned, denied) refl

  solid_text : (s : String) → is_empty (trimmed (text s)) ≡ false → is_empty s ≡ false
  unfolding trimmed trim
  solid_text String.[] h = cc
  solid_text (String.◌∷◌ c s) h = refl

  -- Over a lawful backing: once a claimant, with an empty log, has a session with a node and floors are kept, an account's handshake which
  -- expects that node, under enforcement and with the same floors, whatever else they have recorded
  -- since, is refused before its hello: nothing is sent or signed.
  pub authenticate-no_fallback :
      (crypto : Crypto) (contract : Contract) (node node' : Node) (m a : Machine b)
      (j : ClaimantIdentity) (i : Identity) (info : SessionInfo) (f g : ContractFloor b)
      (rs : List Report)
      → m.log ≡ []
      → m.principal ≡ claimant j
      → m.contract_floor ≡ some f
      → (authenticate b crypto contract node m).1 ≡ session info
      → (authenticate b crypto contract node m).0.contract_floor ≡ some g
      → a.principal ≡ account i
      → a.expected_node_public_key_b64 ≡ info.node_public_key_b64
      → a.contract_floor ≡ some (record { store = observe_all b g.store rs; enforce = true })
      → (o : Option ℕ) × (authenticate b crypto contract node' a
          ≡ fail_with b
              (downgrade_refused o)
              (transition b unauthenticated (record a { session_info = none })))
  authenticate-no_fallback crypto contract node node' m a j i info f g rs new as_claimant kept got
        after as_account expects shares =
      let h = (authenticate-IsHonest b crypto contract node m new).session_of info got in
      let (store, seen, recorded_, floor) =
        subst
          (λ x.
            IsRaised b crypto contract m.principal m.expected_node_public_key_b64 node.now x info
              (authenticate b crypto contract node m).0.contract_floor)
          kept h.raised in
      let five : info.contract_version ≡ 5 = h.version ∙ ap (version_of contract) as_claimant in
      let same : g.store ≡ store =
        ap (λ (x : ContractFloor b). x.store) (some_eq (sym after ∙ floor)) in
      let seen_five =
        ap
          (λ v.
            record_observed b f.store (text info.node_public_key_b64)
              (Value.number (Number.integer v)))
          (sym five)
        ∙ recorded_ in
      let solid =
        solid_text _
          (record_observed-solid f.store store (text info.node_public_key_b64) _ seen seen_five) in
      let denied =
        refused_after f.store store (text info.node_public_key_b64) 4 seen rs seen_five
          (omega arith) in
      (
        _,
        authenticate-refused crypto contract node' a i _ as_account shares
            (ap is_empty expects ∙ solid)
            (ap
                (λ x.
                  (permits_account_mode_auth b (text x) (some (observe_all b g.store rs))
                    (boolean true)).permitted)
                expects
              ∙ ap
                  (λ x.
                    (permits_account_mode_auth b (text info.node_public_key_b64)
                      (some (observe_all b x rs)) (boolean true)).permitted)
                  same
              ∙ denied),
      )

-- ===== src/Auth/Handshake/Signing.antt =====
-- What the handshake signs, and what a session rests on.
pub mod Run
use rez_sdk.Common.{
  ℕ, ◌≡◌, refl, sym, ap, subst, ◌∙◌, Bool, true, false, not, ◌&&◌, Option, none, some, String,
  str_eq, eq_iff, [], All, if◌then◌else◌, arith, inl, inr, Bool-cases,
}
use rez_sdk.Common.Text.{is_empty}
use rez_sdk.Common.Value.{Number, Value, text, is_above}
use rez_sdk.Relay.Floor.{
  Backing, FloorStore, Outcome, recorded, threw, Observation, record_observed,
}
use rez_sdk.Relay.Policy.{Permit}
use rez_sdk.Auth.Principal.{
  Principal, Terms, Challenge, challenge_payload, auth_payload, auth_body, hello_of, Crypto,
  verify_payload, Contract, version_of,
}
use rez_sdk.Auth.Handshake.{
  unauthenticated, hello_sent, challenge_received, authenticating, authenticated, Failure,
  SessionInfo, Effect, signed, sent_hello, Answer, frame, lost, Node, challenge_failure,
  ContractFloor, Machine, Result, session, emit, transition, fail_with, observed, kept_floor,
  announce, floor_recorded, record_contract_floor, complete, on_ready, sent_back, authenticate_with,
  answer_challenge, checked, on_challenge, handshake, verdict, permitted, authenticate,
}

-- A challenge that is answered: the relay's identity is that of the node's key, the challenge has not
-- expired, it is from the node that was expected, if one was, and the node's key has signed it for this
-- very principal.
pub record IsVerified (crypto : Crypto) (p : Principal) (expected : String) (now : ℕ)
    (c : Challenge) : Type 0 where
  pub bound :
      crypto.binds c.terms.relay_key_id c.terms.node_key_id c.terms.node_public_key_b64 ≡ true
  pub fresh : is_above c.expires_at_ms (Number.integer now) ≡ false
  pub pinned : is_empty expected ≡ false → expected ≡ c.terms.node_public_key_b64
  pub proved :
      verify_payload crypto c.terms.node_public_key_b64 c.signature_b64 (challenge_payload p c)
      ≡ true

-- The three checks behind the one for completeness.
rest_passed :
    (r f e s : Bool) (a b c d : Failure)
    → (if r
        then some a
        else if not f
        then some b
        else if e
        then some c
        else if s
        then some d
        else none)
      ≡ none
    → (f ≡ true) × (e ≡ false) × (s ≡ false)
rest_passed r f e s a b c d h = ground arith

pinned_same :
    (s t : String) → (not (is_empty s) && not (str_eq s t)) ≡ false → is_empty s ≡ false → s ≡ t
pinned_same s t h k = ground (arith, eq_iff s t)

pub challenge_failure-IsVerified :
    (crypto : Crypto) (p : Principal) (expected : String) (now : ℕ) (c : Challenge)
    → challenge_failure crypto now expected c ≡ none
    → verify_payload crypto c.terms.node_public_key_b64 c.signature_b64 (challenge_payload p c)
      ≡ true
    → IsVerified crypto p expected now c
unfolding challenge_failure
challenge_failure-IsVerified crypto p expected now c h v =
    let (bound, fresh, pin) = rest_passed _ _ _ _ _ _ _ _ h in
    record { bound = bound; fresh = fresh; pinned = λ k. pinned_same expected _ pin k; proved = v }

module _ (b : Backing) (crypto : Crypto) (contract : Contract) (p : Principal) (expected : String)
    (now : ℕ) where
  -- A signature answers a verified challenge.
  abbrev pub IsJustified : Effect → Type 0
  IsJustified (signed q) =
      (c : Challenge) × (q ≡ auth_payload p c.terms) × IsVerified crypto p expected now c
  IsJustified _ = Unit

  -- The floor of the relay is raised, if floors are kept.
  abbrev pub IsRaised : Option (ContractFloor b) → SessionInfo → Option (ContractFloor b) → Type 0
  IsRaised none info o = o ≡ none
  IsRaised (some f) info o =
      (store : FloorStore b) × (seen : Observation) × (record_observed b f.store
          (text info.node_public_key_b64) (Value.number (Number.integer info.contract_version))
        ≡ recorded store seen)
      × (o ≡ some (record f { store = store }))

  pub record IsSession (floor : Option (ContractFloor b)) (info : SessionInfo) (m : Machine b)
      : Type 0 where
    pub state : m.state ≡ authenticated
    pub stored : m.session_info ≡ some info
    pub challenge : Challenge
    pub verified : IsVerified crypto p expected now challenge
    pub node : info.node_public_key_b64 ≡ challenge.terms.node_public_key_b64
    pub version : info.contract_version ≡ version_of contract p
    pub raised : IsRaised floor info m.contract_floor

  -- All signatures are justified, and if a session comes back it is stored and rests on one challenge.
  pub record IsHonest (floor : Option (ContractFloor b)) (x : Machine b × Result b) : Type 0 where
    pub justified : All IsJustified x.0.log
    pub session_of : (info : SessionInfo) → x.1 ≡ session info → IsSession floor info x.0

  pub fail_with-IsHonest :
      (floor : Option (ContractFloor b)) (f : Failure) (m : Machine b)
      → All IsJustified m.log
      → IsHonest floor (fail_with b f m)
  unfolding fail_with transition
  fail_with-IsHonest floor f m h = record { justified = (tt, h); session_of = λ info e. cc }

  -- How a machine stands when the session is there but the floor is not yet recorded.
  record IsReady (info : SessionInfo) (m : Machine b) : Type 0 where
    state : m.state ≡ authenticated
    stored : m.session_info ≡ some info
    log : All IsJustified m.log
    challenge : Challenge
    verified : IsVerified crypto p expected now challenge
    node : info.node_public_key_b64 ≡ challenge.terms.node_public_key_b64
    version : info.contract_version ≡ version_of contract p

  session-injective : {i j : SessionInfo} → ◌≡◌ {A = Result b} (session i) (session j) → i ≡ j
  session-injective e = cc

  announce-IsHonest :
      (floor : Option (ContractFloor b)) (info : SessionInfo) (m : Machine b)
      → IsReady info m
      → IsRaised floor info m.contract_floor
      → IsHonest floor (announce b info m)
  unfolding announce emit
  announce-IsHonest floor info m r raised = record {
    justified = (tt, r.log);
    session_of = λ j e.
        subst (λ x. IsSession floor x (announce b info m).0) (session-injective e)
          (record {
            state = r.state;
            stored = r.stored;
            challenge = r.challenge;
            verified = r.verified;
            node = r.node;
            version = r.version;
            raised = raised;
          });
  }

  observed-log :
      (node : String) (o : Observation) (m : Machine b)
      → All IsJustified m.log
      → All IsJustified (observed b node o m).log
  unfolding observed emit
  observed-log node o m h = elim (Bool-cases o.downgrade) [ inl e ↦ rw e (tt, h) | inr e ↦ rw e h ]

  observed-keeps :
      (node : String) (o : Observation) (m : Machine b)
      → ((observed b node o m).state ≡ m.state)
        × ((observed b node o m).session_info ≡ m.session_info)
        × ((observed b node o m).contract_floor ≡ m.contract_floor)
  unfolding observed emit
  observed-keeps node o m = ground arith

  floor_recorded-IsHonest :
      (f : ContractFloor b) (info : SessionInfo) (x : Outcome b) (m : Machine b)
      → record_observed b f.store
          (text info.node_public_key_b64)
          (Value.number (Number.integer info.contract_version))
        ≡ x
      → IsReady info m
      → IsHonest (some f) (floor_recorded b f info x m)
  unfolding floor_recorded
  floor_recorded-IsHonest f info (recorded store o) m e r =
      let (state, stored, floor) =
        observed-keeps info.node_public_key_b64 o (kept_floor b f store m) in
      announce-IsHonest (some f) info _
        (record {
          state = state ∙ r.state;
          stored = stored ∙ r.stored;
          log = observed-log _ o (kept_floor b f store m) r.log;
          challenge = r.challenge;
          verified = r.verified;
          node = r.node;
          version = r.version;
        })
        (store, o, e, floor)
  floor_recorded-IsHonest f info (threw _) m e r = fail_with-IsHonest (some f) _ m r.log

  record_contract_floor-IsHonest :
      (floor : Option (ContractFloor b)) (info : SessionInfo) (m : Machine b)
      → m.contract_floor ≡ floor
      → IsReady info m
      → IsHonest floor (record_contract_floor b floor info m)
  unfolding record_contract_floor
  record_contract_floor-IsHonest none info m e r = announce-IsHonest none info m r e
  record_contract_floor-IsHonest (some f) info m e r = floor_recorded-IsHonest f info _ m refl r

  complete-IsHonest :
      (info : SessionInfo) (m : Machine b) (c : Challenge)
      → All IsJustified m.log
      → IsVerified crypto p expected now c
      → info.node_public_key_b64 ≡ c.terms.node_public_key_b64
      → info.contract_version ≡ version_of contract p
      → IsHonest m.contract_floor (complete b info m)
  unfolding complete transition
  complete-IsHonest info m c h v n k =
      record_contract_floor-IsHonest m.contract_floor info _ refl (record {
        state = refl;
        stored = refl;
        log = (tt, h);
        challenge = c;
        verified = v;
        node = n;
        version = k;
      })

  pub on_ready-IsHonest :
      (c : Challenge) (a : Answer) (m : Machine b)
      → m.principal ≡ p
      → All IsJustified m.log
      → IsVerified crypto p expected now c
      → IsHonest m.contract_floor (on_ready b contract c.terms a m)
  unfolding on_ready
  on_ready-IsHonest c (lost e) m same h v = fail_with-IsHonest _ _ m h
  on_ready-IsHonest c (frame f) m same h v =
      elim (Bool-cases (not (is_empty m.response_type) && not (str_eq f.t m.response_type))) [
        | inl e ↦ rw e (fail_with-IsHonest _ _ m h)
        | inr e ↦ rw e (complete-IsHonest _ m c h v refl (ap (version_of contract) same))
      ]

-- ===== src/Auth/Handshake.antt =====
-- The handshake of the auth machine (src/auth/AuthStateMachine.js).
pub mod Signing
pub mod Downgrade
use rez_sdk.Common.{
  ℕ, ◌+◌, ◌≡◌, Bool, true, false, not, ◌&&◌, ◌||◌, Option, none, some, String, str_eq, List, [],
  ◌∷◌, is_some, if◌then◌else◌,
}
use rez_sdk.Common.Text.{is_empty, trim}
use rez_sdk.Common.Value.{Number, Value, text, boolean, trimmed, is_finite, is_above}
use rez_sdk.Common.Dict.{Dict}
use rez_sdk.Relay.Floor.{
  Backing, FloorStore, Outcome, recorded, threw, Observation, record_observed,
}
use rez_sdk.Relay.Policy.{Permit, permits_account_mode_auth}
use rez_sdk.Auth.Principal.{
  Identity, ClaimantIdentity, Principal, account, claimant, DeviceKey, Terms, Challenge, Payload,
  challenge_payload, auth_payload, signing_key, Hello, hello_of, AuthBody, auth_body, Crypto,
  verify_payload, Contract, version_of,
}

pub data AuthState : Type 0 where
  unauthenticated hello_sent challenge_received authenticating authenticated failed : AuthState

-- What `authenticate` throws, always an `AuthFailure`; `wrapped` has the message of another error and
-- its code, "" if it had none. The last one is thrown before the hello.
pub data Failure : Type 0 where
  unexpected_response unexpected_ready : String → Failure
  challenge_incomplete relay_identity_invalid challenge_expired unexpected_node bad_signature :
      Failure
  sign_failed floor_refused : Failure
  wrapped : String → String → Failure
  downgrade_refused : Option ℕ → Failure

pub record SessionInfo : Type 0 where
  pub ready_body : Dict Value
  pub contract_version : ℕ
  pub node_key_id : String
  pub node_public_key_b64 : String
  pub relay_key_id : String

-- Frames sent, signatures made, events emitted.
pub data Effect : Type 0 where
  state_changed : AuthState → AuthState → Effect
  sent_hello : String → Hello → Effect
  signed : Payload → Effect
  sent_authenticate : String → AuthBody → Effect
  downgrade_condition : String → ℕ → ℕ → Effect
  announced : String → Effect

-- A frame of the node: its type, and its body read as a challenge and as such.
pub record Frame : Type 0 where
  pub t : String
  pub challenge : Challenge
  pub body : Dict Value

-- An error of the transport.
pub record Lost : Type 0 where
  pub code : Value
  pub message : String

pub data Answer : Type 0 where
  frame : Frame → Answer
  lost : Lost → Answer

-- The node, or who stands in for it: its answers may depend on all that it is sent. `now` is what
-- `Date.now()` gives when the challenge is checked.
pub record Node : Type 0 where
  pub on_hello : String → Hello → Answer
  pub on_authenticate : String → AuthBody → Answer
  pub now : ℕ

unfoldable pub wrap : Lost → Failure
unfolding trimmed
wrap e = wrapped (if is_empty e.message then "auth failed" else e.message) (trimmed e.code)

-- The first check that a challenge fails.
unfoldable pub challenge_failure : Crypto → ℕ → String → Challenge → Option Failure
challenge_failure crypto now expected c =
    if is_empty c.terms.challenge_id
      || is_empty c.terms.nonce_b64
      || is_empty c.terms.node_key_id
      || is_empty c.terms.node_public_key_b64
      || is_empty c.terms.relay_key_id
      || not (is_finite c.issued_at_ms)
      || not (is_finite c.expires_at_ms)
      || is_empty c.terms.ws_path
      || is_empty c.signature_b64
    then some challenge_incomplete
    else if not (crypto.binds c.terms.relay_key_id c.terms.node_key_id c.terms.node_public_key_b64)
    then some relay_identity_invalid
    else if is_above c.expires_at_ms (Number.integer now)
    then some challenge_expired
    else if not (is_empty expected) && not (str_eq expected c.terms.node_public_key_b64)
    then some unexpected_node
    else none

module _ (b : Backing) where
  -- `relayContractFloor`
  pub record ContractFloor : Type 0 where
    pub store : FloorStore b
    pub enforce : Bool

  pub record Machine : Type 0 where
    pub state : AuthState
    pub principal : Principal
    pub session_info : Option SessionInfo
    pub request_type : String
    pub response_type : String
    pub expected_node_public_key_b64 : String
    pub contract_floor : Option ContractFloor
    pub log : List Effect

  pub data Result : Type 0 where
    session : SessionInfo → Result
    refused : Failure → Result

  unfoldable pub emit : Effect → Machine → Machine
  emit e m = record m { log = e ∷ m.log }

  -- `#transition`: also where the state stays.
  unfoldable pub transition : AuthState → Machine → Machine
  transition s m = record m { state = s; log = state_changed m.state s ∷ m.log }

  -- The `catch`
  unfoldable pub fail_with : Failure → Machine → Machine × Result
  unfolding transition
  fail_with f m = (transition failed m, refused f)

  -- The event of `#recordContractFloor`
  unfoldable pub observed : String → Observation → Machine → Machine
  unfolding emit
  observed node o m =
      if o.downgrade then emit (downgrade_condition node o.floor o.observed_current) m else m

  abbrev pub kept_floor : ContractFloor → FloorStore b → Machine → Machine
  kept_floor f store m = record m { contract_floor = some (record f { store = store }) }

  -- Behind `#recordContractFloor`: the success is announced.
  unfoldable pub announce : SessionInfo → Machine → Machine × Result
  unfolding emit
  announce info m = (emit (announced info.node_public_key_b64) m, session info)

  unfoldable pub floor_recorded :
      ContractFloor → SessionInfo → Outcome b → Machine → Machine × Result
  unfolding fail_with observed announce
  floor_recorded f info (recorded store o) m =
      announce info (observed info.node_public_key_b64 o (kept_floor f store m))
  floor_recorded f info (threw _) m = fail_with floor_refused m

  -- `#recordContractFloor`, and what follows it.
  unfoldable pub record_contract_floor :
      Option ContractFloor → SessionInfo → Machine → Machine × Result
  unfolding floor_recorded announce
  record_contract_floor none info m = announce info m
  record_contract_floor (some f) info m =
      floor_recorded f info
        (record_observed b f.store (text info.node_public_key_b64)
          (Value.number (Number.integer info.contract_version)))
        m

  -- The session is stored, and the state is authenticated.
  unfoldable pub complete : SessionInfo → Machine → Machine × Result
  unfolding transition record_contract_floor
  complete info m =
      record_contract_floor m.contract_floor info
        (transition authenticated (record m { session_info = some info }))

  abbrev pub info_of : Contract → Principal → Terms → Dict Value → SessionInfo
  info_of contract p t body = record {
    ready_body = body;
    contract_version = version_of contract p;
    node_key_id = t.node_key_id;
    node_public_key_b64 = t.node_public_key_b64;
    relay_key_id = t.relay_key_id;
  }

  -- The answer to `session.authenticate`
  unfoldable pub on_ready : Contract → Terms → Answer → Machine → Machine × Result
  unfolding wrap fail_with complete
  on_ready contract t (lost e) m = fail_with (wrap e) m
  on_ready contract t (frame f) m =
      if not (is_empty m.response_type) && not (str_eq f.t m.response_type)
      then fail_with (unexpected_ready f.t) m
      else complete (info_of contract m.principal t f.body) m

  -- The challenge was signed, and the signature sent.
  unfoldable pub sent_back : Contract → Terms → String → Machine → Machine
  unfolding emit
  sent_back contract t signature m =
      emit (sent_authenticate contract.authenticate_type (auth_body m.principal t signature))
        (emit (signed (auth_payload m.principal t)) m)

  -- The signature goes to the node.
  unfoldable pub authenticate_with :
      Contract → Node → Terms → Option String → Machine → Machine × Result
  unfolding fail_with sent_back on_ready
  authenticate_with contract node t none m = fail_with sign_failed m
  authenticate_with contract node t (some signature) m =
      on_ready contract t
        (node.on_authenticate contract.authenticate_type (auth_body m.principal t signature))
        (sent_back contract t signature m)

  -- The node's own signature is checked, and the challenge is signed.
  unfoldable pub answer_challenge :
      Crypto → Contract → Node → Challenge → Machine → Machine × Result
  unfolding fail_with transition authenticate_with
  answer_challenge crypto contract node c m =
      if not (
        verify_payload crypto c.terms.node_public_key_b64 c.signature_b64
          (challenge_payload m.principal c))
      then fail_with bad_signature m
      else authenticate_with contract node c.terms
          (crypto.sign (signing_key m.principal) (auth_payload m.principal c.terms))
          (transition authenticating m)

  unfoldable pub checked :
      Crypto → Contract → Node → Challenge → Option Failure → Machine → Machine × Result
  unfolding fail_with answer_challenge
  checked crypto contract node c (some f) m = fail_with f m
  checked crypto contract node c none m = answer_challenge crypto contract node c m

  -- `#parseAndValidateChallenge`, and what follows it.
  unfoldable pub on_challenge : Crypto → Contract → Node → Answer → Machine → Machine × Result
  unfolding wrap fail_with transition checked
  on_challenge crypto contract node (lost e) m = fail_with (wrap e) m
  on_challenge crypto contract node (frame f) m =
      if not (str_eq f.t contract.challenge_type)
      then fail_with (unexpected_response f.t) m
      else checked crypto contract node f.challenge
          (challenge_failure crypto node.now m.expected_node_public_key_b64 f.challenge)
          (transition challenge_received m)

  -- The hello, and all that follows it.
  unfoldable pub handshake : Crypto → Contract → Node → Machine → Machine × Result
  unfolding emit transition on_challenge
  handshake crypto contract node m =
      on_challenge crypto contract node (node.on_hello m.request_type (hello_of m.principal))
        (emit (sent_hello m.request_type (hello_of m.principal)) (transition hello_sent m))

  -- The refusal before the hello: what the policy says, where it is asked at all.
  unfoldable pub verdict : Option ContractFloor → String → Principal → Option Permit
  verdict (some f) expected (account _) =
      if is_empty expected
      then none
      else some (permits_account_mode_auth b (text expected) (some f.store) (boolean f.enforce))
  verdict _ expected _ = none

  unfoldable pub permitted : Crypto → Contract → Node → Option Permit → Machine → Machine × Result
  unfolding fail_with handshake
  permitted crypto contract node none m = handshake crypto contract node m
  permitted crypto contract node (some v) m =
      if not v.permitted
      then fail_with (downgrade_refused v.floor) m
      else handshake crypto contract node m

  -- `authenticate`, in both modes, and `reauthenticate`.
  unfoldable pub authenticate : Crypto → Contract → Node → Machine → Machine × Result
  unfolding transition permitted verdict
  authenticate crypto contract node m =
      permitted crypto contract node
        (verdict m.contract_floor m.expected_node_public_key_b64 m.principal)
        (transition unauthenticated (record m { session_info = none }))

  -- `reset`
  unfoldable pub reset : Machine → Machine
  reset m = record m { state = unauthenticated; session_info = none }

-- ===== src/Auth/Setup.antt =====
-- The constructor of the auth machine (src/auth/AuthStateMachine.js).
use rez_sdk.Common.{
  ◌≡◌, refl, subst, Bool, true, false, not, ◌&&◌, ◌||◌, Option, none, some, String, List, [], ◌∷◌,
  is_some, if◌then◌else◌, arith, inl, inr, Bool-cases,
}
use rez_sdk.Common.Text.{is_empty, trim}
use rez_sdk.Common.Value.{Value, trimmed}
use rez_sdk.Relay.Floor.{Backing}
use rez_sdk.Auth.Principal.{
  Identity, ClaimantIdentity, Principal, account, claimant, DeviceKey, signing_key, device_private,
  Contract,
}
use rez_sdk.Auth.Handshake.{unauthenticated, ContractFloor, Machine}

-- The errors of the constructor.
pub data Misconfigured : Type 0 where
  both_identities incomplete_claimant missing_identity missing_key : Misconfigured

abbrev pub has_keys : Option DeviceKey → Bool
has_keys none = false
has_keys (some d) = not (is_empty d.public_key_b64) && not (is_empty d.private_key_b64)

abbrev pub is_present : List String → Bool
is_present [] = false
is_present (_ ∷ _) = true

-- `hasDelegation`
abbrev pub has_delegation : Identity → Bool
has_delegation i = has_keys i.device_key && is_present i.cert_chain

abbrev pub or_default : String → String → String
or_default s d = if is_empty s then d else s

module _ (b : Backing) where
  -- The options; a text that is absent is "".
  pub record Options : Type 0 where
    pub identity : Option Identity
    pub claimant_identity : Option ClaimantIdentity
    pub request_type : String
    pub response_type : String
    pub expected_node_public_key_b64 : Value
    pub relay_contract_floor : Option (ContractFloor b)

  pub data Setup : Type 0 where
    made : Machine b → Setup
    threw : Misconfigured → Setup

  unfoldable pub machine_of : Contract → Options → Principal → Machine b
  unfolding trimmed
  machine_of contract o p = record {
    state = unauthenticated;
    principal = p;
    session_info = none;
    request_type = or_default o.request_type contract.hello_type;
    response_type = or_default o.response_type contract.ready_type;
    expected_node_public_key_b64 = trimmed o.expected_node_public_key_b64;
    contract_floor = o.relay_contract_floor;
    log = [];
  }

  -- The claimant branch
  unfoldable pub new_claimant : Contract → Options → ClaimantIdentity → Setup
  unfolding machine_of trim
  new_claimant contract o c =
      if is_empty c.claimant_public_key_b64 || is_empty c.private_key_b64
      then threw incomplete_claimant
      else made (
          machine_of contract o
            (claimant (record c { claimant_public_key_b64 = trim c.claimant_public_key_b64 })))

  -- The account branch
  unfoldable pub new_account : Contract → Options → Option Identity → Setup
  unfolding machine_of
  new_account contract o none = threw missing_identity
  new_account contract o (some i) =
      if is_empty i.public_key_b64
      then threw missing_identity
      else if is_empty i.private_key_b64 && not (has_delegation i)
      then threw missing_key
      else made (machine_of contract o (account i))

  unfoldable pub new_for : Contract → Options → Option ClaimantIdentity → Setup
  unfolding new_claimant new_account
  new_for contract o (some c) =
      if is_some o.identity then threw both_identities else new_claimant contract o c
  new_for contract o none = new_account contract o o.identity

  unfoldable pub new : Contract → Options → Setup
  unfolding new_for
  new contract o = new_for contract o o.claimant_identity

  -- The principal is the one identity that was supplied.
  abbrev pub IsChosen : Options → Principal → Type 0
  IsChosen o (account i) = (o.identity ≡ some i) × (o.claimant_identity ≡ none)
  IsChosen o (claimant j) =
      (o.identity ≡ none)
      × ((c : ClaimantIdentity) × (o.claimant_identity ≡ some c)
          × (j ≡ record c { claimant_public_key_b64 = trim c.claimant_public_key_b64 }))

  pub record IsConfigured (contract : Contract) (o : Options) (m : Machine b) : Type 0 where
    pub made_of : m ≡ machine_of contract o m.principal
    pub chosen : IsChosen o m.principal
    pub can_sign : is_empty (signing_key m.principal) ≡ false

  made-injective : {m n : Machine b} → made m ≡ made n → m ≡ n
  made-injective e = cc

  none-some : {A : Type 0} (o : Option A) → is_some o ≡ false → o ≡ none
  none-some none h = refl
  none-some (some a) h = cc

  delegated_solid :
      (d : Option DeviceKey) (present : Bool)
      → (has_keys d && present) ≡ true
      → is_empty (device_private d) ≡ false
  delegated_solid none present h = cc
  delegated_solid (some d) present h = ground arith

  account_can_sign :
      (i : Identity)
      → (is_empty i.private_key_b64 && not (has_delegation i)) ≡ false
      → is_empty (signing_key (account i)) ≡ false
  unfolding signing_key
  account_can_sign i h = elim (Bool-cases (is_empty i.private_key_b64)) [
    | inl e ↦ rw e (delegated_solid i.device_key (is_present i.cert_chain) (ground (arith, e, h)))
    | inr e ↦ rw e e
  ]

  configured :
      (contract : Contract) (o : Options) (p : Principal) (m : Machine b)
      → IsChosen o p
      → is_empty (signing_key p) ≡ false
      → made (machine_of contract o p) ≡ made m
      → IsConfigured contract o m
  unfolding machine_of
  configured contract o p m chosen sign e =
      subst (IsConfigured contract o) (made-injective e)
        (record { made_of = refl; chosen = chosen; can_sign = sign })

  new_account-IsConfigured :
      (contract : Contract) (o : Options) (x : Option Identity) (m : Machine b)
      → o.claimant_identity ≡ none
      → o.identity ≡ x
      → new_account contract o x ≡ made m
      → IsConfigured contract o m
  unfolding new_account
  new_account-IsConfigured contract o none m c x e = cc
  new_account-IsConfigured contract o (some i) m c x e =
      elim (Bool-cases (is_empty i.public_key_b64)) [
        | inl h ↦ absurd (ground (arith, h, e))
        | inr h ↦ elim (Bool-cases (is_empty i.private_key_b64 && not (has_delegation i))) [
          | inl k ↦ absurd (ground (arith, h, k, e))
          | inr k ↦
              configured contract o (account i) m (x, c) (account_can_sign i k) (rw (h, k) at e)
        ]
      ]

  new_claimant-IsConfigured :
      (contract : Contract) (o : Options) (c : ClaimantIdentity) (m : Machine b)
      → o.identity ≡ none
      → o.claimant_identity ≡ some c
      → new_claimant contract o c ≡ made m
      → IsConfigured contract o m
  unfolding new_claimant signing_key
  new_claimant-IsConfigured contract o c m x y e =
      elim (Bool-cases (is_empty c.claimant_public_key_b64 || is_empty c.private_key_b64)) [
        | inl h ↦ absurd (ground (arith, h, e))
        | inr h ↦ configured contract o _ m (x, (c, y, refl)) (ground (arith, h)) (rw h at e)
      ]

  new_for-IsConfigured :
      (contract : Contract) (o : Options) (x : Option ClaimantIdentity) (m : Machine b)
      → o.claimant_identity ≡ x
      → new_for contract o x ≡ made m
      → IsConfigured contract o m
  unfolding new_for
  new_for-IsConfigured contract o none m x e =
      new_account-IsConfigured contract o o.identity m x refl e
  new_for-IsConfigured contract o (some c) m x e = elim (Bool-cases (is_some o.identity)) [
    | inl h ↦ absurd (ground (arith, h, e))
    | inr h ↦ new_claimant-IsConfigured contract o c m (none-some o.identity h) x (rw h at e)
  ]

  -- A machine that the constructor makes starts unauthenticated, with an empty log and the options' floor. Its
  -- principal is the one identity that was supplied (the claimant's public key trimmed), never a choice
  -- between two, and it has a key to sign with.
  pub new-IsConfigured :
      (contract : Contract) (o : Options) (m : Machine b)
      → new contract o ≡ made m
      → IsConfigured contract o m
  unfolding new
  new-IsConfigured contract o m e = new_for-IsConfigured contract o o.claimant_identity m refl e

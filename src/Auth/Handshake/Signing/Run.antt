-- ===== src/Auth/Handshake/Signing/Run.antt =====
-- The handshake as a whole keeps to what `Signing` says of it.
use rez_sdk.Common.{
  ℕ, ◌≡◌, refl, sym, ap, subst, ◌∙◌, not, Option, none, some, String, str_eq, [], All, inl, inr,
  Bool-cases,
}
use rez_sdk.Relay.Floor.{Backing}
use rez_sdk.Relay.Policy.{Permit}
use rez_sdk.Auth.Principal.{
  Principal, Terms, Challenge, challenge_payload, auth_payload, auth_body, hello_of, Crypto,
  verify_payload, Contract,
}
use rez_sdk.Auth.Handshake.{
  unauthenticated, hello_sent, challenge_received, authenticating, Failure, sent_hello, Answer,
  frame, lost, Node, challenge_failure, Machine, emit, transition, on_ready, sent_back,
  authenticate_with, answer_challenge, checked, on_challenge, handshake, verdict, permitted,
  authenticate,
}
use rez_sdk.Auth.Handshake.Signing.{
  IsVerified, challenge_failure-IsVerified, IsJustified, IsHonest, fail_with-IsHonest,
  on_ready-IsHonest,
}

module _ (b : Backing) (crypto : Crypto) (contract : Contract) (p : Principal) (expected : String)
    (now : ℕ) where
  sent_back-log :
      (c : Challenge) (signature : String) (m : Machine b)
      → m.principal ≡ p
      → All (IsJustified b crypto contract p expected now) m.log
      → IsVerified crypto p expected now c
      → All
          (IsJustified b crypto contract p expected now)
          (sent_back b contract c.terms signature m).log
  unfolding sent_back emit
  sent_back-log c signature m same h v = (tt, ((c, ap (λ q. auth_payload q c.terms) same, v), h))

  sent_back-keeps :
      (t : Terms) (signature : String) (m : Machine b)
      → ((sent_back b contract t signature m).principal ≡ m.principal)
        × ((sent_back b contract t signature m).contract_floor ≡ m.contract_floor)
  unfolding sent_back emit
  sent_back-keeps t signature m = (refl, refl)

  authenticate_with-IsHonest :
      (node : Node) (c : Challenge) (s : Option String) (m : Machine b)
      → m.principal ≡ p
      → All (IsJustified b crypto contract p expected now) m.log
      → IsVerified crypto p expected now c
      → IsHonest b crypto contract p expected now m.contract_floor
          (authenticate_with b contract node c.terms s m)
  unfolding authenticate_with
  authenticate_with-IsHonest node c none m same h v =
      fail_with-IsHonest b crypto contract p expected now _ _ m h
  authenticate_with-IsHonest node c (some s) m same h v =
      let (principal, floor) = sent_back-keeps c.terms s m in
      subst
        (λ x. IsHonest b crypto contract p expected now x (
          on_ready b contract c.terms
            (node.on_authenticate contract.authenticate_type (auth_body m.principal c.terms s))
            (sent_back b contract c.terms s m)))
        floor
        (on_ready-IsHonest b crypto contract p expected now c
          (node.on_authenticate contract.authenticate_type (auth_body m.principal c.terms s))
          (sent_back b contract c.terms s m) (principal ∙ same) (sent_back-log c s m same h v) v)

  answer_challenge-IsHonest :
      (node : Node) (c : Challenge) (m : Machine b)
      → m.principal ≡ p
      → All (IsJustified b crypto contract p expected now) m.log
      → challenge_failure crypto now expected c ≡ none
      → IsHonest b crypto contract p expected now m.contract_floor
          (answer_challenge b crypto contract node c m)
  unfolding answer_challenge transition
  answer_challenge-IsHonest node c m same h passed =
      elim (Bool-cases (
        verify_payload crypto c.terms.node_public_key_b64 c.signature_b64
          (challenge_payload m.principal c))) [
            | inr e ↦ rw e (fail_with-IsHonest b crypto contract p expected now _ _ m h)
            | inl e ↦ rw e (
                authenticate_with-IsHonest node c _ (transition b authenticating m) same (tt, h)
                  (challenge_failure-IsVerified crypto p expected now c passed (
                    ap
                      (λ q.
                        verify_payload crypto c.terms.node_public_key_b64 c.signature_b64
                          (challenge_payload q c))
                      (sym same)
                    ∙ e)))
          ]

  checked-IsHonest :
      (node : Node) (c : Challenge) (o : Option Failure) (m : Machine b)
      → m.principal ≡ p
      → All (IsJustified b crypto contract p expected now) m.log
      → challenge_failure crypto now expected c ≡ o
      → IsHonest b crypto contract p expected now m.contract_floor
          (checked b crypto contract node c o m)
  unfolding checked
  checked-IsHonest node c (some f) m same h e =
      fail_with-IsHonest b crypto contract p expected now _ f m h
  checked-IsHonest node c none m same h e = answer_challenge-IsHonest node c m same h e

  on_challenge-IsHonest :
      (node : Node) (a : Answer) (m : Machine b)
      → node.now ≡ now
      → m.expected_node_public_key_b64 ≡ expected
      → m.principal ≡ p
      → All (IsJustified b crypto contract p expected now) m.log
      → IsHonest b crypto contract p expected now m.contract_floor
          (on_challenge b crypto contract node a m)
  unfolding on_challenge transition
  on_challenge-IsHonest node (lost e) m at to same h =
      fail_with-IsHonest b crypto contract p expected now _ _ m h
  on_challenge-IsHonest node (frame f) m at to same h =
      elim (Bool-cases (not (str_eq f.t contract.challenge_type))) [
        | inl e ↦ rw e (fail_with-IsHonest b crypto contract p expected now _ _ m h)
        | inr e ↦ rw e (
            checked-IsHonest node f.challenge _ (transition b challenge_received m) same (tt, h)
              (rw (sym at, sym to) refl))
      ]

  handshake-IsHonest :
      (node : Node) (m : Machine b)
      → node.now ≡ now
      → m.expected_node_public_key_b64 ≡ expected
      → m.principal ≡ p
      → All (IsJustified b crypto contract p expected now) m.log
      → IsHonest b crypto contract p expected now m.contract_floor
          (handshake b crypto contract node m)
  unfolding handshake emit transition
  handshake-IsHonest node m at to same h =
      on_challenge-IsHonest node (node.on_hello m.request_type (hello_of m.principal))
        (emit b (sent_hello m.request_type (hello_of m.principal)) (transition b hello_sent m)) at
        to same (tt, (tt, h))

  permitted-IsHonest :
      (node : Node) (o : Option Permit) (m : Machine b)
      → node.now ≡ now
      → m.expected_node_public_key_b64 ≡ expected
      → m.principal ≡ p
      → All (IsJustified b crypto contract p expected now) m.log
      → IsHonest b crypto contract p expected now m.contract_floor
          (permitted b crypto contract node o m)
  unfolding permitted
  permitted-IsHonest node none m at to same h = handshake-IsHonest node m at to same h
  permitted-IsHonest node (some v) m at to same h = elim (Bool-cases v.permitted) [
    | inl e ↦ rw e (handshake-IsHonest node m at to same h)
    | inr e ↦ rw e (fail_with-IsHonest b crypto contract p expected now _ _ m h)
  ]

module _ (b : Backing) where
  -- Whatever the node answers, a machine with an empty log signs only the answer to a challenge whose relay
  -- identity is bound to the node's key, that has not expired, that is from the expected node if there is one,
  -- and that the node's key has signed for this principal. If a session comes back, the machine
  -- is authenticated, holds that session, the session's node is the one of such a challenge, and its
  -- contract version is recorded for that node if floors are kept.
  pub authenticate-IsHonest :
      (crypto : Crypto) (contract : Contract) (node : Node) (m : Machine b)
      → m.log ≡ []
      → IsHonest b crypto contract m.principal m.expected_node_public_key_b64 node.now
          m.contract_floor
          (authenticate b crypto contract node m)
  unfolding authenticate transition
  authenticate-IsHonest crypto contract node m e =
      permitted-IsHonest b crypto contract m.principal m.expected_node_public_key_b64 node.now node
        (verdict b m.contract_floor m.expected_node_public_key_b64 m.principal)
        (transition b unauthenticated (record m { session_info = none })) refl refl refl
        (tt, rw e tt)

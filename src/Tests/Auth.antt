-- ===== src/Tests/Auth.antt =====
-- Handshakes with a node, and the constructor.
use rez_sdk.Common.{ℕ, ◌≡◌, refl, true, false, Option, none, some, str_eq, [], ◌∷◌}
use rez_sdk.Common.Text.{trim}
use rez_sdk.Common.Value.{Number, text, undefined, number, trimmed}
use rez_sdk.Common.Dict.{lookup, insert}
use rez_sdk.Relay.Floor.{memory, read, write, record_version, record_observed, floor_for}
use rez_sdk.Relay.Floor.Highest.{observe_all}
use rez_sdk.Relay.Policy.{permits_account_mode_auth}
use rez_sdk.Auth.Principal.{
  Identity, account, claimant, Challenge, Crypto, Contract, challenge_payload, auth_payload,
  signing_key, verify_payload, hello_of,
}
use rez_sdk.Auth.Handshake.{
  unauthenticated, authenticated, unexpected_node, downgrade_refused, SessionInfo, Node, frame,
  ContractFloor, Machine, refused, wrap, challenge_failure, emit, transition, fail_with, observed,
  announce, floor_recorded, record_contract_floor, complete, on_ready, sent_back, authenticate_with,
  answer_challenge, checked, on_challenge, handshake, verdict, permitted, authenticate,
}
use rez_sdk.Auth.Handshake.Signing.{IsHonest}
use rez_sdk.Auth.Handshake.Signing.Run.{authenticate-IsHonest}
use rez_sdk.Auth.Handshake.Downgrade.{authenticate-no_fallback}
use rez_sdk.Auth.Setup.{
  Options, both_identities, made, threw, machine_of, new_claimant, new_account, new_for, new,
}
use rez_sdk.Tests.Relay.{map_backing, map_backing-IsLawful}

program : Unit {0}
unfolding trim trimmed lookup insert read write record_version record_observed floor_for observe_all
    permits_account_mode_auth challenge_payload auth_payload signing_key verify_payload hello_of
    wrap challenge_failure emit transition fail_with observed announce floor_recorded
    record_contract_floor complete on_ready sent_back authenticate_with answer_challenge checked
    on_challenge handshake verdict permitted authenticate machine_of new_claimant new_account
    new_for new
program = tt

-- The signature of a key is its own name.
abbrev crypto : Crypto
crypto = record {
  binds = λ relay key public. true;
  verify = λ public signature payload. str_eq signature public;
  sign = λ private payload. some private;
}

abbrev contract : Contract
contract = record {
  hello_type = "session.hello";
  challenge_type = "session.challenge";
  authenticate_type = "session.authenticate";
  ready_type = "session.ready";
  version = 4;
}

abbrev challenge : Challenge
challenge = record {
  terms = record {
    challenge_id = "c-1";
    nonce_b64 = "n";
    node_key_id = "k";
    node_public_key_b64 = "node-a";
    relay_key_id = "r";
    ws_path = "/ws";
  };
  issued_at_ms = Number.integer 100;
  expires_at_ms = Number.integer 900;
  signature_b64 = "node-a";
}

abbrev node : Node
node = record {
  on_hello =
      λ type hello. frame (record { t = "session.challenge"; challenge = challenge; body = [] });
  on_authenticate =
      λ type body. frame (record { t = "session.ready"; challenge = challenge; body = [] });
  now = 500;
}

abbrev floor : ContractFloor map_backing
floor = record { store = memory []; enforce = false }

abbrev claimant_options : Options map_backing
claimant_options = record {
  identity = none;
  claimant_identity =
      some (record { claimant_public_key_b64 = " me "; private_key_b64 = "secret" });
  request_type = "";
  response_type = "";
  expected_node_public_key_b64 = undefined;
  relay_contract_floor = some floor;
}

abbrev me : Machine map_backing
me =
    machine_of map_backing contract claimant_options
      (claimant (record { claimant_public_key_b64 = "me"; private_key_b64 = "secret" }))

made_claimant : new map_backing contract claimant_options ≡ made me
unfolding program
made_claimant = refl

abbrev root : Identity
root = record {
  public_key_b64 = "root";
  private_key_b64 = "root-key";
  device_id = "d";
  device_key = none;
  cert_chain = [];
}

never_both :
    new map_backing contract (record claimant_options { identity = some root })
    ≡ threw both_identities
unfolding program
never_both = refl

succeeds : (authenticate map_backing crypto contract node me).0.state ≡ authenticated
unfolding program
succeeds = refl

-- Another node than the one that is expected is not answered.
other_node :
    (authenticate map_backing crypto contract node
      (record me { expected_node_public_key_b64 = "node-b" })).1
    ≡ refused unexpected_node
unfolding program
other_node = refl

authenticate-IsHonest_example :
    IsHonest map_backing crypto contract me.principal me.expected_node_public_key_b64 node.now
      me.contract_floor
      (authenticate map_backing crypto contract node me)
unfolding machine_of
authenticate-IsHonest_example = authenticate-IsHonest map_backing crypto contract node me refl

abbrev my_session : SessionInfo
my_session = record {
  ready_body = [];
  contract_version = 5;
  node_key_id = "k";
  node_public_key_b64 = "node-a";
  relay_key_id = "r";
}

abbrev floor_after : ContractFloor map_backing
floor_after = record { store = memory (("node-a", 5) ∷ []); enforce = false }

abbrev by_account : Machine map_backing
by_account = record {
  state = unauthenticated;
  principal = account root;
  session_info = none;
  request_type = "session.hello";
  response_type = "session.ready";
  expected_node_public_key_b64 = "node-a";
  contract_floor = some (record {
    store =
        observe_all map_backing (memory (("node-a", 5) ∷ []))
          ((text "node-a", number (Number.integer 4)) ∷ []);
    enforce = true;
  });
  log = [];
}

authenticate-no_fallback_example :
    (o : Option ℕ) × (authenticate map_backing crypto contract node by_account
      ≡ fail_with map_backing
          (downgrade_refused o)
          (transition map_backing unauthenticated (record by_account { session_info = none })))
unfolding program
authenticate-no_fallback_example =
    authenticate-no_fallback map_backing map_backing-IsLawful crypto contract node node me
      by_account (record { claimant_public_key_b64 = "me"; private_key_b64 = "secret" }) root
      my_session floor floor_after ((text "node-a", number (Number.integer 4)) ∷ []) refl refl refl
      refl refl refl refl refl

-- ===== src/Tests/Devices.antt =====
-- Sessions with the devices of a peer.
use rez_sdk.Common.{
  ◌≡◌, refl, ap, ◌∙◌, some_eq, eq_iff, true, false, none, some, [], ◌∷◌, String, str_eq,
  if◌then◌else◌,
}
use Prim.Native.String.{◌++◌ as append}
use rez_sdk.Common.Text.{trim}
use rez_sdk.PeerLink.Storage.Distinct.{has_colon}
use rez_sdk.Common.Dict.{Dict, lookup, insert, erase}
use rez_sdk.PeerLink.Storage.Base.{
  Record, blank, Stored, object, text, read, Host, place, sort_by, scan,
}
use rez_sdk.PeerLink.Storage.Sessions.{get_by_peer_link_and_device, list_by_peer_link, put}
use rez_sdk.PeerLink.Storage.Sessions.Device.{state_after}
use rez_sdk.PeerLink.Devices.{
  Crypto, KeyPair, DeviceError, Attempt, done, fail, Device, advance, established, require_device,
  require_key_pair, is_from, persist_device_session, establish_responder, check_claim,
  encrypt_for_device, try_decrypt, attempt_device_decrypt, trial_loop, trial_decrypt_across_devices,
}
use rez_sdk.PeerLink.Devices.Advance.{encrypt_for_device-IsAdvanced, IsAdvanced, IsOther}
use rez_sdk.PeerLink.Devices.Trial.{IsTrial, trial_decrypt-IsTrial}
use rez_sdk.PeerLink.Devices.Responder.{IsEstablished, establish_responder-IsEstablished}
use rez_sdk.Tests.Storage.{host, host-IsLawful}

-- A core that writes the snapshot before a text, and steps the snapshot by a letter.
abbrev core : Crypto
core = record {
  sign = λ (key msg : String). append key msg;
  prepare_invite_binding =
      λ (account : String) (k dh : KeyPair). some (k.public_key, dh.private_key);
  process_accepted_invite =
      λ (b peer : String) (k dh : KeyPair) (signature : String). some (b, signature);
  complete_invite_handshake =
      λ (state dh handshake peer : String). some (some handshake, append state "0");
  device_id_for = λ (key : String). append "id-" key;
  encrypt_for_peer =
      λ (snapshot peer plaintext : String). some (append snapshot plaintext, append snapshot "+");
  decrypt_incoming = λ (snapshot packet : String). some (record {
    encrypted = true;
    peer_id = (if str_eq packet (append snapshot "hi") then "bob" else "");
    handshake = false;
    plaintext = "hi";
    snapshot = append snapshot "+";
  });
}

abbrev locale : Host
locale = record { to_lower = λ (t : String). t; locale_le = λ (a b : String). true }

abbrev session : String → String → String → Record
session id device snapshot = record blank {
  session_id = id;
  peer_link_id = "pl1";
  local_account_id = "alice";
  peer_account_id = "bob";
  peer_device_id = device;
  version = 1;
  ratchet_snapshot = snapshot;
}

abbrev two_devices : Dict Stored
two_devices =
    ("peer-link:sessions:alice::s1", object (session "s1" "d1" "a"))
    ∷ ("peer-link:sessions:by-peer-link-device:alice::pl1::d1", text "s1")
    ∷ ("peer-link:sessions:alice::s2", object (session "s2" "d2" "b"))
    ∷ ("peer-link:sessions:by-peer-link-device:alice::pl1::d2", text "s2")
    ∷ []

abbrev device : String → Device
device id = record {
  owner_account_id = "alice";
  peer_account_id = "bob";
  peer_link_id = "pl1";
  peer_device_id = id;
}

program : Unit {0}
unfolding trim has_colon lookup insert erase read get_by_peer_link_and_device list_by_peer_link put
    place sort_by scan established require_device require_key_pair is_from persist_device_session
    establish_responder check_claim encrypt_for_device try_decrypt attempt_device_decrypt trial_loop
    trial_decrypt_across_devices
program = tt

abbrev stepped : Record
stepped = advance (session "s2" "d2" "b") "b+" 9

d1-ne-d2 : ¬ (◌≡◌ {A = String} "d1" "d2")
d1-ne-d2 e = let same : false ≡ true = (eq_iff "d1" "d2").1 e in cc

s1-ne-s2 : ¬ (◌≡◌ {A = String} "s1" "s2")
s1-ne-s2 e = let same : false ≡ true = (eq_iff "s1" "s2").1 e in cc

encrypt_for_device-IsAdvanced_example :
    (s : Dict Stored) × (encrypt_for_device host core (device "d2") "hi" 9 two_devices
      ≡ done (s, "bhi", "s2"))
    × IsAdvanced host (session "s2" "d2" "b") "b+" "alice" "pl1" "d1" two_devices s
unfolding program
encrypt_for_device-IsAdvanced_example =
    encrypt_for_device-IsAdvanced host host-IsLawful core (device "d2") "hi" 9 two_devices
      (some (object (session "s2" "d2" "b"))) (session "s2" "d2" "b") "bhi" "b+" "alice" "pl1" "d1"
      (record { owner = refl; peer = refl; link = refl; device = refl }) refl refl refl refl
      (record {
        ids = record { session = refl; owner = refl; link = refl; device = refl };
        owner = refl;
        link = refl;
      })
      other_device
  where
    other_device : IsOther host two_devices (session "s2" "d2" "b") "alice" "pl1" "d1"
    other_device = record {
      full_owner = refl;
      full_link = refl;
      full_device = refl;
      plain_owner = refl;
      plain_link = refl;
      differs = λ e. d1-ne-d2 e.2;
      elsewhere = λ id found e.
          let same : ◌≡◌ {A = String} "s1" id = some_eq found in s1-ne-s2 (ap trim same ∙ e.1);
    }

-- The second device has sent the packet: its session steps, the first one's stays.
trial_decrypt-IsTrial_example :
    IsTrial host core
      (device "")
      "bhi"
      9
      two_devices
      (state_after host stepped two_devices, some ("d2", "hi", "s2"))
unfolding program
trial_decrypt-IsTrial_example =
    trial_decrypt-IsTrial host core locale (device "") "bhi" 9 two_devices _ refl

claim : Attempt (Dict Stored × String)
unfolding program
claim =
    establish_responder host core (device "d2")
      (some (record { public_key = "p"; private_key = "q" })) (some "x") (some "d2") 9 "u"
      two_devices

-- The key of another device is refused.
refused : claim ≡ fail DeviceError.device_id_mismatch
unfolding program claim
refused = refl

establish_responder-IsEstablished_example :
    let d = device "id-k" in
    (key : String) × (snapshot : String) × (core.complete_invite_handshake "x" "q" "k" "bob"
      ≡ some (some key, snapshot))
    × (core.device_id_for key ≡ "id-k")
    × IsEstablished host core d snapshot "u" two_devices
        (state_after host (established d "x0" 9 "u" none) two_devices)
        "pls_u"
unfolding program
establish_responder-IsEstablished_example =
    establish_responder-IsEstablished host host-IsLawful core (device "id-k") refl refl
      (record { public_key = "p"; private_key = "q" }) "x" "k" 9 "u" two_devices _ "pls_u" refl

-- ===== src/E2ee/Sessions.antt =====
-- The sessions of the secure channel (src/e2ee/SecureChannelManager.js): how they are made, kept and
-- restored.
use rez_sdk.Common.{Bool, not, ◌&&◌, Option, none, some, is_some, String, if◌then◌else◌}
use rez_sdk.Common.Text.{is_empty}
use rez_sdk.E2ee.Base.{
  KeyPair, HandshakeData, requires, core_error, bad_base64, failed, done, Core, Outcome, or_throw,
  require,
}

module _ (core : Core) where
  open core use {State, Envelope, Bundle, Sessions, Snapshot}

  -- The key pair is the one that the crypto provider has generated.
  unfoldable pub generate_pre_key_bundle :
      String → Option KeyPair → KeyPair → Sessions → Outcome core (Bundle × KeyPair)
  generate_pre_key_bundle account_id none signed_pre_key_pair s =
      if is_empty account_id
      then (s, failed (requires "accountId"))
      else (s, failed (requires "identityKeyPair"))
  generate_pre_key_bundle account_id (some identity) signed_pre_key_pair s =
      require core (not (is_empty account_id)) "accountId" s (
        require core (not (is_empty identity.public_key) && not (is_empty identity.private_key))
          "identityKeyPair" s
          (or_throw core core_error s
            (core.create_receiver_bundle account_id identity signed_pre_key_pair)
            (λ bundle. (s, done (bundle, signed_pre_key_pair)))))

  unfoldable pub establish_initiator_session :
      String → Option Bundle → KeyPair → Sessions → Outcome core (String × HandshakeData)
  establish_initiator_session peer_id none self_dh s =
      if is_empty peer_id
      then (s, failed (requires "peerId"))
      else (s, failed (requires "receiverBundle"))
  establish_initiator_session peer_id (some bundle) self_dh s =
      require core (not (is_empty peer_id)) "peerId" s (
        or_throw core core_error s (core.initiator_compute bundle)
          (λ (receiver, ephemeral, one_time, secret).
            or_throw core core_error s
              (core.create_initiator_session peer_id secret self_dh
                (core.signed_pre_key_public bundle) s)
              (λ (s', sid). (
                s',
                done (
                  sid,
                  record {
                    ephemeral_public_key_b64 = core.bytes_to_base64 ephemeral;
                    used_one_time_pre_key = one_time;
                    receiver_id = receiver;
                    initiator_dh_public_key_b64 = core.bytes_to_base64 self_dh.public_key;
                  },
                ),
              ))))

  -- The session is there when `rotateDh` throws.
  unfoldable pub establish_responder_session :
      String
      → Option String
      → Option Bundle
      → Option HandshakeData
      → KeyPair
      → Sessions
      → Outcome core String
  establish_responder_session peer_id none bundle handshake self_dh s =
      require core (not (is_empty peer_id)) "peerId" s (s, failed (requires "signedPreKeyPrivate"))
  establish_responder_session peer_id (some pre_key) none handshake self_dh s =
      require core (not (is_empty peer_id)) "peerId" s (s, failed (requires "receiverBundle"))
  establish_responder_session peer_id (some pre_key) (some bundle) none self_dh s =
      require core (not (is_empty peer_id)) "peerId" s (s, failed (requires "handshakeData"))
  establish_responder_session peer_id (some pre_key) (some bundle) (some handshake) self_dh s =
      require core (not (is_empty peer_id)) "peerId" s (
        or_throw core bad_base64 s (core.base64_to_bytes handshake.ephemeral_public_key_b64)
          (λ ephemeral.
            or_throw core core_error s
              (core.receiver_compute bundle pre_key handshake.receiver_id ephemeral
                handshake.used_one_time_pre_key)
              (λ secret.
                or_throw core bad_base64 s
                  (core.base64_to_bytes handshake.initiator_dh_public_key_b64)
                  (λ remote.
                    or_throw core core_error s
                      (core.create_responder_session peer_id secret self_dh remote s)
                      (λ (s', sid).
                        or_throw core core_error s' (core.rotate_dh peer_id s')
                          (λ s''. (s'', done sid)))))))

  unfoldable pub has_session : String → Sessions → Bool
  has_session peer_id s = is_some (core.get_send_context peer_id s)

  abbrev pub export_with : Option (Sessions → Snapshot) → Sessions → Option Snapshot
  export_with none s = none
  export_with (some export) s = some (export s)

  unfoldable pub export_snapshot : Sessions → Option Snapshot
  export_snapshot s = export_with core.manager_export s

  abbrev pub snapshot_or_empty : Option Snapshot → Snapshot
  snapshot_or_empty none = core.empty_snapshot
  snapshot_or_empty (some snapshot) = snapshot

  abbrev pub import_with :
      Option (Snapshot → Sessions → Sessions) → Option Snapshot → Sessions → Sessions
  import_with none snapshot s = s
  import_with (some import) snapshot s = import (snapshot_or_empty snapshot) s

  unfoldable pub import_snapshot : Option Snapshot → Sessions → Sessions
  import_snapshot snapshot s = import_with core.manager_import snapshot s

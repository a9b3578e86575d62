-- ===== src/E2ee/Channel.antt =====
-- The payloads of the secure channel (src/e2ee/SecureChannelManager.js).
use rez_sdk.Common.{Bool, true, false, Option, none, some, String, str_eq, if◌then◌else◌}
use rez_sdk.Common.Text.{is_empty}
use rez_sdk.E2ee.Base.{
  SendContext, RecvContext, Outer, requires, no_session, bad_envelope, core_error, bad_base64,
  Result, failed, done, Plain, Core, Outcome,
}

module _ (core : Core) where
  open core use {State, Envelope, Bundle, Sessions, Snapshot}

  abbrev pub with_key : Option State → Option (State × Bool)
  with_key none = none
  with_key (some state) = some (state, true)

  abbrev pub stepped : SendContext State → Option String → Option (State × Bool)
  stepped ctx none = some (ctx.ratchet_state, ctx.include_dh)
  stepped ctx (some remote) = with_key (core.ratchet_step ctx.ratchet_state remote)

  -- A responder has no sending chain before its first message: the state and whether the key goes along
  abbrev pub with_chain : SendContext State → Option (State × Bool)
  with_chain ctx =
      if core.has_sending_chain ctx.ratchet_state
      then some (ctx.ratchet_state, ctx.include_dh)
      else stepped ctx (core.remote_dh_public_key ctx.ratchet_state)

  abbrev pub sealed : String → Sessions → Option (Envelope × State) → Outcome core String
  sealed peer_id s none = (s, failed core_error)
  sealed peer_id s (some (envelope, state)) =
      (core.commit_send peer_id state s, done (core.to_json envelope))

  abbrev pub encrypt_ready :
      String → String → String → Sessions → Option (State × Bool) → Outcome core String
  encrypt_ready peer_id plaintext sid s none = (s, failed core_error)
  encrypt_ready peer_id plaintext sid s (some (state, include_dh)) =
      sealed peer_id s (core.encode (core.bytes_to_base64 plaintext) sid state include_dh)

  abbrev pub encrypt_in :
      String → String → Sessions → Option (SendContext State) → Outcome core String
  encrypt_in peer_id plaintext s none = (s, failed no_session)
  encrypt_in peer_id plaintext s (some ctx) =
      encrypt_ready peer_id plaintext ctx.sid s (with_chain ctx)

  -- `encryptPayload`
  unfoldable pub encrypt_payload : String → String → Sessions → Outcome core String
  encrypt_payload peer_id plaintext s =
      if is_empty peer_id
      then (s, failed (requires "peerId"))
      else encrypt_in peer_id plaintext s (core.get_send_context peer_id s)

  abbrev pub plain_bytes : String → Option String → Result (Option Plain)
  plain_bytes peer_id none = failed bad_base64
  plain_bytes peer_id (some bytes) =
      done (some (record { plaintext_bytes = bytes; peer_id = peer_id }))

  -- A body without a text is `null`; a text that is no base64 throws.
  abbrev pub plain_of : String → Option String → Result (Option Plain)
  plain_of peer_id none = done none
  plain_of peer_id (some raw) =
      if is_empty raw then done none else plain_bytes peer_id (core.base64_to_bytes raw)

  -- The state behind the envelope is committed before the body is looked at.
  abbrev pub opened :
      String → String → Sessions → Option (Option String × State) → Outcome core (Option Plain)
  opened peer_id sid s none = (s, failed core_error)
  opened peer_id sid s (some (raw, state)) = (core.commit_recv sid state s, plain_of peer_id raw)

  abbrev pub decrypt_in :
      Envelope → String → Sessions → Option (RecvContext State) → Outcome core (Option Plain)
  decrypt_in envelope sid s none = (s, failed no_session)
  decrypt_in envelope sid s (some ctx) =
      opened ctx.peer_id sid s (core.decode envelope sid ctx.ratchet_state)

  abbrev pub decrypt_outer :
      Option Envelope → Option String → Sessions → Outcome core (Option Plain)
  decrypt_outer none sid s = (s, failed bad_envelope)
  decrypt_outer (some envelope) none s = (s, done none)
  decrypt_outer (some envelope) (some sid) s =
      decrypt_in envelope sid s (core.get_recv_context sid s)

  abbrev pub is_encrypted : Option String → Bool
  is_encrypted none = false
  is_encrypted (some kind) = str_eq kind "rez.encrypted.v1"

  abbrev pub decrypt_parsed : Option (Outer Envelope) → Sessions → Outcome core (Option Plain)
  decrypt_parsed none s = (s, done none)
  decrypt_parsed (some outer) s =
      if is_encrypted outer.header_type
      then decrypt_outer outer.envelope outer.sid s
      else (s, done none)

  -- `decryptPayload`
  unfoldable pub decrypt_payload : String → Sessions → Outcome core (Option Plain)
  decrypt_payload encrypted_bytes s = decrypt_parsed (core.from_json encrypted_bytes) s

-- ===== src/E2ee/Failure.antt =====
-- What a call of the secure channel that throws leaves behind.
use rez_sdk.Common.{
  ◌≡◌, refl, ap, some_eq, Bool, Option, none, some, String, arith, inl, inr, Bool-cases,
  Option-cases, ◌⊎◌,
}
use rez_sdk.Common.Text.{is_empty}
use rez_sdk.E2ee.Base.{
  Core, Outer, Failure, bad_base64, Plain, Result, failed, done, Outcome, SendContext, RecvContext,
}
use rez_sdk.E2ee.Channel.{
  sealed, encrypt_ready, encrypt_in, opened, decrypt_in, with_chain, encrypt_payload, decrypt_outer,
  is_encrypted, decrypt_parsed, decrypt_payload,
}

pub data Call : Type 0 where
  encrypts : String → String → Call
  decrypts : String → Call

abbrev pub failure_of : {A : Type 0} → Result A → Option Failure
failure_of (failed f) = some f
failure_of (done a) = none

failed_of : {A : Type 0} (r : Result A) (f : Failure) → failure_of r ≡ some f → r ≡ failed f
failed_of (failed e) f h = ap failed (some_eq h)
failed_of (done a) f h = absurd (ground (arith, h))

module _ (core : Core) where
  open core use {State, Envelope, Bundle, Sessions}

  -- The envelope was decrypted and its body is no base64: the state behind it is committed to its session,
  -- and nothing else has changed.
  pub record IsSpentAt (envelope : Envelope) (sid : String) (s s' : Sessions) (f : Failure)
      : Type 0 where
    pub ctx : RecvContext State
    pub raw : String
    pub state : State
    pub found : core.get_recv_context sid s ≡ some ctx
    pub decoded : core.decode envelope sid ctx.ratchet_state ≡ some (some raw, state)
    pub no_base64 : core.base64_to_bytes raw ≡ none
    pub committed : s' ≡ core.commit_recv sid state s
    pub because : f ≡ bad_base64

  pub record IsSpent (call : Call) (s s' : Sessions) (f : Failure) : Type 0 where
    pub bytes : String
    pub outer : Outer Envelope
    pub envelope : Envelope
    pub sid : String
    pub of_call : call ≡ decrypts bytes
    pub read : core.from_json bytes ≡ some outer
    pub enveloped : outer.envelope ≡ some envelope
    pub identified : outer.sid ≡ some sid
    pub spent : IsSpentAt envelope sid s s' f

  done_or_failed : {A B : Type 0} {a : A} {f : Failure} → done a ≡ failed f → B
  done_or_failed h = absurd (ground (arith, h))

  -- What an operation on some sessions leaves, when it throws.
  abbrev Keeps : {A : Type 0} → Sessions → Failure → Outcome core A → Type 0
  Keeps s f outcome = outcome.1 ≡ failed f → outcome.0 ≡ s

  sealed-Keeps :
      (peer : String) (s : Sessions) (f : Failure) (o : Option (Envelope × State))
      → Keeps s f (sealed core peer s o)
  sealed-Keeps peer s f none h = refl
  sealed-Keeps peer s f (some e) h = done_or_failed h

  encrypt_ready-Keeps :
      (peer t sid : String) (s : Sessions) (f : Failure) (o : Option (State × Bool))
      → Keeps s f (encrypt_ready core peer t sid s o)
  encrypt_ready-Keeps peer t sid s f none h = refl
  encrypt_ready-Keeps peer t sid s f (some (a, d)) h =
      sealed-Keeps peer s f (core.encode (core.bytes_to_base64 t) sid a d) h

  encrypt_in-Keeps :
      (peer t : String) (s : Sessions) (f : Failure) (o : Option (SendContext State))
      → Keeps s f (encrypt_in core peer t s o)
  encrypt_in-Keeps peer t s f none h = refl
  encrypt_in-Keeps peer t s f (some ctx) h =
      encrypt_ready-Keeps peer t ctx.sid s f (with_chain core ctx) h

  encrypt_payload-Keeps :
      (peer t : String) (s : Sessions) (f : Failure) → Keeps s f (encrypt_payload core peer t s)
  unfolding encrypt_payload
  encrypt_payload-Keeps peer t s f = elim (Bool-cases (is_empty peer)) [
    | inl empty ↦ rw empty (λ h. refl)
    | inr named ↦ rw named (encrypt_in-Keeps peer t s f (core.get_send_context peer s))
  ]

  -- The same of a decryption, which may also have spent a state of the ratchet.
  abbrev Ends : Envelope → String → Sessions → Failure → Outcome core (Option Plain) → Type 0
  Ends envelope sid s f outcome =
      outcome.1 ≡ failed f → (outcome.0 ≡ s) ⊎ IsSpentAt envelope sid s outcome.0 f

  opened-Ends :
      (envelope : Envelope) (sid : String) (s : Sessions) (f : Failure) (ctx : RecvContext State)
      (o : Option (Option String × State))
      → core.get_recv_context sid s ≡ some ctx
      → core.decode envelope sid ctx.ratchet_state ≡ o
      → Ends envelope sid s f (opened core ctx.peer_id sid s o)
  opened-Ends envelope sid s f ctx none found decoded = λ h. inl refl
  opened-Ends envelope sid s f ctx (some (none, state)) found decoded = λ h. done_or_failed h
  opened-Ends envelope sid s f ctx (some (some raw, state)) found decoded =
      elim (Bool-cases (is_empty raw)) [
        | inl empty ↦ rw empty (λ h. done_or_failed h)
        | inr solid ↦ elim (Option-cases (core.base64_to_bytes raw)) [
          | inr (bytes, decodes) ↦ rw (solid, decodes) (λ h. done_or_failed h)
          | inl no_base64 ↦
              rw (solid, no_base64)
                (λ h. inr (record {
                  ctx = ctx;
                  raw = raw;
                  state = state;
                  found = found;
                  decoded = decoded;
                  no_base64 = no_base64;
                  committed = refl;
                  because = cc;
                }))
        ]
      ]

  decrypt_in-Ends :
      (envelope : Envelope) (sid : String) (s : Sessions) (f : Failure)
      (o : Option (RecvContext State))
      → core.get_recv_context sid s ≡ o
      → Ends envelope sid s f (decrypt_in core envelope sid s o)
  decrypt_in-Ends envelope sid s f none found = λ h. inl refl
  decrypt_in-Ends envelope sid s f (some ctx) found =
      opened-Ends envelope sid s f ctx (core.decode envelope sid ctx.ratchet_state) found refl

  decrypt_outer-Ends :
      (bytes : String) (outer : Outer Envelope) (envelope : Option Envelope) (sid : Option String)
      (s : Sessions) (f : Failure)
      → core.from_json bytes ≡ some outer
      → outer.envelope ≡ envelope
      → outer.sid ≡ sid
      → (decrypt_outer core envelope sid s).1 ≡ failed f
      → ((decrypt_outer core envelope sid s).0 ≡ s)
        ⊎ IsSpent (decrypts bytes) s (decrypt_outer core envelope sid s).0 f
  decrypt_outer-Ends bytes outer none sid s f read e i h = inl refl
  decrypt_outer-Ends bytes outer (some envelope) none s f read e i h = inl refl
  decrypt_outer-Ends bytes outer (some envelope) (some sid) s f read e i h =
      elim (decrypt_in-Ends envelope sid s f (core.get_recv_context sid s) refl h) [
        | inl kept ↦ inl kept
        | inr spent ↦ inr (record {
          bytes = bytes;
          outer = outer;
          envelope = envelope;
          sid = sid;
          of_call = refl;
          read = read;
          enveloped = e;
          identified = i;
          spent = spent;
        })
      ]

  decrypt_parsed-Ends :
      (bytes : String) (o : Option (Outer Envelope)) (s : Sessions) (f : Failure)
      → core.from_json bytes ≡ o
      → (decrypt_parsed core o s).1 ≡ failed f
      → ((decrypt_parsed core o s).0 ≡ s) ⊎ IsSpent (decrypts bytes) s (decrypt_parsed core o s).0 f
  decrypt_parsed-Ends bytes none s f read = λ h. inl refl
  decrypt_parsed-Ends bytes (some outer) s f read =
      elim (Bool-cases (is_encrypted core outer.header_type)) [
        | inl encrypted ↦
            rw encrypted
              (decrypt_outer-Ends bytes outer outer.envelope outer.sid s f read refl refl)
        | inr plain ↦ rw plain (λ h. inl refl)
      ]

  abbrev pub perform : Call → Sessions → Sessions × Option Failure
  perform (encrypts peer text) s =
      let (s', result) = encrypt_payload core peer text s in (s', failure_of result)
  perform (decrypts bytes) s =
      let (s', result) = decrypt_payload core bytes s in (s', failure_of result)

  -- A call of encryptPayload or decryptPayload that throws keeps every session as it was, but for one case:
  -- decryptPayload has decrypted the envelope in the session it names, and the text in its body is no
  -- base64. That call throws after the state behind the envelope was committed to that session, which is
  -- then all that has changed.
  pub perform-failed :
      (call : Call) (s : Sessions) (f : Failure)
      → (perform call s).1 ≡ some f
      → ((perform call s).0 ≡ s) ⊎ IsSpent call s (perform call s).0 f
  unfolding decrypt_payload
  perform-failed (encrypts peer text) s f h =
      inl (encrypt_payload-Keeps peer text s f (failed_of (encrypt_payload core peer text s).1 f h))
  perform-failed (decrypts bytes) s f h =
      decrypt_parsed-Ends bytes (core.from_json bytes) s f refl
        (failed_of (decrypt_payload core bytes s).1 f h)

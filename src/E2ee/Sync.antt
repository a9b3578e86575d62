-- ===== src/E2ee/Sync.antt =====
-- Two ends of a secure channel.
use rez_sdk.Common.{
  ◌≡◌, inl, inr, Bool-cases, Option-cases, refl, ap, Bool, true, false, Option, some, List, [], ◌∷◌,
  map, String, All,
}
use rez_sdk.Common.Text.{is_empty}
use rez_sdk.E2ee.Base.{Core, SendContext, RecvContext, Result, failed, done, Plain, Outcome}
use rez_sdk.E2ee.Channel.{with_chain, encrypt_payload, decrypt_payload}

module _ (core : Core) where
  open core use {State, Envelope, Bundle, Sessions}

  -- What the code relies on. `Synced sid a d b`: what the first end of the session encrypts next in
  -- the state a, with its key along if d says so, the second end decrypts in the state b.
  pub record IsChannel (Synced : String → State → Bool → State → Type 0) : Type 0 where
    pub steps :
        (sid : String) (a b : State) (include_dh : Bool) (remote : String)
        → Synced sid a include_dh b
        → core.has_sending_chain a ≡ false
        → core.remote_dh_public_key a ≡ some remote
        → (a' : State) × (core.ratchet_step a remote ≡ some a') × Synced sid a' true b
    pub encodes :
        (a b : State) (raw sid : String) (include_dh : Bool)
        → Synced sid a include_dh b
        → (envelope : Envelope) × (a' b' : State) × (core.encode raw sid a include_dh
            ≡ some (envelope, a'))
          × (core.decode envelope sid b ≡ some (some raw, b'))
          × (core.from_json (core.to_json envelope)
              ≡ some (record {
                header_type = some "rez.encrypted.v1";
                envelope = some envelope;
                sid = some sid;
              }))
          × ((next : Bool) → Synced sid a' next b')
    pub base64 : (bytes : String) → core.base64_to_bytes (core.bytes_to_base64 bytes) ≡ some bytes
    pub base64_empty : (bytes : String) → is_empty (core.bytes_to_base64 bytes) ≡ is_empty bytes
    pub send-commit :
        (peer : String) (s : Sessions) (ctx : SendContext State) (a : State)
        → core.get_send_context peer s ≡ some ctx
        → (next : Bool) × (core.get_send_context peer (core.commit_send peer a s)
            ≡ some (record { sid = ctx.sid; ratchet_state = a; include_dh = next }))
    pub recv-commit :
        (sid : String) (s : Sessions) (ctx : RecvContext State) (b : State)
        → core.get_recv_context sid s ≡ some ctx
        → core.get_recv_context sid (core.commit_recv sid b s)
          ≡ some (record { peer_id = ctx.peer_id; ratchet_state = b })

  -- The first end has a session with `peer`, the second one with `self`, and they are synced.
  pub record IsLinked (Synced : String → State → Bool → State → Type 0) (peer self : String)
      (from to : Sessions) : Type 0 where
    pub ctx : SendContext State
    pub held : State
    pub sends : core.get_send_context peer from ≡ some ctx
    pub receives :
        core.get_recv_context ctx.sid to ≡ some (record { peer_id = self; ratchet_state = held })
    pub synced : Synced ctx.sid ctx.ratchet_state ctx.include_dh held

  abbrev pub delivered : Result String → Sessions → Outcome core (Option Plain)
  delivered (failed e) to = (to, failed e)
  delivered (done bytes) to = decrypt_payload core bytes to

  -- Texts that one end encrypts and the other decrypts, each before the next: what the second end gets
  abbrev pub converse : String → List String → Sessions → Sessions → List (Result (Option Plain))
  converse peer [] from to = []
  converse peer (t ∷ ts) from to =
      let (from', sent) = encrypt_payload core peer t from in
      let (to', got) = delivered sent to in got ∷ converse peer ts from' to'

  module _ {Synced : String → State → Bool → State → Type 0} (law : IsChannel Synced) where
    chain_ready :
        (ctx : SendContext State) (b : State)
        → Synced ctx.sid ctx.ratchet_state ctx.include_dh b
        → (a' : State) × (include_dh : Bool) × (with_chain core ctx ≡ some (a', include_dh))
          × Synced ctx.sid a' include_dh b
    chain_ready ctx b synced = elim (Bool-cases (core.has_sending_chain ctx.ratchet_state)) [
      | inl chain ↦ (ctx.ratchet_state, ctx.include_dh, rw chain refl, synced)
      | inr chain ↦ elim (Option-cases (core.remote_dh_public_key ctx.ratchet_state)) [
        | inl remote ↦ (ctx.ratchet_state, ctx.include_dh, rw (chain, remote) refl, synced)
        | inr (key, remote) ↦
            let (a', step, synced') =
              law.steps ctx.sid ctx.ratchet_state b ctx.include_dh key synced chain remote in
            (a', true, rw (chain, remote, step) refl, synced')
      ]
    ]

    -- One text goes over, and the two ends are synced behind it.
    exchange :
        (peer self t : String) (from to : Sessions)
        → is_empty peer ≡ false
        → is_empty t ≡ false
        → IsLinked Synced peer self from to
        → (from' to' : Sessions) × (bytes : String) × (encrypt_payload core peer t from
            ≡ (from', done bytes))
          × (decrypt_payload core bytes to
              ≡ (to', done (some (record { plaintext_bytes = t; peer_id = self }))))
          × IsLinked Synced peer self from' to'
    unfolding encrypt_payload decrypt_payload
    exchange peer self t from to named solid link =
        let ctx = link.ctx in
        let (a, include_dh, chain, ready) = chain_ready ctx link.held link.synced in
        let raw = core.bytes_to_base64 t in
        let (envelope, a', b', enc, dec, json, synced) =
          law.encodes a link.held raw ctx.sid include_dh ready in
        let (next, committed) = law.send-commit peer from ctx a' link.sends in
        (
          core.commit_send peer a' from,
          core.commit_recv ctx.sid b' to,
          core.to_json envelope,
          rw (named, link.sends, chain, enc) refl,
          rw (json, link.receives, dec, law.base64_empty t, solid, law.base64 t) refl,
          record {
            ctx = record { sid = ctx.sid; ratchet_state = a'; include_dh = next };
            held = b';
            sends = committed;
            receives =
                law.recv-commit ctx.sid to (record { peer_id = self; ratchet_state = link.held }) b'
                  link.receives;
            synced = synced next;
          },
        )

    converse_each :
        (peer self : String) (ts : List String) (from to : Sessions)
        → is_empty peer ≡ false
        → All (λ t. is_empty t ≡ false) ts
        → IsLinked Synced peer self from to
        → converse peer ts from to
          ≡ map (λ (t : String). done (some (record { plaintext_bytes = t; peer_id = self }))) ts
    converse_each peer self [] from to named solid link = refl
    converse_each peer self (t ∷ ts) from to named (first, rest) link =
        let (from', to', bytes, sent, got, link') = exchange peer self t from to named first link in
        rw (sent, got)
          (ap (λ xs. done (some (record { plaintext_bytes = t; peer_id = self })) ∷ xs)
            (converse_each peer self ts from' to' named rest link'))

  -- Two ends that each have a session with the other, under a name that is not empty, stay synced:
  -- whatever texts one end encrypts in turn, none of them empty, the other end decrypts each to the same
  -- text, from the same peer, and neither throws, also when the first text needs a step of the ratchet
  -- before it. This relies on the ratchet for single messages, on the session table keeping what is
  -- committed, and on base64.
  pub converse-texts :
      (Synced : String → State → Bool → State → Type 0) (law : IsChannel Synced)
      (peer self : String) (ts : List String) (from to : Sessions)
      → is_empty peer ≡ false
      → All (λ t. is_empty t ≡ false) ts
      → IsLinked Synced peer self from to
      → converse peer ts from to
        ≡ map (λ (t : String). done (some (record { plaintext_bytes = t; peer_id = self }))) ts
  converse-texts Synced law peer self ts from to named solid link =
      converse_each law peer self ts from to named solid link

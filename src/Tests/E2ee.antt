-- ===== src/Tests/E2ee.antt =====
-- The secure channel over a core library that counts messages.
use rez_sdk.Common.{
  ℕ, suc, ◌≡◌, ◌⊎◌, refl, sym, ap, some_eq, Bool, true, false, Option, none, some, [], ◌∷◌, String,
  arith,
}
use rez_sdk.Common.Text.{is_empty}
use rez_sdk.E2ee.Base.{SendContext, RecvContext, bad_base64, done, Core}
use rez_sdk.E2ee.Channel.{encrypt_payload, decrypt_payload}
use rez_sdk.E2ee.Sync.{IsChannel, IsLinked, converse, converse-texts}
use rez_sdk.E2ee.Failure.{decrypts, IsSpent, perform, perform-failed}

-- A session has how many messages went, and whether it has a sending chain.
pub record Ratchet : Type 0 where
  pub count : ℕ
  pub chain : Bool

abbrev send_in : Option Ratchet → Option (SendContext Ratchet)
send_in none = none
send_in (some r) = some (record { sid = "sid"; ratchet_state = r; include_dh = false })

abbrev recv_in : Option Ratchet → Option (RecvContext Ratchet)
recv_in none = none
recv_in (some r) = some (record { peer_id = "alice"; ratchet_state = r })

abbrev after : Ratchet → Ratchet
after r = record r { count = suc r.count }

-- A code that a text of one character is not in: the first character is written twice.
abbrev doubled : String → String
doubled String.[] = String.[]
doubled (String.◌∷◌ c s) = String.◌∷◌ c (String.◌∷◌ c s)

abbrev halved : String → Option String
halved String.[] = some String.[]
halved (String.◌∷◌ c String.[]) = none
halved (String.◌∷◌ c (String.◌∷◌ d s)) = some (String.◌∷◌ d s)

halved-doubled : (bytes : String) → halved (doubled bytes) ≡ some bytes
halved-doubled String.[] = refl
halved-doubled (String.◌∷◌ c s) = refl

is_empty-doubled : (bytes : String) → is_empty (doubled bytes) ≡ is_empty bytes
is_empty-doubled String.[] = refl
is_empty-doubled (String.◌∷◌ c s) = refl

abbrev counting : Core
counting = record {
  State = Ratchet;
  Envelope = String;
  Bundle = String;
  Sessions = Option Ratchet;
  Snapshot = Option Ratchet;
  empty_snapshot = none;
  manager_export = some (λ s. s);
  manager_import = some (λ snapshot s. snapshot);
  signed_pre_key_public = λ bundle. bundle;
  create_receiver_bundle = λ receiver identity signed. some signed.public_key;
  initiator_compute = λ bundle. some (bundle, "ephemeral", false, "secret");
  receiver_compute = λ bundle pre_key receiver ephemeral one_time. some "secret";
  create_initiator_session =
      λ peer secret self_dh remote s. some (some (record { count = 0; chain = true }), "sid");
  create_responder_session =
      λ peer secret self_dh remote s. some (some (record { count = 0; chain = false }), "sid");
  rotate_dh = λ peer s. some s;
  get_send_context = λ peer s. send_in s;
  commit_send = λ peer r s. some r;
  get_recv_context = λ sid s. recv_in s;
  commit_recv = λ sid r s. some r;
  has_sending_chain = λ r. r.chain;
  remote_dh_public_key = λ r. some "key";
  ratchet_step = λ r key. some (record r { chain = true });
  encode = λ raw sid r include_dh. some (raw, after r);
  decode = λ envelope sid r. some (some envelope, after r);
  to_json = λ envelope. envelope;
  from_json = λ text.
      some
        (record { header_type = some "rez.encrypted.v1"; envelope = some text; sid = some "sid" });
  bytes_to_base64 = doubled;
  base64_to_bytes = halved;
}

abbrev Synced : String → Ratchet → Bool → Ratchet → Type 0
Synced sid a include_dh b = (sid ≡ "sid") × (a.count ≡ b.count)

send_commit :
    (s : Option Ratchet) (ctx : SendContext Ratchet) (r : Ratchet)
    → send_in s ≡ some ctx
    → (next : Bool) × (send_in (some r)
        ≡ some (record { sid = ctx.sid; ratchet_state = r; include_dh = next }))
send_commit none ctx r h = absurd (ground (arith, h))
send_commit (some a) ctx r h = (
  false,
  ap (λ (c : SendContext Ratchet). some (record c { ratchet_state = r; include_dh = false }))
      (some_eq h),
)

recv_commit :
    (s : Option Ratchet) (ctx : RecvContext Ratchet) (r : Ratchet)
    → recv_in s ≡ some ctx
    → recv_in (some r) ≡ some (record { peer_id = ctx.peer_id; ratchet_state = r })
recv_commit none ctx r h = absurd (ground (arith, h))
recv_commit (some a) ctx r h =
    ap (λ (c : RecvContext Ratchet). some (record c { ratchet_state = r })) (some_eq h)

counting-IsChannel : IsChannel counting Synced
counting-IsChannel = record {
  steps = λ sid a b include_dh remote synced closed key.
      (record a { chain = true }, refl, (synced.0, synced.1));
  encodes = λ a b raw sid include_dh synced. (
    raw,
    after a,
    after b,
    refl,
    refl,
    ap
        (λ (t : String).
          some
            (record { header_type = some "rez.encrypted.v1"; envelope = some raw; sid = some t }))
        (sym synced.0),
    λ next. (synced.0, ap suc synced.1),
  );
  base64 = halved-doubled;
  base64_empty = is_empty-doubled;
  send-commit = λ peer s ctx r h. send_commit s ctx r h;
  recv-commit = λ sid s ctx r h. recv_commit s ctx r h;
}

-- The responder writes first.
abbrev fresh : Option Ratchet
fresh = some (record { count = 0; chain = false })

fresh-IsLinked : IsLinked counting Synced "bob" "alice" fresh fresh
fresh-IsLinked = record {
  ctx = record {
    sid = "sid";
    ratchet_state = record { count = 0; chain = false };
    include_dh = false;
  };
  held = record { count = 0; chain = false };
  sends = refl;
  receives = refl;
  synced = (refl, refl);
}

converse-texts_example :
    converse counting "bob" ("hello" ∷ "again" ∷ []) fresh fresh
    ≡ done (some (record { plaintext_bytes = "hello"; peer_id = "alice" }))
      ∷ done (some (record { plaintext_bytes = "again"; peer_id = "alice" }))
      ∷ []
converse-texts_example =
    converse-texts counting Synced counting-IsChannel "bob" "alice" ("hello" ∷ "again" ∷ []) fresh
      fresh refl (refl, (refl, tt)) fresh-IsLinked

program : Unit {0}
unfolding encrypt_payload decrypt_payload
program = tt

stepped_first :
    encrypt_payload counting "bob" "hello" fresh
    ≡ (some (record { count = 1; chain = true }), done "hhello")
unfolding program
stepped_first = refl

-- The body of the second message is no base64.
spent :
    (perform counting (decrypts "%") fresh)
    ≡ (some (record { count = 1; chain = false }), some bad_base64)
unfolding program
spent = refl

perform-failed_example :
    ((perform counting (decrypts "%") fresh).0 ≡ fresh)
    ⊎ IsSpent counting (decrypts "%") fresh (perform counting (decrypts "%") fresh).0 bad_base64
unfolding program
perform-failed_example = perform-failed counting (decrypts "%") fresh bad_base64 refl

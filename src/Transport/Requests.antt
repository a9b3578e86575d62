-- ===== src/Transport/Requests.antt =====
-- Requests and their answers (src/transport/WsTransport.js and TcpTransport.js, `sendRequest`): the
-- pending table and what became of each promise.
pub mod Tally
pub mod Answers
use Prim.Native.String.{◌++◌ as append}
use rez_sdk.Common.{
  ℕ, suc, ◌+◌, Bool, true, false, ◌&&◌, ◌||◌, Option, none, some, List, [], ◌∷◌, String, str_eq,
  ◌==◌, if◌then◌else◌,
}
use rez_sdk.Common.Text.{is_empty}
use rez_sdk.Common.Value.{Value}

-- The text `${prefix}:${Date.now()}:${seq}` by its parts: the last of them has no colon, so that the
-- text determines them.
pub record RequestId : Type 0 where
  pub prefix : String
  pub at : ℕ
  pub seq : ℕ

-- `makeId`
abbrev pub make_id : String → ℕ → ℕ → RequestId
make_id prefix now seq = record { prefix = prefix; at = now; seq = seq }

abbrev pub same_id : RequestId → RequestId → Bool
same_id a b = str_eq a.prefix b.prefix && a.at == b.at && a.seq == b.seq

-- The id of a frame that came in: a text that `makeId` can make, or another one.
pub data FrameId : Type 0 where
  issued : RequestId → FrameId
  foreign : String → FrameId

-- What is read of a frame's body: `detail` is the detail object, by its `retryable`.
pub record Body : Type 0 where
  pub code : String
  pub message : String
  pub retryable : Bool
  pub detail : Option Bool

pub record Frame : Type 0 where
  pub id : Option FrameId
  pub type : String
  pub version : Value
  pub body : Body

-- `asError`
pub record TransportError : Type 0 where
  pub code : String
  pub message : String
  pub retryable : Bool
  pub detail : Option Bool

abbrev pub or_text : String → String → String
or_text a b = if is_empty a then b else a

abbrev pub as_error : String → String → Bool → Option Bool → TransportError
as_error code message retryable detail = record {
  code = or_text code "TRANSPORT_ERR";
  message = or_text message (or_text code "TRANSPORT_ERR");
  retryable = retryable;
  detail = detail;
}

-- A promise is resolved with a response, rejected with an error of the transport, or with what the
-- codec has thrown.
pub data Outcome : Type 0 where
  resolved : RequestId → Frame → Outcome
  rejected : TransportError → Outcome
  thrown : String → Outcome

-- An entry of `#pending`; its timer is cleared when it leaves the table.
pub record Entry : Type 0 where
  pub id : RequestId
  pub expected : Option String

pub record Settled : Type 0 where
  pub entry : Entry
  pub outcome : Outcome

-- `#seq`, `#pending` in its order, and the promises that were settled, the last one first.
pub record Requests : Type 0 where
  pub seq : ℕ
  pub pending : List Entry
  pub settled : List Settled

-- `#pending.get`, `set` and `delete`
unfoldable pub find : RequestId → List Entry → Option Entry
find id [] = none
find id (e ∷ es) = let rest = find id es in if same_id e.id id then some e else rest

unfoldable pub put : Entry → List Entry → List Entry
put new [] = new ∷ []
put new (e ∷ es) = let rest = put new es in if same_id e.id new.id then new ∷ es else e ∷ rest

unfoldable pub remove : RequestId → List Entry → List Entry
remove id [] = []
remove id (e ∷ es) = let rest = remove id es in if same_id e.id id then es else e ∷ rest

-- `expectedResponseType ? String(expectedResponseType) : null`
abbrev pub expectation : Option String → Option String
expectation none = none
expectation (some t) = if is_empty t then none else some t

-- Whether the frame could be encoded, and whether the socket took it.
pub data Sending : Type 0 where
  sent : Sending
  send_failed : String → Sending
  encode_failed : String → Sending

abbrev pub send_error : String → TransportError
send_error message = as_error "SEND_FAILED" (or_text message "send failed") true none

-- `sendRequest` behind its two checks.
unfoldable pub issue : String → Option String → ℕ → Sending → Requests → Requests
issue type expected now answer r =
    let id = make_id type now (r.seq + 1) in
    let e : Entry = record { id = id; expected = expectation expected } in
    elim answer [
      | sent ↦ record r { seq = r.seq + 1; pending = put e r.pending }
      | send_failed message ↦ record {
        seq = r.seq + 1;
        pending = remove id (put e r.pending);
        settled = record { entry = e; outcome = rejected (send_error message) } ∷ r.settled;
      }
      | encode_failed message ↦ record r {
        seq = r.seq + 1;
        settled = record { entry = e; outcome = thrown message } ∷ r.settled;
      }
    ]

-- An entry that is there leaves the table with its outcome.
abbrev pub settle_found : (Entry → Outcome) → RequestId → Requests → Option Entry → Requests
settle_found outcome id r none = r
settle_found outcome id r (some e) = record r {
  pending = remove id r.pending;
  settled = record { entry = e; outcome = outcome e } ∷ r.settled;
}

unfoldable pub settle : (Entry → Outcome) → RequestId → Requests → Requests
settle outcome id r = settle_found outcome id r (find id r.pending)

-- The timer of a request.
unfoldable pub expire : RequestId → Requests → Requests
unfolding settle find remove
expire id = settle (λ e. rejected (as_error "TIMEOUT" (append id.prefix " timeout") true none)) id

unfoldable pub reject_each : TransportError → List Entry → List Settled → List Settled
reject_each err [] log = log
reject_each err (e ∷ es) log =
    reject_each err es (record { entry = e; outcome = rejected err } ∷ log)

-- All that is pending is rejected, in its order.
unfoldable pub reject_all : TransportError → Requests → Requests
unfolding reject_each
reject_all err r = record r { pending = []; settled = reject_each err r.pending r.settled }

-- `pending.expectedResponseType && String(frame.type) !== pending.expectedResponseType`
abbrev pub is_unexpected : Option String → String → Bool
is_unexpected none type = false
is_unexpected (some t) type = if str_eq t type then false else true

-- What a frame that is no error makes of the request it answers.
abbrev pub response : Frame → Entry → Outcome
response frame e =
    if is_unexpected e.expected frame.type
    then rejected
        (as_error "BAD_RESPONSE" (append "unexpected response type: " frame.type) false none)
    else resolved e.id frame

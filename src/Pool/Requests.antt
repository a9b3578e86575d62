-- ===== src/Pool/Requests.antt =====
-- Requests over the pool (src/pool/UplinkPool.js, `sendRequest`).
pub mod Order
use Prim.Native.String.{◌++◌ as append}
use rez_sdk.Common.{
  ℕ, zero, suc, ◌+◌, ◌≡◌, Bool, true, false, not, ◌&&◌, ◌||◌, Option, none, some, List, [], ◌∷◌,
  ◌++◌, String, str_eq, is_some, if◌then◌else◌, filter, any,
}
use rez_sdk.Common.Text.{is_empty, trim}
use rez_sdk.Common.Dict.{lookup}
use rez_sdk.Pool.State.{
  Failure, World, Pool, connected, failover, err_obj, emit_state, is_ready, is_url, has_url,
  set_active,
}
use rez_sdk.Pool.Connect.{ensure_connected}

-- The options of a request: `continueOnCodes` as the set that it is made into.
pub record Request : Type 0 where
  pub type : String
  pub try_all_uplinks : Bool
  pub continue_on_codes : List String
  pub adopt_successful_uplink : Bool
  pub skip_active_uplink : Bool

-- The frame of the uplink that answered, or the error that is thrown.
pub data Reply : Type 0 where
  answered : String → Reply
  failed : Failure → Reply

-- `transport.sendRequest`
unfoldable pub ask : World → Pool → Pool × Option Failure
ask w p = (record p { requests = p.requests + 1 }, w.replies p.requests)

abbrev pub reply_of : String → Option Failure → Reply
reply_of url none = answered url
reply_of url (some f) = failed f

abbrev pub url_or_empty : Option String → String
url_or_empty none = ""
url_or_empty (some u) = u

-- The request goes to the active uplink alone.
unfoldable pub send_active : World → Pool → Pool × Reply
unfolding ask
send_active w p =
    if not p.ready || not (has_url p.active_url)
    then (p, failed (err_obj "NOT_READY" "uplink pool not ready" true))
    else if not (is_ready (lookup (url_or_empty p.active_url) p.conns))
    then (p, failed (err_obj "UNREACHABLE" "no ready uplink" true))
    else (let (q, err) = ask w p in (q, reply_of (url_or_empty p.active_url) err))

-- `activeUrl ? [activeUrl] : []`
abbrev pub active_list : Option String → List String
active_list a = if has_url a then url_or_empty a ∷ [] else []

-- The order in which the uplinks are tried.
unfoldable pub ordered : Bool → Option String → List String → List String
ordered skip active uplinks =
    let others = filter (λ u. not (is_url active u)) uplinks in
    if skip then others ++ active_list active else active_list active ++ others

-- The uplink that answered is adopted, if it is asked for and is not the active one.
unfoldable pub adopt_answering : World → Bool → Option String → String → Pool → Pool
unfolding emit_state
adopt_answering w adopt from url p =
    if adopt && not (is_url p.active_url url)
    then emit_state (connected url) (emit_state (failover from url) (set_active w url p))
    else p

-- `lastErr || errObj(…)`
abbrev pub last_reply : String → Option Failure → Reply
last_reply type none = failed (err_obj "UNREACHABLE" (append type " failed across uplinks") true)
last_reply type (some f) = failed f

-- The loop over the uplinks; `last` is `lastErr`.
unfoldable pub send_loop :
    World → Request → Option String → List String → Pool → Option Failure → Pool × Reply
send_loop w r from [] p last = (p, last_reply r.type last)
send_loop w r from (url ∷ urls) p last =
    let (q, err) = ensure_connected w url p in
    let (s, no_reply) = ask w q in
    let unlinked = send_loop w r from urls q err in
    let not_ready = send_loop w r from urls q last in
    let next = send_loop w r from urls s no_reply in
    if is_some err
    then unlinked
    else if not (is_ready (lookup url q.conns))
    then not_ready
    else elim no_reply [
      | none ↦ (adopt_answering w r.adopt_successful_uplink from url s, answered url)
      | some f ↦
          if any (λ c. str_eq c (trim f.code)) r.continue_on_codes then next else (s, failed f)
    ]

-- The loop over the ordered uplinks, if there are any.
unfoldable pub send_ordered : World → Request → List String → Pool → Pool × Reply
send_ordered w r [] p = (p, failed (err_obj "UNREACHABLE" "no uplinks configured" true))
send_ordered w r (url ∷ urls) p = send_loop w r p.active_url (url ∷ urls) p none

unfoldable pub send_all : World → Request → Pool → Pool × Reply
send_all w r p = send_ordered w r (ordered r.skip_active_uplink p.active_url p.uplinks) p

-- `sendRequest`
unfoldable pub send_request : World → Request → Pool → Pool × Reply
send_request w r p =
    if is_empty (trim r.type)
    then (p, failed (err_obj "BAD_REQUEST" "type required" false))
    else if not r.try_all_uplinks
    then send_active w p
    else send_all w (record r { type = trim r.type }) p

-- ===== src/PeerLink/Lifecycle.antt =====
-- The life cycle of a peer link (src/peer-link/PeerLinkStateMachine.js): the states, the table of
-- legal transitions and its checks. States are the texts that are stored.
pub mod Graph
pub mod Checks
use rez_sdk.Common.{
  ◌≡◌, refl, Bool, true, false, not, ◌&&◌, ◌||◌, Option, none, some, List, [], ◌∷◌, String, str_eq,
  any, if◌then◌else◌,
}
use rez_sdk.Common.Text.{is_empty, trim}
use rez_sdk.Common.Value.{Value, text, trimmed}

-- `PEER_LINK_STATE`
pub data PeerLinkState : Type 0 where
  invite_issued accept_committed handshake_sent handshake_received session_established :
      PeerLinkState
  degraded rejected failed : PeerLinkState

-- The stored text of a state.
abbrev pub name : PeerLinkState → String
name invite_issued = "invite_issued"
name accept_committed = "accept_committed"
name handshake_sent = "handshake_sent"
name handshake_received = "handshake_received"
name session_established = "session_established"
name degraded = "degraded"
name rejected = "rejected"
name failed = "failed"

-- `indexOf(s) !== -1`
abbrev pub includes : List String → String → Bool
includes l s = any (λ x. str_eq x s) l

-- `DECRYPTABLE_SESSION_STATUSES`
abbrev pub decryptable_session_statuses : List String
decryptable_session_statuses = "active" ∷ "pending_remote_confirm" ∷ "ready" ∷ "established" ∷ []

unfoldable pub is_session_usable : Value → Bool
unfolding trimmed trim
is_session_usable status =
    let s = trimmed status in if is_empty s then false else includes decryptable_session_statuses s

-- `TRANSITIONS`, row by row; a text that is no state has no row.
unfoldable pub transitions : String → Option (List String)
transitions from =
    if str_eq from "invite_issued"
    then some ("accept_committed" ∷ "rejected" ∷ "failed" ∷ [])
    else if str_eq from "accept_committed"
    then some ("handshake_sent" ∷ "session_established" ∷ "degraded" ∷ "rejected" ∷ "failed" ∷ [])
    else if str_eq from "handshake_sent"
    then some ("session_established" ∷ "degraded" ∷ "rejected" ∷ "failed" ∷ [])
    else if str_eq from "handshake_received"
    then some ("session_established" ∷ "failed" ∷ [])
    else if str_eq from "session_established"
    then some ("session_established" ∷ "accept_committed" ∷ "degraded" ∷ "failed" ∷ [])
    else if str_eq from "degraded"
    then some ("accept_committed" ∷ "session_established" ∷ "rejected" ∷ "failed" ∷ [])
    else if str_eq from "rejected"
    then some ("accept_committed" ∷ [])
    else if str_eq from "failed"
    then some ("accept_committed" ∷ [])
    else none

-- The result of a check; `from` is `null` for a fresh link.
pub record Check : Type 0 where
  pub allowed : Bool
  pub from : Option String
  pub to : String

abbrev pub in_row : Option (List String) → String → Bool
in_row none to = false
in_row (some l) to = includes l to

-- The check on the trimmed texts.
unfoldable pub check_texts : String → String → Check
unfolding transitions
check_texts from to =
    if is_empty from
    then record { allowed = true; from = none; to = to }
    else if str_eq from to
    then record { allowed = true; from = some from; to = to }
    else record { allowed = in_row (transitions from) to; from = some from; to = to }

unfoldable pub check_transition : Value → Value → Check
check_transition from_state to_state = check_texts (trimmed from_state) (trimmed to_state)

-- What `assertTransition` does: it returns the check, or throws PEER_LINK_ILLEGAL_TRANSITION.
pub data Verdict : Type 0 where
  returned : Check → Verdict
  illegal_transition : Option String → String → Verdict

-- The calls of `onIllegal`, if the option is given, and the verdict.
unfoldable pub assert_transition : Value → Value → Bool → Bool → List Check × Verdict
assert_transition from_state to_state has_on_illegal strict =
    let result = check_transition from_state to_state in
    if result.allowed then ([], returned result) else (
      if has_on_illegal then result ∷ [] else [],
      if strict then illegal_transition result.from result.to else returned result,
    )

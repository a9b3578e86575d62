-- ===== src/PeerLink/Lifecycle/Graph.antt =====
-- The ways through the transition table, step by step as the check allows them.
use rez_sdk.Common.{◌≡◌, refl, ap, ◌∙◌, ◌⊎◌, Bool, true, false}
use rez_sdk.Common.Text.{trim}
use rez_sdk.Common.Value.{text, trimmed}
use rez_sdk.PeerLink.Lifecycle.{
  PeerLinkState, invite_issued, accept_committed, handshake_sent, handshake_received,
  session_established, degraded, rejected, failed, name, check_texts, check_transition,
}

-- The edges that the check allows between different states, and staying, for proofs by cases on them.
infix 40 ◌⟶◌ ◌⟶*◌
pub data ◌⟶◌ : PeerLinkState → PeerLinkState → Type 0 where
  -- an invite is accepted, or accepted anew to recover
  accept : invite_issued ⟶ accept_committed
  reaccept : session_established ⟶ accept_committed
  reaccept_degraded : degraded ⟶ accept_committed
  reaccept_rejected : rejected ⟶ accept_committed
  reaccept_failed : failed ⟶ accept_committed
  send : accept_committed ⟶ handshake_sent
  -- a session comes up
  confirm : accept_committed ⟶ session_established
  confirm_sent : handshake_sent ⟶ session_established
  confirm_received : handshake_received ⟶ session_established
  repair : degraded ⟶ session_established
  -- a session goes bad
  degrade_accept : accept_committed ⟶ degraded
  degrade_sent : handshake_sent ⟶ degraded
  degrade : session_established ⟶ degraded
  reject_invite : invite_issued ⟶ rejected
  reject_accept : accept_committed ⟶ rejected
  reject_sent : handshake_sent ⟶ rejected
  reject_degraded : degraded ⟶ rejected
  fail_invite : invite_issued ⟶ failed
  fail_accept : accept_committed ⟶ failed
  fail_sent : handshake_sent ⟶ failed
  fail_received : handshake_received ⟶ failed
  fail : session_established ⟶ failed
  fail_degraded : degraded ⟶ failed
  -- a state is written again
  stay : {s : PeerLinkState} → s ⟶ s

ruleset edges = (
  accept, reaccept, reaccept_degraded, reaccept_rejected, reaccept_failed, send, confirm,
  confirm_sent, confirm_received, repair, degrade_accept, degrade_sent, degrade, reject_invite,
  reject_accept, reject_sent, reject_degraded, fail_invite, fail_accept, fail_sent, fail_received,
  fail, fail_degraded, stay,
)

allowed-⟶ :
    (s t : PeerLinkState)
    → (check_transition (text (name s)) (text (name t))).allowed ≡ true
    → s ⟶ t
unfolding check_transition check_texts trimmed trim
allowed-⟶ invite_issued invite_issued h = first_of (cc, search edges)
allowed-⟶ invite_issued _ h = first_of (cc, search edges)
allowed-⟶ accept_committed invite_issued h = first_of (cc, search edges)
allowed-⟶ accept_committed _ h = first_of (cc, search edges)
allowed-⟶ handshake_sent invite_issued h = first_of (cc, search edges)
allowed-⟶ handshake_sent _ h = first_of (cc, search edges)
allowed-⟶ handshake_received invite_issued h = first_of (cc, search edges)
allowed-⟶ handshake_received _ h = first_of (cc, search edges)
allowed-⟶ session_established invite_issued h = first_of (cc, search edges)
allowed-⟶ session_established _ h = first_of (cc, search edges)
allowed-⟶ degraded invite_issued h = first_of (cc, search edges)
allowed-⟶ degraded _ h = first_of (cc, search edges)
allowed-⟶ rejected invite_issued h = first_of (cc, search edges)
allowed-⟶ rejected _ h = first_of (cc, search edges)
allowed-⟶ failed invite_issued h = first_of (cc, search edges)
allowed-⟶ failed _ h = first_of (cc, search edges)

⟶-allowed :
    {s t : PeerLinkState}
    → s ⟶ t
    → (check_transition (text (name s)) (text (name t))).allowed ≡ true
unfolding check_transition check_texts trimmed trim
⟶-allowed accept = refl
⟶-allowed {s} stay = stays s
  where
    stays : (s : PeerLinkState) → (check_transition (text (name s)) (text (name s))).allowed ≡ true
    stays invite_issued = refl
    stays _ = refl
⟶-allowed _ = refl

-- A way that the check allows step by step.
pub data ◌⟶*◌ : PeerLinkState → PeerLinkState → Type 0 where
  here : {s : PeerLinkState} → s ⟶* s
  then :
      {s u : PeerLinkState} (t : PeerLinkState)
      → (check_transition (text (name s)) (text (name t))).allowed ≡ true
      → t ⟶* u
      → s ⟶* u

step : {s t u : PeerLinkState} → s ⟶ t → t ⟶* u → s ⟶* u
step {t} e w = then t (⟶-allowed e) w

-- From every state there is a legal way to an established session.
pub ⟶*-session_established : (s : PeerLinkState) → s ⟶* session_established
⟶*-session_established session_established = here
⟶*-session_established invite_issued = search (here, step, accept, confirm)
⟶*-session_established accept_committed = search (here, step, confirm)
⟶*-session_established handshake_sent = search (here, step, confirm_sent)
⟶*-session_established handshake_received = search (here, step, confirm_received)
⟶*-session_established degraded = search (here, step, repair)
⟶*-session_established rejected = search (here, step, reaccept_rejected, confirm)
⟶*-session_established failed = search (here, step, reaccept_failed, confirm)

-- The states in which a link has ended.
abbrev pub is_over : PeerLinkState → Bool
is_over rejected = true
is_over failed = true
is_over _ = false

-- The states a link can only be created in.
abbrev pub is_initial : PeerLinkState → Bool
is_initial invite_issued = true
is_initial handshake_received = true
is_initial _ = false

⟶-initial : {s t : PeerLinkState} → s ⟶ t → is_initial t ≡ true → s ≡ t
⟶-initial stay h = refl
⟶-initial accept h = cc
⟶-initial _ h = cc

-- No legal way leads into `invite_issued` or `handshake_received` from another state: a link is
-- only created in them.
pub ⟶*-initial : {s t : PeerLinkState} → s ⟶* t → is_initial t ≡ true → s ≡ t
⟶*-initial here h = refl
⟶*-initial {s} (then t e w) h =
    let p = ⟶*-initial w h in ⟶-initial (allowed-⟶ s t e) (ap is_initial p ∙ h) ∙ p

-- A way whose first change of state is a new accept.
abbrev pub Reaccepts : {s t : PeerLinkState} → s ⟶* t → Type 0
Reaccepts here = ⊥
Reaccepts {s} (then u e w) = (u ≡ accept_committed) ⊎ ((u ≡ s) × Reaccepts w)

-- ===== src/Tests/PeerLink.antt =====
-- The life cycle of a peer link, on concrete states.
use rez_sdk.Common.{◌≡◌, refl, true, false, some}
use rez_sdk.Common.Text.{trim}
use rez_sdk.Common.Value.{undefined, text, trimmed}
use rez_sdk.PeerLink.Lifecycle.{
  is_session_usable, check_texts, check_transition, assert_transition, illegal_transition,
}

program : Unit {0}
unfolding check_transition check_texts trimmed trim assert_transition is_session_usable
program = tt

usable : is_session_usable (text " active ") ≡ true
unfolding program
usable = refl

unusable : is_session_usable undefined ≡ false
unfolding program
unusable = refl

fresh : (check_transition undefined (text "rejected")).allowed ≡ true
unfolding program
fresh = refl

refused : (check_transition (text "rejected") (text "session_established")).allowed ≡ false
unfolding program
refused = refl

strict :
    (assert_transition (text "failed") (text "degraded") true true).1
    ≡ illegal_transition (some "failed") "degraded"
unfolding program
strict = refl

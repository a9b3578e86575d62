-- ===== src/PeerLink/Lifecycle/Checks.antt =====
-- `checkTransition`, `assertTransition` and `isSessionUsable` on arbitrary values.
use rez_sdk.Common.{◌≡◌, refl, Bool, true, false, [], ◌∷◌, if◌then◌else◌}
use rez_sdk.Common.Value.{Value, text, trimmed, trimmed-trimmed}
use rez_sdk.PeerLink.Lifecycle.{returned, illegal_transition, check_transition, assert_transition}

-- White space around the two states does not matter: the check of the trimmed texts is the same.
pub check_transition-trimmed :
    (v w : Value) → check_transition (text (trimmed v)) (text (trimmed w)) ≡ check_transition v w
unfolding check_transition
check_transition-trimmed v w = rw (trimmed-trimmed v, trimmed-trimmed w)

-- When a transition is checked without `strict`, it is never refused: the check comes back.
-- With `strict` it is refused exactly if it is illegal, with the two states in the error.
-- `onIllegal` is called once for an illegal transition, before that, and not at all for a legal one.
pub assert_transition_lem :
    (v w : Value) (has_on_illegal strict : Bool)
    → let c = check_transition v w in
      ((c.allowed ≡ true → assert_transition v w has_on_illegal strict ≡ ([], returned c))
        × (c.allowed ≡ false → (assert_transition v w true strict).0 ≡ c ∷ [])
        × (c.allowed ≡ false
            → assert_transition v w has_on_illegal false
              ≡ ((if has_on_illegal then c ∷ [] else []), returned c))
        × (c.allowed ≡ false
            → (assert_transition v w has_on_illegal true).1 ≡ illegal_transition c.from c.to))
unfolding assert_transition
assert_transition_lem v w has_on_illegal strict =
    (λ h. rw h refl, λ h. rw h refl, λ h. rw h refl, λ h. rw h refl)

-- ===== src/Events/Bus/Subscription.antt =====
-- What `on` returns undoes it.
use rez_sdk.Common.{
  ℕ, ◌==◌, ◌≡◌, ◌≢◌, refl, ap, ◌∙◌, true, false, Option, none, some, List, [], ◌∷◌, ◌++◌, String,
  any, arith, tests, inl, inr, Bool-cases,
}
use rez_sdk.Common.Dict.{
  Dict, lookup, insert, lookup-insert_self, insert-insert, insert_same, erase-insert,
}
use rez_sdk.Events.Bus.{Handler, plain, wrapper, same, Bus, or_empty, delete, put_back, on, off}

==-refl : (n : ℕ) → (n == n) ≡ true
==-refl n = grind (arith, tests)

same_refl : (h : Handler) → same h h ≡ true
same_refl (plain i) = ==-refl i
same_refl (wrapper n i) = rw (==-refl n) (==-refl i)

delete-appended :
    (h : Handler) (hs : List Handler) → any (same h) hs ≡ false → delete h (hs ++ (h ∷ [])) ≡ hs
delete-appended h [] e = rw (same_refl h) refl
delete-appended h (g ∷ gs) e = elim (Bool-cases (same h g)) [
  | inl s ↦ absurd (ground (arith, s, e))
  | inr s ↦ rw s (ap (λ x. g ∷ x) (delete-appended h gs (ground (arith, s, e))))
]

-- The entry that is put back is the one from before.
put_back_same :
    (event : String) (o : Option (List Handler)) (x : List Handler) (m : Dict (List Handler))
    → lookup event m ≡ o
    → o ≢ some []
    → put_back event (or_empty o) (insert event x m) ≡ m
put_back_same event none x m e n = erase-insert event x m e
put_back_same event (some []) x m e n = absurd (n refl)
put_back_same event (some (g ∷ gs)) x m e n =
    insert-insert event (g ∷ gs) x m ∙ insert_same event (g ∷ gs) m e

-- To subscribe a handler that is not subscribed, and to take it off again, leaves the subscriptions as
-- they were, their order included, if the event had no empty set.
pub off-on :
    (event : String) (h : Handler) (b : Bus)
    → any (same h) (or_empty (lookup event b.handlers)) ≡ false
    → lookup event b.handlers ≢ some []
    → (off event h (on event h b)).handlers ≡ b.handlers
unfolding on off
off-on event h b fresh solid =
    let hs = or_empty (lookup event b.handlers) in
    rw fresh (
      rw (lookup-insert_self event (hs ++ (h ∷ [])) b.handlers) (
        rw (delete-appended h hs fresh)
          (put_back_same event (lookup event b.handlers) (hs ++ (h ∷ [])) b.handlers refl solid)))

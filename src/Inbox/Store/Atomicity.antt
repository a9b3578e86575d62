-- ===== src/Inbox/Store/Atomicity.antt =====
-- An operation that throws leaves the claims as they were.
use rez_sdk.Common.{
  ℕ, ◌≡◌, refl, subst, ◌∙◌, Bool, true, false, not, Option, none, some, String, if◌then◌else◌, ◌==◌,
  inl, inr, Option-cases,
}
use rez_sdk.Common.Value.{Number, Value}
use rez_sdk.Common.Dict.{Dict, lookup, insert, insert_same, insert-insert, erase-insert}
use rez_sdk.Inbox.Claim.{
  Capability, RetentionClass, CloseKeys, is_window, RawClaim, Claim, normalize_stored,
}
use rez_sdk.Inbox.Store.{
  Result, ok, err, Write, accepted, refused, landed_and_refused, Minted, Store, rows, persist_all,
  roll_back, commit, persist_claim, persist_read, persist, accept_lease, accept_found, remint_found,
  record_accepted_lease, remint_claim, remint_generation,
}

module _ (k : Capability) where
  roll_back-insert :
      (id : String) (c : Claim k) (m : Dict (Claim k))
      → roll_back k id (lookup id m) (insert id c m) ≡ m
  roll_back-insert id c m = elim (Option-cases (lookup id m)) [
    | inl e ↦ rw e (erase-insert id c m e)
    | inr (d, e) ↦ rw e (insert-insert id d c m ∙ insert_same id d m e)
  ]

  -- Either the operation succeeds and all claims are stored, or it throws and the claims are those from
  -- before.
  abbrev pub IsAtomic : {A : Type 0} → Store k → Store k × Result A → Type 0
  IsAtomic s (t, ok a) = t.stored ≡ rows k t.claims
  IsAtomic s (t, err f) = t.claims ≡ s.claims

  pub commit-IsAtomic :
      {A : Type 0} (w : Write) (id : String) (o : Option (Claim k)) (a : A) (c : Claim k)
      (s : Store k)
      → lookup id s.claims ≡ o
      → IsAtomic s (commit k id o a (persist_all k w (record s { claims = insert id c s.claims })))
  unfolding commit persist_all
  commit-IsAtomic accepted id o a c s e = refl
  commit-IsAtomic refused id o a c s e =
      subst (λ x. roll_back k id x (insert id c s.claims) ≡ s.claims) e
        (roll_back-insert id c s.claims)
  commit-IsAtomic landed_and_refused id o a c s e =
      subst (λ x. roll_back k id x (insert id c s.claims) ≡ s.claims) e
        (roll_back-insert id c s.claims)

  if-IsAtomic :
      {A : Type 0} (b : Bool) (s : Store k) (x y : Store k × Result A)
      → IsAtomic s x
      → IsAtomic s y
      → IsAtomic s (if b then x else y)
  if-IsAtomic true s x y h k = h
  if-IsAtomic false s x y h k = k

  persist_read-IsAtomic :
      (w : Write) (o : Option (Claim k)) (s : Store k) → IsAtomic s (persist_read k w o s)
  unfolding persist_read persist_claim
  persist_read-IsAtomic w none s = refl
  persist_read-IsAtomic w (some c) s = commit-IsAtomic w c.inbox_id _ _ _ s refl

  persist-IsAtomic : (w : Write) (r : RawClaim k) (s : Store k) → IsAtomic s (persist k w r s)
  unfolding persist
  persist-IsAtomic w r s =
      if-IsAtomic (not s.hydrated) s _ _ refl (persist_read-IsAtomic w (normalize_stored k r) s)

  accept_lease-IsAtomic :
      (w : Write) (id : String) (i e : Number) (o : Option RetentionClass) (c : Claim k)
      (s : Store k)
      → lookup id s.claims ≡ some c
      → IsAtomic s (accept_lease k w id i e o c s)
  unfolding accept_lease
  accept_lease-IsAtomic w id i e none c s f = refl
  accept_lease-IsAtomic w id i e (some cls) c s f = commit-IsAtomic w id (some c) _ _ s f

  accept_found-IsAtomic :
      (w : Write) (id : String) (i e : Number) (v : Value) (o : Option (Claim k)) (s : Store k)
      → lookup id s.claims ≡ o
      → IsAtomic s (accept_found k w id i e v o s)
  unfolding accept_found
  accept_found-IsAtomic w id i e v none s f = refl
  accept_found-IsAtomic w id i e v (some c) s f =
      if-IsAtomic (not (is_window i e)) s _ _ refl (accept_lease-IsAtomic w id i e _ c s f)

  record_accepted_lease-IsAtomic :
      (w : Write) (id i e v : Value) (s : Store k)
      → IsAtomic s (record_accepted_lease k w id i e v s)
  unfolding record_accepted_lease
  record_accepted_lease-IsAtomic w id i e v s =
      if-IsAtomic (not s.hydrated) s _ _ refl (accept_found-IsAtomic w _ _ _ _ _ s refl)

  remint_claim-IsAtomic :
      (w : Write) (id : String) (f : Option ℕ) (m : Minted) (c : Claim k) (o : Option CloseKeys)
      (s : Store k)
      → lookup id s.claims ≡ some c
      → IsAtomic s (remint_claim k w id f m c o s)
  unfolding remint_claim
  remint_claim-IsAtomic w id f m c none s e = refl
  remint_claim-IsAtomic w id none m c (some keys) s e = refl
  remint_claim-IsAtomic w id (some final) m c (some keys) s e =
      if-IsAtomic (not (keys.generation == final)) s _ _ refl
        (commit-IsAtomic w id (some c) _ _ s e)

  remint_found-IsAtomic :
      (w : Write) (id : String) (f : Option ℕ) (m : Minted) (o : Option (Claim k)) (s : Store k)
      → lookup id s.claims ≡ o
      → IsAtomic s (remint_found k w id f m o s)
  unfolding remint_found
  remint_found-IsAtomic w id f m none s e = refl
  remint_found-IsAtomic w id f m (some c) s e = remint_claim-IsAtomic w id f m c c.close_keys s e

  remint_generation-IsAtomic :
      (w : Write) (id f : Value) (m : Minted) (s : Store k)
      → IsAtomic s (remint_generation k w id f m s)
  unfolding remint_generation
  remint_generation-IsAtomic w id f m s =
      if-IsAtomic (not s.hydrated) s _ _ refl (remint_found-IsAtomic w _ _ m _ s refl)

  -- Whatever the key-value store does with the write, each of the three operations that change a claim either
  -- succeeds and has all claims stored, or throws and leaves the claims in memory as they were, their
  -- order included.
  pub store_IsAtomic :
      (w : Write) (s : Store k)
      → ((r : RawClaim k) → IsAtomic s (persist k w r s))
        × ((id issued expires retention : Value)
            → IsAtomic s (record_accepted_lease k w id issued expires retention s))
        × ((id final : Value) (m : Minted) → IsAtomic s (remint_generation k w id final m s))
  store_IsAtomic w s = (
    λ r. persist-IsAtomic w r s,
    λ id i e v. record_accepted_lease-IsAtomic w id i e v s,
    λ id f m. remint_generation-IsAtomic w id f m s,
  )

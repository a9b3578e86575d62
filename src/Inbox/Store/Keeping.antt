-- ===== src/Inbox/Store/Keeping.antt =====
-- Each operation keeps the claims filed under their inboxes and well-formed.
use rez_sdk.Common.{
  ℕ, ◌+◌, ◌≡◌, refl, sym, subst, Bool, true, false, not, Option, none, some, String, if◌then◌else◌,
  ◌==◌, arith,
}
use rez_sdk.Common.Value.{Number, Value}
use rez_sdk.Common.Dict.{Dict, lookup, insert, Entries-lookup}
use rez_sdk.Inbox.Claim.{Capability, RetentionClass, Lease, CloseKeys, is_window, RawClaim, Claim}
use rez_sdk.Inbox.Claim.RoundTrip.{
  IsTrimmed, IsTime, IsNormal, IsNormalLease, normalize_stored-IsNormal,
}
use rez_sdk.Inbox.Store.{
  Result, Write, accepted, refused, landed_and_refused, Minted, Store, persist_all, lease_at,
  or_lease, commit, persist_claim, persist_read, persist, accept_lease, accept_found, remint_found,
  accepted_lease, record_accepted_lease, next_generation, remint_claim, remint_generation,
}
use rez_sdk.Inbox.Store.Atomicity.{commit-IsAtomic}
use rez_sdk.Inbox.Store.Durability.{IsFiled, IsKept, insert_at-IsKept}

-- What the crypto provider and the clock give to a re-mint: texts that are no blanks and have no white
-- space around them, and a time after 0.
pub record IsMinted (m : Minted) : Type 0 where
  pub close_public : IsTrimmed m.close_public_key_b64
  pub close_private : IsTrimmed m.close_private_key_b64
  pub signature : IsTrimmed m.claim_signature_b64
  pub claimed : IsTime m.claimed_at_ms

not-false : (b : Bool) → not b ≡ false → b ≡ true
not-false b h = ground arith

module _ (k : Capability) where
  commit-IsKept :
      {A : Type 0} (w : Write) (id : String) (o : Option (Claim k)) (a : A) (c : Claim k)
      (s : Store k)
      → lookup id s.claims ≡ o
      → IsFiled k id c
      → IsKept k s.claims
      → IsKept k
          (commit k id o a (persist_all k w (record s { claims = insert id c s.claims }))).0.claims
  unfolding commit persist_all
  commit-IsKept accepted id o a c s e f h = insert_at-IsKept k id c s.claims f h
  commit-IsKept refused id o a c s e f h =
      subst (IsKept k) (sym (commit-IsAtomic k refused id o a c s e)) h
  commit-IsKept landed_and_refused id o a c s e f h =
      subst (IsKept k) (sym (commit-IsAtomic k landed_and_refused id o a c s e)) h

  if-IsKept :
      {A : Type 0} (b : Bool) (x y : Store k × Result A)
      → IsKept k x.0.claims
      → (b ≡ false → IsKept k y.0.claims)
      → IsKept k (if b then x else y).0.claims
  if-IsKept true x y h g = h
  if-IsKept false x y h g = g refl

  or_lease-IsNormalLease :
      (l o : Option Lease) → IsNormalLease l → IsNormalLease o → IsNormalLease (or_lease l o)
  or_lease-IsNormalLease none o h g = g
  or_lease-IsNormalLease (some l) o h g = h

  lease_at-IsNormalLease :
      (id : String) (m : Dict (Claim k)) (o : Option (Claim k))
      → lookup id m ≡ o
      → IsKept k m
      → IsNormalLease (lease_at k o)
  lease_at-IsNormalLease id m none e h = tt
  lease_at-IsNormalLease id m (some c) e h = (Entries-lookup (IsFiled k) id m e h.filed).1.leased

  with_lease-IsNormal :
      (c : Claim k) (l : Option Lease)
      → IsNormal k c
      → IsNormalLease l
      → IsNormal k (record c { lease = l })
  with_lease-IsNormal c l n g = record {
    inbox_id = n.inbox_id;
    claimant_public = n.claimant_public;
    claimant_private = n.claimant_private;
    signature = n.signature;
    claimed = n.claimed;
    keys = n.keys;
    leased = g;
  }

  persist_read-IsKept :
      (w : Write) (o : Option (Claim k)) (s : Store k)
      → ((c : Claim k) → o ≡ some c → IsNormal k c)
      → IsKept k s.claims
      → IsKept k (persist_read k w o s).0.claims
  unfolding persist_read persist_claim
  persist_read-IsKept w none s n h = h
  persist_read-IsKept w (some c) s n h =
      let found = lookup c.inbox_id s.claims in
      let lease =
        or_lease-IsNormalLease c.lease (lease_at k found) (n c refl).leased
          (lease_at-IsNormalLease c.inbox_id s.claims found refl h) in
      commit-IsKept w c.inbox_id found _ _ s refl
        (refl, with_lease-IsNormal c (or_lease c.lease (lease_at k found)) (n c refl) lease) h

  pub persist-IsKept :
      (w : Write) (r : RawClaim k) (s : Store k)
      → IsKept k s.claims
      → IsKept k (persist k w r s).0.claims
  unfolding persist
  persist-IsKept w r s h =
      if-IsKept (not s.hydrated) _ _ h
        (λ _. persist_read-IsKept w _ s (λ c e. normalize_stored-IsNormal k r c e) h)

  accept_lease-IsKept :
      (w : Write) (id : String) (i e : Number) (o : Option RetentionClass) (c : Claim k)
      (s : Store k)
      → is_window i e ≡ true
      → lookup id s.claims ≡ some c
      → IsKept k s.claims
      → IsKept k (accept_lease k w id i e o c s).0.claims
  unfolding accept_lease
  accept_lease-IsKept w id i e none c s win f h = h
  accept_lease-IsKept w id i e (some cls) c s win f h =
      let (same, n) = Entries-lookup (IsFiled k) id s.claims f h.filed in
      commit-IsKept w id (some c) _ _ s f
        (same, with_lease-IsNormal c (some (accepted_lease i e cls)) n win) h

  accept_found-IsKept :
      (w : Write) (id : String) (i e : Number) (v : Value) (o : Option (Claim k)) (s : Store k)
      → lookup id s.claims ≡ o
      → IsKept k s.claims
      → IsKept k (accept_found k w id i e v o s).0.claims
  unfolding accept_found
  accept_found-IsKept w id i e v none s f h = h
  accept_found-IsKept w id i e v (some c) s f h =
      if-IsKept (not (is_window i e)) _ _ h
        (λ win. accept_lease-IsKept w id i e _ c s (not-false (is_window i e) win) f h)

  pub record_accepted_lease-IsKept :
      (w : Write) (id i e v : Value) (s : Store k)
      → IsKept k s.claims
      → IsKept k (record_accepted_lease k w id i e v s).0.claims
  unfolding record_accepted_lease
  record_accepted_lease-IsKept w id i e v s h =
      if-IsKept (not s.hydrated) _ _ h (λ _. accept_found-IsKept w _ _ _ _ _ s refl h)

  next_generation-IsNormal :
      (g : ℕ) (m : Minted) (c : Claim k)
      → IsMinted m
      → IsNormal k c
      → IsNormal k (next_generation k (g + 1) m c)
  unfolding next_generation
  next_generation-IsNormal g m c i n = record {
    inbox_id = n.inbox_id;
    claimant_public = n.claimant_public;
    claimant_private = n.claimant_private;
    signature = i.signature;
    claimed = i.claimed;
    keys = (i.close_public, i.close_private, omega arith);
    leased = tt;
  }

  remint_claim-IsKept :
      (w : Write) (id : String) (f : Option ℕ) (m : Minted) (c : Claim k) (o : Option CloseKeys)
      (s : Store k)
      → IsMinted m
      → lookup id s.claims ≡ some c
      → IsKept k s.claims
      → IsKept k (remint_claim k w id f m c o s).0.claims
  unfolding remint_claim next_generation
  remint_claim-IsKept w id f m c none s i e h = h
  remint_claim-IsKept w id none m c (some keys) s i e h = h
  remint_claim-IsKept w id (some final) m c (some keys) s i e h =
      if-IsKept (not (keys.generation == final)) _ _ h (λ _.
        let (same, n) = Entries-lookup (IsFiled k) id s.claims e h.filed in
        commit-IsKept w id (some c) _ _ s e (same, next_generation-IsNormal final m c i n) h)

  remint_found-IsKept :
      (w : Write) (id : String) (f : Option ℕ) (m : Minted) (o : Option (Claim k)) (s : Store k)
      → IsMinted m
      → lookup id s.claims ≡ o
      → IsKept k s.claims
      → IsKept k (remint_found k w id f m o s).0.claims
  unfolding remint_found
  remint_found-IsKept w id f m none s i e h = h
  remint_found-IsKept w id f m (some c) s i e h =
      remint_claim-IsKept w id f m c c.close_keys s i e h

  pub remint_generation-IsKept :
      (w : Write) (id f : Value) (m : Minted) (s : Store k)
      → IsMinted m
      → IsKept k s.claims
      → IsKept k (remint_generation k w id f m s).0.claims
  unfolding remint_generation
  remint_generation-IsKept w id f m s i h =
      if-IsKept (not s.hydrated) _ _ h (λ _. remint_found-IsKept w _ _ m _ s i refl h)

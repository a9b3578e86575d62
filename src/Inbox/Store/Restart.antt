-- ===== src/Inbox/Store/Restart.antt =====
-- A restart of the program.
use rez_sdk.Common.{◌≡◌, refl, ap, ◌∙◌, Bool, true, false, List, [], ◌∷◌, All}
use rez_sdk.Common.Value.{Value}
use rez_sdk.Inbox.Claim.{Capability, IsFaithful, RawClaim}
use rez_sdk.Inbox.Store.{
  Result, ok, err, Write, Minted, Store, rows, load, hydrate, persist, record_accepted_lease,
  remint_generation,
}
use rez_sdk.Inbox.Store.Atomicity.{IsAtomic, store_IsAtomic}
use rez_sdk.Inbox.Store.Durability.{IsKept, load-IsKept, load-rows_nil}
use rez_sdk.Inbox.Store.Keeping.{
  IsMinted, persist-IsKept, record_accepted_lease-IsKept, remint_generation-IsKept,
}

module _ (k : Capability) where
  -- The operations that change claims.
  pub data StoreOp : Type 0 where
    persist_op : Write → RawClaim k → StoreOp
    lease_op : Write → Value → Value → Value → Value → StoreOp
    remint_op : Write → Value → Value → Minted → StoreOp

  abbrev pub succeeded : {A : Type 0} → Store k × Result A → Store k × Bool
  succeeded (s, ok _) = (s, true)
  succeeded (s, err _) = (s, false)

  unfoldable pub perform : StoreOp → Store k → Store k × Bool
  perform (persist_op w r) s = succeeded (persist k w r s)
  perform (lease_op w id i e v) s = succeeded (record_accepted_lease k w id i e v s)
  perform (remint_op w id f m) s = succeeded (remint_generation k w id f m s)

  unfoldable pub perform_all : List StoreOp → Store k → Store k
  perform_all [] s = s
  perform_all (o ∷ os) s = perform_all os (perform o s).0

  abbrev pub IsMintedOp : StoreOp → Type 0
  IsMintedOp (remint_op w id f m) = IsMinted m
  IsMintedOp _ = Unit

  -- A program that starts, with what is stored.
  abbrev pub start : List (RawClaim k) → Store k
  start stored = hydrate k (record { claims = []; hydrated = false; stored = stored })

  start-IsKept : (stored : List (RawClaim k)) → IsKept k (start stored).claims
  unfolding hydrate
  start-IsKept stored = load-IsKept k stored [] (record { distinct = tt; filed = tt })

  succeeded-claims : {A : Type 0} (x : Store k × Result A) → (succeeded x).0 ≡ x.0
  succeeded-claims (s, ok a) = refl
  succeeded-claims (s, err f) = refl

  perform-IsKept :
      (o : StoreOp) (s : Store k)
      → IsMintedOp o
      → IsKept k s.claims
      → IsKept k (perform o s).0.claims
  unfolding perform
  perform-IsKept (persist_op w r) s i h =
      rw (succeeded-claims (persist k w r s)) (persist-IsKept k w r s h)
  perform-IsKept (lease_op w id e x v) s i h =
      rw (succeeded-claims (record_accepted_lease k w id e x v s))
        (record_accepted_lease-IsKept k w id e x v s h)
  perform-IsKept (remint_op w id f m) s i h =
      rw (succeeded-claims (remint_generation k w id f m s))
        (remint_generation-IsKept k w id f m s i h)

  perform_all-IsKept :
      (os : List StoreOp) (s : Store k)
      → All IsMintedOp os
      → IsKept k s.claims
      → IsKept k (perform_all os s).claims
  unfolding perform_all
  perform_all-IsKept [] s i h = h
  perform_all-IsKept (o ∷ os) s (i, is) h =
      perform_all-IsKept os (perform o s).0 is (perform-IsKept o s i h)

  succeeded-stored :
      {A : Type 0} (s : Store k) (x : Store k × Result A)
      → IsAtomic k s x
      → (succeeded x).1 ≡ true
      → (succeeded x).0.stored ≡ rows k (succeeded x).0.claims
  succeeded-stored s (t, ok a) h e = h
  succeeded-stored s (t, err f) h e = cc

  perform-stored :
      (o : StoreOp) (s : Store k)
      → (perform o s).1 ≡ true
      → (perform o s).0.stored ≡ rows k (perform o s).0.claims
  unfolding perform
  perform-stored (persist_op w r) s e = succeeded-stored s _ ((store_IsAtomic k w s).0 r) e
  perform-stored (lease_op w id i x v) s e =
      succeeded-stored s _ ((store_IsAtomic k w s).1 id i x v) e
  perform-stored (remint_op w id f m) s e = succeeded-stored s _ ((store_IsAtomic k w s).2 id f m) e

  -- Provided that a capability is read back from its JSON, and that what a re-mint draws is trimmed, no
  -- blank, and at a time after 0: after any operations on a store that was started, whatever lay in
  -- the storage, an operation that succeeds is durable: a program that starts again finds exactly
  -- the claims that are in memory.
  pub perform_durable :
      (faithful : IsFaithful k) (stored : List (RawClaim k)) (os : List StoreOp) (o : StoreOp)
      → All IsMintedOp os
      → IsMintedOp o
      → (perform o (perform_all os (start stored))).1 ≡ true
      → let t = (perform o (perform_all os (start stored))).0 in (start t.stored).claims ≡ t.claims
  unfolding hydrate
  perform_durable faithful stored os o is i e =
      let s = perform_all os (start stored) in
      let kept =
        perform-IsKept o s i (perform_all-IsKept os (start stored) is (start-IsKept stored)) in
      ap (load k []) (perform-stored o s e) ∙ load-rows_nil k faithful _ kept

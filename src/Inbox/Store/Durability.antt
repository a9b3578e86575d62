-- ===== src/Inbox/Store/Durability.antt =====
-- What is stored is what is in memory: a restart finds the same claims.
use rez_sdk.Common.{
  ◌≡◌, refl, sym, ap, subst, ◌∙◌, none, List, [], ◌∷◌, ◌++◌, String, str_eq, arith, inl, inr,
  Bool-cases, Option-cases,
}
use mathlib.Core.List.{append_assoc, append-nil}
use rez_sdk.Common.Dict.{
  Dict, lookup, insert, insert_absent, lookup-append_one, Distinct, Distinct-insert, Entries,
  Entries-insert, str_eq_sym,
}
use rez_sdk.Inbox.Claim.{Capability, IsFaithful, RawClaim, Claim, normalize_stored}
use rez_sdk.Inbox.Claim.RoundTrip.{IsNormal, normalize_stored-row_of, normalize_stored-IsNormal}
use rez_sdk.Inbox.Store.{rows, load, load_one}

module _ (k : Capability) where
  -- A claim stands under its own inbox and is well-formed.
  abbrev pub IsFiled : String → Claim k → Type 0
  IsFiled id c = (id ≡ c.inbox_id) × IsNormal k c

  -- No inbox twice, and every claim filed.
  pub record IsKept (m : Dict (Claim k)) : Type 0 where
    pub distinct : Distinct m
    pub filed : Entries IsFiled m

  insert-IsKept :
      (c : Claim k) (m : Dict (Claim k)) → IsNormal k c → IsKept m → IsKept (insert c.inbox_id c m)
  insert-IsKept c m n h = record {
    distinct = Distinct-insert c.inbox_id c m h.distinct;
    filed = Entries-insert IsFiled c.inbox_id c m (refl, n) h.filed;
  }

  pub insert_at-IsKept :
      (id : String) (c : Claim k) (m : Dict (Claim k))
      → IsFiled id c
      → IsKept m
      → IsKept (insert id c m)
  insert_at-IsKept id c m (e, n) h =
      subst (λ x. IsKept (insert x c m)) (sym e) (insert-IsKept c m n h)

  pub load-IsKept : (rs : List (RawClaim k)) (m : Dict (Claim k)) → IsKept m → IsKept (load k m rs)
  unfolding load
  load-IsKept [] m h = h
  load-IsKept (r ∷ rs) m h = elim (Option-cases (normalize_stored k r)) [
    | inl e ↦ rw e (load-IsKept rs m h)
    | inr (c, e) ↦ rw e (
        load-IsKept rs (insert c.inbox_id c m)
          (insert-IsKept c m (normalize_stored-IsNormal k r c e) h))
  ]

  -- None of the inboxes of `m` is among those of `done`.
  abbrev Apart : Dict (Claim k) → Dict (Claim k) → Type 0
  Apart done m = Entries (λ id c. lookup id done ≡ none) m

  Apart-append :
      (id : String) (c : Claim k) (done m : Dict (Claim k))
      → lookup id m ≡ none
      → Apart done m
      → Apart (done ++ (id, c) ∷ []) m
  unfolding lookup
  Apart-append id c done [] e h = tt
  Apart-append id c done ((j, d) ∷ m) e (a, h) = elim (Bool-cases (str_eq j id)) [
    | inl f ↦ absurd (ground arith)
    | inr f ↦ (
      lookup-append_one id j c done a (str_eq_sym j id f),
      Apart-append id c done m (rw f at e) h,
    )
  ]

  module _ (faithful : IsFaithful k) where
    load-rows :
        (done m : Dict (Claim k))
        → Apart done m
        → Distinct m
        → Entries IsFiled m
        → load k done (rows k m) ≡ done ++ m
    unfolding load rows
    load-rows done [] a d f = sym (append-nil done)
    load-rows done ((id, c) ∷ m) (new, a) (h, d) ((e, n), f) =
        ap (λ o. load k (load_one k o done) (rows k m)) (normalize_stored-row_of k faithful c n)
        ∙ (subst (λ x. load k (insert x c done) (rows k m) ≡ done ++ (id, c) ∷ m) e
            (rw (insert_absent id c done new) (
              load-rows (done ++ (id, c) ∷ []) m (Apart-append id c done m h a) d f
              ∙ append_assoc done ((id, c) ∷ []) m)))

    Apart-nil : (m : Dict (Claim k)) → Apart [] m
    unfolding lookup
    Apart-nil [] = tt
    Apart-nil ((id, c) ∷ m) = (refl, Apart-nil m)

    -- Loading the rows of well-kept claims gives those claims, in their order.
    pub load-rows_nil : (m : Dict (Claim k)) → IsKept m → load k [] (rows k m) ≡ m
    load-rows_nil m h = load-rows [] m (Apart-nil m) h.distinct h.filed

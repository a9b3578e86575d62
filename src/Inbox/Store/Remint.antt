-- ===== src/Inbox/Store/Remint.antt =====
-- A closed inbox is minted anew once for each generation.
use rez_sdk.Common.{
  ℕ, ◌+◌, ◌≡◌, refl, sym, ap, subst, ◌∙◌, true, false, Option, none, some, String, str_eq, arith,
  inl, inr, Bool-cases,
}
use rez_sdk.Common.Value.{Value, trimmed}
use rez_sdk.Common.Dict.{lookup, insert, lookup-insert, lookup-insert_self}
use rez_sdk.Inbox.Claim.{Capability, CloseKeys, Claim}
use rez_sdk.Inbox.Store.{
  Result, ok, err, generation_conflict, Write, accepted, Minted, Generations, Store, persist_all,
  commit, next_generation, remint_claim, remint_found, remint_generation, final_generation_of,
}

module _ (k : Capability) where
  -- What a re-mint that succeeded has done to the claim `c` of the inbox `id`.
  record IsReminted (id : String) (f : Option ℕ) (m : Minted) (c : Claim k) (s t : Store k)
      (g : Generations) : Type 0 where
    final : f ≡ some g.from_generation
    next : g.to_generation ≡ g.from_generation + 1
    hydrated : t.hydrated ≡ s.hydrated
    claims : t.claims ≡ insert id (next_generation k g.to_generation m c) s.claims

  remint_claim-ok :
      (w : Write) (id : String) (f : Option ℕ) (m : Minted) (c : Claim k) (o : Option CloseKeys)
      (s : Store k) (g : Generations)
      → (remint_claim k w id f m c o s).1 ≡ ok g
      → IsReminted id f m c s (remint_claim k w id f m c o s).0 g
  unfolding remint_claim commit persist_all
  remint_claim-ok w id f m c none s g e = ground arith
  remint_claim-ok w id none m c (some keys) s g e = ground arith
  remint_claim-ok accepted id (some final) m c (some keys) s g e = ground arith
  remint_claim-ok _ id (some final) m c (some keys) s g e = ground arith

  remint_found-ok :
      (w : Write) (id : String) (f : Option ℕ) (m : Minted) (o : Option (Claim k)) (s : Store k)
      (g : Generations)
      → (remint_found k w id f m o s).1 ≡ ok g
      → (c : Claim k) × (o ≡ some c) × IsReminted id f m c s (remint_found k w id f m o s).0 g
  unfolding remint_found
  remint_found-ok w id f m none s g e = absurd (ground arith)
  remint_found-ok w id f m (some c) s g e = (c, refl, remint_claim-ok w id f m c c.close_keys s g e)

  remint_generation-ok :
      (w : Write) (id f : Value) (m : Minted) (s : Store k) (g : Generations)
      → (remint_generation k w id f m s).1 ≡ ok g
      → (s.hydrated ≡ true)
        × ((c : Claim k) × (lookup (trimmed id) s.claims ≡ some c)
            × IsReminted
                (trimmed id)
                (final_generation_of f)
                m
                c
                s
                (remint_generation k w id f m s).0
                g)
  unfolding remint_generation
  remint_generation-ok w id f m s g e = elim (Bool-cases s.hydrated) [
    | inr h ↦ absurd (ground arith)
    | inl h ↦
        let same : remint_generation k w id f m s
            ≡ remint_found k w (trimmed id) (final_generation_of f) m (lookup (trimmed id) s.claims)
                s =
          simp h in
        let (c, found, r) =
          remint_found-ok w _ _ m _ s g
            (ap (λ (x : Store k × Result Generations). x.1) (sym same) ∙ e) in
        (
          h,
          (
            c,
            found,
            subst
                (λ (x : Store k × Result Generations).
                  IsReminted (trimmed id) (final_generation_of f) m c s x.0 g)
                (sym same) r,
          ),
        )
  ]

  remint_hydrated :
      (w : Write) (id f : Value) (m : Minted) (s : Store k)
      → s.hydrated ≡ true
      → (remint_generation k w id f m s).1
        ≡ (remint_found k w
            (trimmed id)
            (final_generation_of f)
            m
            (lookup (trimmed id) s.claims)
            s).1
  unfolding remint_generation
  remint_hydrated w id f m s h = simp h

  remint_found-conflict :
      (w : Write) (id : String) (n : ℕ) (m m' : Minted) (c : Claim k) (s : Store k)
      {o : Option (Claim k)}
      → o ≡ some (next_generation k (n + 1) m' c)
      → (remint_found k w id (some n) m o s).1 ≡ err generation_conflict
  unfolding remint_found remint_claim next_generation
  remint_found-conflict w id n m m' c s e = rw e (ground arith)

  -- A re-mint that succeeds moves the inbox from the provider's final generation to the next one, with the
  -- claim as described by `next_generation`, and leaves all other inboxes alone. The same evidence cannot be used
  -- again: a second re-mint with it is refused as a conflict, whatever the key-value store does.
  pub remint_generation_once :
      (w w' : Write) (id f : Value) (m m' : Minted) (s : Store k) (g : Generations)
      → (remint_generation k w id f m s).1 ≡ ok g
      → let t = (remint_generation k w id f m s).0 in
        (final_generation_of f ≡ some g.from_generation)
        × (g.to_generation ≡ g.from_generation + 1)
        × ((c : Claim k) × (lookup (trimmed id) s.claims ≡ some c)
            × (lookup (trimmed id) t.claims ≡ some (next_generation k g.to_generation m c)))
        × ((j : String) → str_eq (trimmed id) j ≡ false → lookup j t.claims ≡ lookup j s.claims)
        × ((remint_generation k w' id f m' t).1 ≡ err generation_conflict)
  remint_generation_once w w' id f m m' s g e =
      let t = (remint_generation k w id f m s).0 in
      let (open_, (c, found, r)) = remint_generation-ok w id f m s g e in
      let there =
        ap (lookup (trimmed id)) r.claims
        ∙ lookup-insert_self (trimmed id) (next_generation k g.to_generation m c) s.claims in
      (
        r.final,
        r.next,
        (c, found, there),
        λ j n.
            ap (lookup j) r.claims
            ∙ lookup-insert (trimmed id) j (next_generation k g.to_generation m c) s.claims
            ∙ rw n refl,
        remint_hydrated w' id f m' t (r.hydrated ∙ open_)
            ∙ rw r.final (
                remint_found-conflict w' (trimmed id) g.from_generation m' m c t
                  (there ∙ ap (λ x. some (next_generation k x m c)) r.next)),
      )

-- ===== src/Common/Dict.antt =====
-- A JavaScript `Map` with text keys: entries in insertion order; `set` on a present key keeps its
-- place.
use Prim.Native.String.{String}
use mathlib.Core.Path.{◌≡◌, refl, sym, subst, ◌∙◌}
use mathlib.Core.Logic.{inl, inr}
use mathlib.Core.Bool.{false}
use mathlib.Core.Option.{Option, none, some}
use mathlib.Core.List.{List, [], ◌∷◌, ◌++◌}
use native.Mathlib.Omega.{arith}
use text.Mathlib.Text.{◌==◌ as str_eq}
use text.Mathlib.TextEquality.{eq_iff}
use text.Mathlib.TextPositions.{eq_refl}
use rez_sdk.Common.Tests.{if◌then◌else◌, Bool-cases, some_eq}

abbrev pub Dict {ℓ} : Type ℓ → Type ℓ
Dict V = List (String × V)

pub str_eq_sym : (i k : String) → str_eq i k ≡ false → str_eq k i ≡ false
str_eq_sym i k e = ground (arith, eq_iff i k, eq_iff k i)

module _ {ℓ} {V : Type ℓ} where
  unfoldable pub lookup : String → Dict V → Option V
  lookup key [] = none
  lookup key ((held, value) ∷ entries) =
      let rest = lookup key entries in if str_eq held key then some value else rest

  -- A key that is there keeps its place; a new one goes to the end.
  unfoldable pub insert : String → V → Dict V → Dict V
  insert key new [] = (key, new) ∷ []
  insert key new ((held, value) ∷ entries) =
      let rest = insert key new entries in
      if str_eq held key then (held, new) ∷ entries else (held, value) ∷ rest

  unfoldable pub erase : String → Dict V → Dict V
  erase k [] = []
  erase k ((j, w) ∷ m) = let rest = erase k m in if str_eq j k then rest else (j, w) ∷ rest

  pub lookup-insert :
      (key other : String) (new : V) (entries : Dict V)
      → lookup other (insert key new entries)
        ≡ (if str_eq key other then some new else lookup other entries)
  unfolding lookup insert
  lookup-insert key other new [] = refl
  lookup-insert key other new ((held, value) ∷ entries) =
      let rest = lookup-insert key other new entries in
      ground (eq_iff held key, eq_iff held other, eq_iff key other, rest, arith)

  pub lookup-insert_self :
      (key : String) (new : V) (entries : Dict V) → lookup key (insert key new entries) ≡ some new
  lookup-insert_self key new entries = rw (lookup-insert key key new entries, eq_refl key) refl

  pub lookup-erase :
      (k j : String) (m : Dict V) → lookup j (erase k m) ≡ (if str_eq k j then none else lookup j m)
  unfolding lookup erase
  lookup-erase k j [] = ground arith
  lookup-erase k j ((i, w) ∷ m) =
      ground (arith, eq_iff k j, eq_iff i k, eq_iff i j, lookup-erase k j m)

  -- To write back what is there changes nothing.
  pub insert_same : (k : String) (v : V) (m : Dict V) → lookup k m ≡ some v → insert k v m ≡ m
  unfolding lookup insert
  insert_same k v [] h = cc
  insert_same k v ((i, w) ∷ m) h = ground (arith, insert_same k v m)

  -- A second write to a key overrides the first, and keeps the order.
  pub insert-insert : (k : String) (v w : V) (m : Dict V) → insert k v (insert k w m) ≡ insert k v m
  unfolding insert
  insert-insert k v w [] = ground (arith, eq_refl k)
  insert-insert k v w ((i, u) ∷ m) = ground (arith, eq_iff i k, insert-insert k v w m)

  -- To remove a key that was just added undoes the addition.
  pub erase-insert :
      (k : String) (v : V) (m : Dict V) → lookup k m ≡ none → erase k (insert k v m) ≡ m
  unfolding lookup insert erase
  erase-insert k v [] h = ground (arith, eq_refl k)
  erase-insert k v ((i, u) ∷ m) h = ground (arith, eq_iff i k, erase-insert k v m)

  -- A key that is new goes to the end.
  pub insert_absent :
      (k : String) (v : V) (m : Dict V) → lookup k m ≡ none → insert k v m ≡ m ++ (k, v) ∷ []
  unfolding lookup insert
  insert_absent k v [] h = refl
  insert_absent k v ((i, u) ∷ m) h = ground (arith, insert_absent k v m)

  pub lookup-append_one :
      (k j : String) (v : V) (m : Dict V)
      → lookup j m ≡ none
      → str_eq k j ≡ false
      → lookup j (m ++ (k, v) ∷ []) ≡ none
  unfolding lookup
  lookup-append_one k j v [] h e = rw e refl
  lookup-append_one k j v ((i, u) ∷ m) h e = ground (arith, lookup-append_one k j v m)

  -- No key stands twice.
  abbrev pub Distinct : Dict V → Type ℓ
  Distinct [] = Unit
  Distinct ((k, v) ∷ m) = (lookup k m ≡ none) × Distinct m

  pub Distinct-insert : (k : String) (v : V) (m : Dict V) → Distinct m → Distinct (insert k v m)
  unfolding lookup insert
  Distinct-insert k v [] d = (refl, tt)
  Distinct-insert k v ((i, u) ∷ m) (h, d) = elim (Bool-cases (str_eq i k)) [
    | inl e ↦ rw e (h, d)
    | inr e ↦ rw e (lookup-insert k i v m ∙ rw (str_eq_sym i k e) h, Distinct-insert k v m d)
  ]

  pub Distinct-erase : (k : String) (m : Dict V) → Distinct m → Distinct (erase k m)
  unfolding erase
  Distinct-erase k [] d = tt
  Distinct-erase k ((i, u) ∷ m) (h, d) = elim (Bool-cases (str_eq i k)) [
    | inl e ↦ rw e (Distinct-erase k m d)
    | inr e ↦ rw e (lookup-erase k i m ∙ rw (str_eq_sym i k e) h, Distinct-erase k m d)
  ]

  -- Every entry has the property.
  abbrev pub Entries {κ} : (String → V → Type κ) → Dict V → Type κ
  Entries P [] = Unit
  Entries P ((k, v) ∷ m) = P k v × Entries P m

  pub Entries-insert {κ} :
      (P : String → V → Type κ) (k : String) (v : V) (m : Dict V)
      → P k v
      → Entries P m
      → Entries P (insert k v m)
  unfolding insert
  Entries-insert P k v [] p h = (p, tt)
  Entries-insert P k v ((i, u) ∷ m) p (q, h) = elim (Bool-cases (str_eq i k)) [
    | inl e ↦ rw e (subst (λ x. P x v) (sym ((eq_iff i k).0 e)) p, h)
    | inr e ↦ rw e (q, Entries-insert P k v m p h)
  ]

  pub Entries-erase {κ} :
      (P : String → V → Type κ) (k : String) (m : Dict V) → Entries P m → Entries P (erase k m)
  unfolding erase
  Entries-erase P k [] h = tt
  Entries-erase P k ((i, u) ∷ m) (q, h) = elim (Bool-cases (str_eq i k)) [
    | inl e ↦ rw e (Entries-erase P k m h)
    | inr e ↦ rw e (q, Entries-erase P k m h)
  ]

  pub Entries-lookup {κ} :
      (P : String → V → Type κ) (k : String) (m : Dict V) {v : V}
      → lookup k m ≡ some v
      → Entries P m
      → P k v
  unfolding lookup
  Entries-lookup P k [] e h = cc
  Entries-lookup P k ((i, u) ∷ m) {v} e (q, h) = elim (Bool-cases (str_eq i k)) [
    | inl f ↦ subst (P k) (some_eq (rw f at e)) (subst (λ x. P x u) ((eq_iff i k).0 f) q)
    | inr f ↦ Entries-lookup P k m (rw f at e) h
  ]

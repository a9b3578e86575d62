-- ===== src/PeerLink/Storage/Reading.antt =====
-- What is read back from a lawful store, and what a successful chain of checks says.
use Prim.Native.String.{◌++◌ as append}
use rez_sdk.Common.{
  ◌≡◌, refl, sym, ap, ◌∙◌, Bool, true, false, none, some, String, str_eq, eq_refl, if◌then◌else◌,
  inl, inr, Bool-cases, arith,
}
use rez_sdk.Common.Text.{trim, is_empty}
use rez_sdk.PeerLink.Storage.Base.{
  Stored, KeyValueStore, IsLawful, StorageError, Result, ok, throws, ◌>>=◌, ◌>>◌, ensure, absence,
  read, assert_non_empty, key_of, joined,
}

-- A chain that ends well has gone well so far.
pub >>=-eq-ok {ℓ κ} :
    {A : Type ℓ} {B : Type κ} (check : Result A) (next : A → Result B) {last : B}
    → (check >>= next) ≡ ok last
    → (value : A) × (check ≡ ok value) × (next value ≡ ok last)
>>=-eq-ok (throws e) next came = cc
>>=-eq-ok (ok value) next came = (value, refl, came)

pub ensure-eq-ok {ℓ} :
    {B : Type ℓ} (t : Bool) (e : StorageError) (m : Result B) {b : B}
    → (ensure t e >> m) ≡ ok b
    → (t ≡ true) × (m ≡ ok b)
ensure-eq-ok true e m h = (refl, h)
ensure-eq-ok false e m h = cc

pub ok-injective {ℓ} : {A : Type ℓ} {x y : A} → ok x ≡ ok y → x ≡ y
ok-injective e = cc

pub assert_non_empty-ok :
    (v label : String) {t : String}
    → assert_non_empty v label ≡ ok t
    → (t ≡ trim v) × (is_empty t ≡ false)
unfolding assert_non_empty
assert_non_empty-ok v label {t} h = elim (Bool-cases (is_empty (trim v))) [
  | inl e ↦ absurd (ground arith)
  | inr e ↦ ground arith
]

-- Where a key comes from.
pub key_of-ok :
    (prefix owner owner_label id id_label : String) {key : String}
    → key_of prefix owner owner_label id id_label ≡ ok key
    → key ≡ append prefix (joined (trim owner) (trim id))
unfolding key_of
key_of-ok prefix owner owner_label id id_label {key} h =
    let (a, ha, h1) = >>=-eq-ok (assert_non_empty owner owner_label) _ h in
    let (b, hb, h2) = >>=-eq-ok (assert_non_empty id id_label) _ h1 in
    sym (ok-injective h2)
    ∙ ap (λ x. append prefix (joined x b)) (assert_non_empty-ok owner owner_label ha).0
    ∙ ap (λ x. append prefix (joined (trim owner) x)) (assert_non_empty-ok id id_label hb).0

module _ (kv : KeyValueStore) (law : IsLawful kv) where
  pub read-set :
      (k j : String) (v : Stored) (s : kv.State)
      → read kv j (kv.set k v s) ≡ (if str_eq k j then absence (some v) else read kv j s)
  unfolding read
  read-set k j v s = elim (Bool-cases (str_eq k j)) [
    | inl e ↦
        let found : kv.get j (kv.set k v s) ≡ some v = law.get-set k j v s ∙ rw e refl in
        rw e (ap absence found)
    | inr e ↦
        let kept : kv.get j (kv.set k v s) ≡ kv.get j s = law.get-set k j v s ∙ rw e refl in
        rw e (ap absence kept)
  ]

  pub read-set_self :
      (k : String) (v : Stored) (s : kv.State) → read kv k (kv.set k v s) ≡ absence (some v)
  read-set_self k v s = read-set k k v s ∙ rw (eq_refl k) refl

  pub read-set_ne :
      (k j : String) (v : Stored) (s : kv.State)
      → str_eq k j ≡ false
      → read kv j (kv.set k v s) ≡ read kv j s
  read-set_ne k j v s e = read-set k j v s ∙ rw e refl

  pub read-delete_ne :
      (k j : String) (s : kv.State) → str_eq k j ≡ false → read kv j (kv.delete k s).0 ≡ read kv j s
  unfolding read
  read-delete_ne k j s e =
      let kept : kv.get j (kv.delete k s).0 ≡ kv.get j s = law.get-delete k j s ∙ rw e refl in
      ap absence kept

  pub read-delete_self : (k : String) (s : kv.State) → read kv k (kv.delete k s).0 ≡ none
  unfolding read
  read-delete_self k s =
      let gone : kv.get k (kv.delete k s).0 ≡ none = law.get-delete k k s ∙ rw (eq_refl k) refl in
      ap absence gone

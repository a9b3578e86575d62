-- ===== src/PeerLink/Storage/Distinct.antt =====
-- Keys of different kinds, and of different ids, are different.
use Prim.Native.Char.{Char, code, nul}
use Prim.Native.String.{◌++◌ as append}
use text.Mathlib.TextLemmas.{nil-append, cons-append, append_cancel_left}
use rez_sdk.Common.{
  ◌≡◌, ◌≢◌, refl, sym, ap, ◌∙◌, Bool, true, false, not, ◌||◌, String, str_eq, eq_iff, ◌==◌, arith,
  inl, inr, Bool-cases, if◌then◌else◌,
}
use rez_sdk.Common.Text.{is_empty}
use rez_sdk.PeerLink.Storage.Base.{joined}

cons-injective :
    {c d : Char} {s t : String} → String.◌∷◌ c s ≡ String.◌∷◌ d t → (code c ≡ code d) × (s ≡ t)
cons-injective {c} {d} e = let same : c ≡ d = cc in (ap code same, cc)

abbrev first_of : String → Char
first_of String.[] = nul
first_of (String.◌∷◌ c s) = c

-- Two texts differ at some place at which both go on.
unfoldable pub apart : String → String → Bool
apart String.[] t = false
apart (String.◌∷◌ c s) String.[] = false
apart (String.◌∷◌ c s) (String.◌∷◌ d t) = not (code c == code d) || apart s t

pub apart-append : (p q x y : String) → apart p q ≡ true → append p x ≢ append q y
unfolding apart
apart-append String.[] q x y h e = cc
apart-append (String.◌∷◌ c p) String.[] x y h e = cc
apart-append (String.◌∷◌ c p) (String.◌∷◌ d q) x y h e =
    let f = sym (cons-append c p x) ∙ e ∙ cons-append d q y in
    let (head, tail) = cons-injective f in
    elim (Bool-cases (apart p q)) [ inl k ↦ apart-append p q x y k tail | inr k ↦ ground arith ]

pub str_eq-false : (s t : String) → s ≢ t → str_eq s t ≡ false
str_eq-false s t h = elim (Bool-cases (str_eq s t)) [
  | inl e ↦ absurd (h ((eq_iff s t).0 e))
  | inr e ↦ e
]

unfoldable pub has_colon : String → Bool
has_colon String.[] = false
has_colon (String.◌∷◌ c s) = code c == b':' || has_colon s

abbrev colon : Char
colon = ":"

colons-append : (b : String) → joined "" b ≡ String.◌∷◌ colon (append ":" b)
colons-append b = nil-append (append "::" b) ∙ cons-append colon ":" b

or-false : (a b : Bool) → (a || b) ≡ false → (a ≡ false) × (b ≡ false)
or-false true b h = cc
or-false false b h = (refl, h)

-- An id without a colon ends where "::" begins.
pub joined-injective :
    (a a' b b' : String)
    → has_colon a ≡ false
    → has_colon a' ≡ false
    → joined a b ≡ joined a' b'
    → (a ≡ a') × (b ≡ b')
unfolding has_colon
joined-injective String.[] String.[] b b' h h' e =
    (refl, append_cancel_left "::" b b' (sym (nil-append _) ∙ e ∙ nil-append _))
joined-injective String.[] (String.◌∷◌ d a') b b' h h' e =
    let f = sym (colons-append b) ∙ e ∙ cons-append d a' (append "::" b') in
    let (head, _) = cons-injective f in absurd (ground arith)
joined-injective (String.◌∷◌ c a) String.[] b b' h h' e =
    let f = sym (colons-append b') ∙ sym e ∙ cons-append c a (append "::" b) in
    let (head, _) = cons-injective f in absurd (ground arith)
joined-injective (String.◌∷◌ c a) (String.◌∷◌ d a') b b' h h' e =
    let f = sym (cons-append c a (append "::" b)) ∙ e ∙ cons-append d a' (append "::" b') in
    let r = joined-injective a a' b b' (ground arith) (ground arith) (cons-injective f).1 in
    let same : c ≡ d = ap first_of f in (λ i. String.◌∷◌ (same i) (r.0 i), r.1)

-- What stands behind the first colon.
unfoldable pub after_colon : String → String
after_colon String.[] = String.[]
after_colon (String.◌∷◌ c s) = if code c == b':' then s else after_colon s

after_colon-append :
    (a x : String) → has_colon a ≡ false → after_colon (append a (append ":" x)) ≡ x
unfolding has_colon after_colon
after_colon-append String.[] x h =
    ap after_colon (nil-append (append ":" x) ∙ cons-append colon "" x) ∙ nil-append x
after_colon-append (String.◌∷◌ c a) x h =
    ap after_colon (cons-append c a (append ":" x))
    ∙ rw (or-false (code c == b':') (has_colon a) h).0
        (after_colon-append a x (or-false (code c == b':') (has_colon a) h).1)

starts_with_colon : String → Bool
starts_with_colon String.[] = false
starts_with_colon (String.◌∷◌ c s) = code c == b':'

joined-start :
    (a b : String)
    → has_colon a ≡ false
    → is_empty a ≡ false
    → starts_with_colon (joined a b) ≡ false
unfolding has_colon starts_with_colon
joined-start String.[] b h k = cc
joined-start (String.◌∷◌ c a) b h k =
    ap starts_with_colon (cons-append c a (append "::" b))
    ∙ (or-false (code c == b':') (has_colon a) h).0

-- Behind one prefix, an id and "::" is never a longer prefix, which ends with a colon, and another id.
pub joined-apart :
    (a b q o x : String)
    → has_colon a ≡ false
    → has_colon q ≡ false
    → has_colon o ≡ false
    → is_empty o ≡ false
    → joined a b ≢ append q (append ":" (joined o x))
unfolding starts_with_colon
joined-apart a b q o x ha hq ho full e =
    let one_colon : joined a b ≡ append a (append ":" (append ":" b)) = ap (append a) (
      cons-append colon ":" b
      ∙ sym (
          cons-append colon "" (append ":" b)
          ∙ ap (String.◌∷◌ colon) (nil-append (append ":" b)))) in
    let behind : append ":" b ≡ joined o x =
      sym (after_colon-append a (append ":" b) ha)
      ∙ ap after_colon (sym one_colon ∙ e)
      ∙ after_colon-append q (joined o x) hq in
    let starts : starts_with_colon (append ":" b) ≡ true =
      ap starts_with_colon (cons-append colon "" b) in
    let no_start = joined-start o x ho full in let same = ap starts_with_colon behind in cc

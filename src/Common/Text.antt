-- ===== src/Common/Text.antt =====
-- JavaScript's `String.prototype.trim` on texts.
use Prim.Native.Char.{code}
use Prim.Native.Nat.{ℕ}
use Prim.Native.String.{String}
use mathlib.Core.Path.{◌≡◌, refl, ap, ◌∙◌}
use mathlib.Core.Bool.{Bool, true, false, ◌&&◌, ◌||◌}
use mathlib.Core.Logic.{inl, inr}
use rez_sdk.Common.Tests.{leb, ◌==◌, if◌then◌else◌, Bool-cases}

-- ECMAScript's white space and line terminators.
unfoldable pub is_space : ℕ → Bool
is_space c =
    (leb 9 c && leb c 13)
    || c == 32
    || c == 160
    || c == 5760
    || (leb 8192 c && leb c 8202)
    || c == 8232
    || c == 8233
    || c == 8239
    || c == 8287
    || c == 12288
    || c == 65279

abbrev pub is_empty : String → Bool
is_empty String.[] = true
is_empty (String.◌∷◌ c s) = false

unfoldable pub trim_start : String → String
trim_start String.[] = String.[]
trim_start (String.◌∷◌ c s) =
    let rest = trim_start s in if is_space (code c) then rest else String.◌∷◌ c s

unfoldable pub trim_end : String → String
trim_end String.[] = String.[]
trim_end (String.◌∷◌ c s) =
    let rest = trim_end s in
    if is_space (code c) && is_empty rest then String.[] else String.◌∷◌ c rest

unfoldable pub trim : String → String
unfolding trim_start trim_end is_space
trim s = trim_end (trim_start s)

-- The text is empty or its first character is no white space.
abbrev StartsSolid : String → Type 0
StartsSolid String.[] = Unit
StartsSolid (String.◌∷◌ c s) = is_space (code c) ≡ false

trim_start-StartsSolid : (s : String) → StartsSolid (trim_start s)
unfolding trim_start
trim_start-StartsSolid String.[] = tt
trim_start-StartsSolid (String.◌∷◌ c s) = elim (Bool-cases (is_space (code c))) [
  | inl h ↦ rw h (trim_start-StartsSolid s)
  | inr h ↦ rw h h
]

trim_start_solid : (s : String) → StartsSolid s → trim_start s ≡ s
unfolding trim_start
trim_start_solid String.[] h = refl
trim_start_solid (String.◌∷◌ c s) h = rw h refl

trim_end-StartsSolid : (s : String) → StartsSolid s → StartsSolid (trim_end s)
unfolding trim_end
trim_end-StartsSolid String.[] h = tt
trim_end-StartsSolid (String.◌∷◌ c s) h = rw h h

trim_end_idem : (s : String) → trim_end (trim_end s) ≡ trim_end s
unfolding trim_end
trim_end_idem String.[] = refl
trim_end_idem (String.◌∷◌ c s) = elim (Bool-cases (is_space (code c) && is_empty (trim_end s))) [
  | inl h ↦ rw h refl
  | inr h ↦ rw h (rw (trim_end_idem s) (rw h refl))
]

pub trim_idem : (s : String) → trim (trim s) ≡ trim s
unfolding trim
trim_idem s =
    ap trim_end (trim_start_solid _ (trim_end-StartsSolid _ (trim_start-StartsSolid s)))
    ∙ trim_end_idem (trim_start s)

trim_both : trim "  a b\n" ≡ "a b"
unfolding trim
trim_both = refl

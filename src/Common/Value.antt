-- ===== src/Common/Value.antt =====
-- JavaScript values as the code tests them. A number is a whole number, a half (which stands for
-- all fractions), an infinity or NaN. Objects and functions are opaque.
use Prim.Native.Char.{code}
use Prim.Native.Nat.{ℕ, suc, ◌+◌, ◌-◌, ◌*◌}
use Prim.Native.String.{String}
use mathlib.Core.Path.{◌≡◌, refl}
use mathlib.Core.Bool.{Bool, true, false, ◌&&◌}
use mathlib.Core.Option.{Option, none, some}
use rez_sdk.Common.Tests.{ltb, leb, if◌then◌else◌}
use rez_sdk.Common.Text.{trim, trim_idem}

pub data Number : Type 0 where
  nan infinity neg_infinity : Number
  integer : ℕ → Number  -- n
  negative : ℕ → Number  -- -(n + 1)
  half : ℕ → Number  -- n + 1/2
  negative_half : ℕ → Number  -- -(n + 1/2)

pub data Value : Type 0 where
  undefined null object function : Value
  boolean : Bool → Value
  number : Number → Value
  text : String → Value

-- `Number.isInteger(v)` and `v > 0`
abbrev pub is_positive_integer : Value → Bool
is_positive_integer (number (Number.integer (suc n))) = true
is_positive_integer _ = false

-- `typeof v === "string" ? v.trim() : ""`
unfoldable pub trimmed : Value → String
trimmed (text s) = trim s
trimmed _ = ""

-- What `trimmed` returns is read back as itself.
pub trimmed-trimmed : (v : Value) → trimmed (text (trimmed v)) ≡ trimmed v
unfolding trimmed trim
trimmed-trimmed (text s) = trim_idem s
trimmed-trimmed _ = refl

abbrev pub is_finite : Number → Bool
is_finite (Number.integer _) = true
is_finite (Number.negative _) = true
is_finite (Number.half _) = true
is_finite (Number.negative_half _) = true
is_finite _ = false

-- `v > 0`
abbrev pub is_positive : Number → Bool
is_positive (Number.integer (suc n)) = true
is_positive (Number.half _) = true
is_positive Number.infinity = true
is_positive _ = false

-- A number that is not negative, in halves.
abbrev pub halves : Number → ℕ
halves (Number.integer n) = 2 * n
halves (Number.half n) = 2 * n + 1
halves _ = 0

-- `b > a` for a finite positive `a` and a finite `b`
abbrev pub is_above : Number → Number → Bool
is_above a b = ltb (halves a) (halves b)

-- The value of a text of decimal digits.
unfoldable pub digits : ℕ → String → Option ℕ
digits acc String.[] = some acc
digits acc (String.◌∷◌ c s) =
    let rest = digits (acc * 10 + (code c - 48)) s in
    if leb 48 (code c) && leb (code c) 57 then rest else none

abbrev pub number_of : Option ℕ → Number
number_of none = Number.nan
number_of (some n) = Number.integer n

-- `Number(v)`. A text is read if it is blank or a whole number in decimal digits; other texts and all
-- objects are NaN.
unfoldable pub to_number : Value → Number
unfolding digits trim
to_number undefined = Number.nan
to_number null = Number.integer 0
to_number object = Number.nan
to_number function = Number.nan
to_number (boolean true) = Number.integer 1
to_number (boolean false) = Number.integer 0
to_number (number n) = n
to_number (text s) = number_of (digits 0 (trim s))

-- ===== src/Transport/Framing/Bounds.antt =====
-- The loop of `#onData` ends by its own test, and what it leaves is bounded.
use rez_sdk.Common.{
  ℕ, zero, suc, ◌+◌, ◌≤◌, ◌<◌, ◌≡◌, refl, Bool, true, false, List, [], ◌∷◌, ◌++◌, length, ltb,
  if◌then◌else◌, All, arith, inl, inr, Bool-cases,
}
use rez_sdk.Transport.Framing.{take, drop, read_u32_be, Drained, drain, on_data}

length-drop : (n : ℕ) (xs : List ℕ) → length (drop n xs) ≤ length xs
length-drop zero xs = omega arith
length-drop (suc n) [] = omega arith
length-drop (suc n) (x ∷ xs) = omega (arith, length-drop n xs)

length-drop_four : (xs : List ℕ) → 4 ≤ length xs → length (drop 4 xs) < length xs
length-drop_four [] h = absurd (omega arith)
length-drop_four (x ∷ xs) h = omega (arith, length-drop 3 xs)

length-take : (n : ℕ) (xs : List ℕ) → length (take n xs) ≤ n
length-take zero xs = omega arith
length-take (suc n) [] = omega arith
length-take (suc n) (x ∷ xs) = omega (arith, length-take n xs)

-- `while (buffer.length >= 4)` is over: no header is there, or a frame that is allowed but not whole.
abbrev pub is_at_rest : ℕ → List ℕ → Bool
is_at_rest m buffer =
    if ltb (length buffer) 4
    then true
    else if ltb m (read_u32_be buffer)
    then false
    else ltb (length buffer) (4 + read_u32_be buffer)

pub record IsBounded (m : ℕ) (d : Drained) : Type 0 where
  pub at_rest : is_at_rest m d.rest ≡ true
  pub kept : length d.rest < 4 + m
  pub handed_on : All (λ p. length p ≤ m) d.frames

cleared-IsBounded : (m : ℕ) → IsBounded m (record { frames = []; rest = []; too_large = true })
cleared-IsBounded m = record { at_rest = refl; kept = omega arith; handed_on = tt }

drain-IsBounded : (m f : ℕ) (b : List ℕ) → length b ≤ f → IsBounded m (drain m f b)
unfolding drain
drain-IsBounded m zero b h = record { at_rest = ground arith; kept = omega arith; handed_on = tt }
drain-IsBounded m (suc f) b h = elim (Bool-cases (ltb (length b) 4)) [
  | inl s ↦ rw s (record { at_rest = rw s refl; kept = ground arith; handed_on = tt })
  | inr s ↦ rw s (elim (Bool-cases (ltb m (read_u32_be b))) [
    | inl t ↦ rw t (cleared-IsBounded m)
    | inr t ↦ rw t (elim (Bool-cases (ltb (length b) (4 + read_u32_be b))) [
      | inl u ↦ rw u (record { at_rest = rw (s, t, u) refl; kept = ground arith; handed_on = tt })
      | inr u ↦
          let rest =
            drain-IsBounded m f (drop (read_u32_be b) (drop 4 b))
              (ground (arith, length-drop (read_u32_be b) (drop 4 b), length-drop_four b)) in
          rw u (record {
            at_rest = rest.at_rest;
            kept = rest.kept;
            handed_on = (ground (arith, length-take (read_u32_be b) (drop 4 b)), rest.handed_on);
          })
    ])
  ])
]

-- Whatever bytes come in, the loop ends by its test; the buffer that is kept is shorter than the largest
-- frame with its header, and no payload above the limit is handed on.
pub on_data-IsBounded : (m : ℕ) (buffer chunk : List ℕ) → IsBounded m (on_data m buffer chunk)
unfolding on_data
on_data-IsBounded m buffer chunk = drain-IsBounded m _ (buffer ++ chunk) (omega arith)

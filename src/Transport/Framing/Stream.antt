-- ===== src/Transport/Framing/Stream.antt =====
-- However a stream of frames is cut into chunks, the frames come out.
use rez_sdk.Common.{
  ℕ, zero, suc, ◌+◌, ◌^◌, ◌≤◌, ◌<◌, ◌≡◌, refl, sym, ap, ◌∙◌, subst, ◌⊎◌, inl, inr, false, List, [],
  ◌∷◌, ◌++◌, length, length-append, ltb, All, arith, ltb→lt, lt→ltb, Bool-cases,
}
use mathlib.Core.List.{append_assoc}
use rez_sdk.Transport.Framing.{
  take, drop, header, read_u32_be, write_frame, Drained, and_before, drain, on_data, on_chunks,
}

-- The bytes of the frames, one behind the other.
abbrev pub stream : List (List ℕ) → List ℕ
stream [] = []
stream (p ∷ ps) = write_frame p ++ stream ps

-- A payload that the receiver takes, with a length that fits in the header.
abbrev pub Fits : ℕ → List ℕ → Type 0
Fits max_frame_bytes p = (length p ≤ max_frame_bytes) × (length p < 2 ^ 32)

read-header : (n : ℕ) (xs : List ℕ) → n < 2 ^ 32 → read_u32_be (header n ++ xs) ≡ n
read-header n xs h = omega arith

take-append : (xs ys : List ℕ) → take (length xs) (xs ++ ys) ≡ xs
take-append [] ys = refl
take-append (x ∷ xs) ys = ap (λ zs. x ∷ zs) (take-append xs ys)

drop-append : (xs ys : List ℕ) → drop (length xs) (xs ++ ys) ≡ ys
drop-append [] ys = refl
drop-append (x ∷ xs) ys = drop-append xs ys

-- Of two cuts of one list the longer first part begins with the shorter one.
cut :
    (xs ys b tail : List ℕ)
    → b ++ tail ≡ xs ++ ys
    → length xs ≤ length b
    → (c : List ℕ) × (b ≡ xs ++ c) × (c ++ tail ≡ ys)
cut [] ys b tail e h = (b, refl, e)
cut (x ∷ xs) ys [] tail e h = absurd (omega arith)
cut (x ∷ xs) ys (z ∷ b) tail e h =
    let (c, e', e'') = cut xs ys b tail (cc) (omega arith) in (c, cc, e'')

-- The cases of the loop: no header yet, no whole frame yet, a frame.
abbrev waits : List ℕ → Drained
waits b = record { frames = []; rest = b; too_large = false }

drain_no_header : (m f : ℕ) (b : List ℕ) → length b < 4 → drain m f b ≡ waits b
unfolding drain
drain_no_header m zero b h = refl
drain_no_header m (suc f) b h = rw (lt→ltb (length b) 4 h) refl

drain_no_frame :
    (m f n : ℕ) (b : List ℕ) → read_u32_be b ≡ n → n ≤ m → length b < 4 + n → drain m f b ≡ waits b
unfolding drain
drain_no_frame m zero n b e h k = refl
drain_no_frame m (suc f) n b e h k = elim (Bool-cases (ltb (length b) 4)) [
  | inl s ↦ rw s refl
  | inr s ↦
      let fits : ltb m n ≡ false = ground arith in rw (s, e, fits, lt→ltb (length b) (4 + n) k) refl
]

drain_frame :
    (m f : ℕ) (p c : List ℕ)
    → Fits m p
    → drain m (suc f) (write_frame p ++ c) ≡ and_before p (drain m f c)
unfolding drain write_frame
drain_frame m f p c (h, k) =
    let size = length-append p c in
    let four : ltb (suc (suc (suc (suc (length (p ++ c)))))) 4 ≡ false = ground (arith, size) in
    let fits : ltb m (length p) ≡ false = ground arith in
    let whole : ltb (suc (suc (suc (suc (length (p ++ c)))))) (4 + length p) ≡ false =
      ground (arith, size) in
    rw (four, read-header (length p) (p ++ c) k, fits, whole, take-append p c, drop-append p c) refl

-- What a run of the loop leaves of a stream whose other part `tail` is still to come.
record IsPart (m : ℕ) (ps : List (List ℕ)) (tail : List ℕ) (d : Drained) : Type 0 where
  left : List (List ℕ)
  split : ps ≡ d.frames ++ left
  bytes : d.rest ++ tail ≡ stream left
  short : (length d.rest < length (stream left)) ⊎ (left ≡ [])
  quiet : d.too_large ≡ false

waits-IsPart :
    (m : ℕ) (p : List ℕ) (ps : List (List ℕ)) (b tail : List ℕ) (d : Drained)
    → b ++ tail ≡ stream (p ∷ ps)
    → length b < 4 + length p
    → d ≡ waits b
    → IsPart m (p ∷ ps) tail d
unfolding write_frame
waits-IsPart m p ps b tail d e h w = subst (IsPart m (p ∷ ps) tail) (sym w) (record {
  left = p ∷ ps;
  split = refl;
  bytes = e;
  short = inl (omega (arith, length-append (write_frame p) (stream ps), length-append p []));
  quiet = refl;
})

-- A frame that has not come whole.
drain_short :
    (m f : ℕ) (p : List ℕ) (ps : List (List ℕ)) (b tail : List ℕ)
    → Fits m p
    → b ++ tail ≡ stream (p ∷ ps)
    → length b < 4 + length p
    → drain m f b ≡ waits b
unfolding write_frame
drain_short m f p ps b tail (h, k) e l = elim (Bool-cases (ltb (length b) 4)) [
  | inl s ↦ drain_no_header m f b (ltb→lt (length b) 4 s)
  | inr s ↦
      let (c, begins, _) =
        cut (header (length p)) (p ++ stream ps) b tail
          (e ∙ append_assoc (header (length p)) p (stream ps)) (ground arith) in
      drain_no_frame m f (length p) b (ap read_u32_be begins ∙ read-header (length p) c k) h l
]

no_bytes : (b tail : List ℕ) → b ++ tail ≡ [] → (b ≡ []) × (tail ≡ [])
no_bytes [] tail e = (refl, e)
no_bytes (x ∷ b) tail e = cc

after_frame :
    (m : ℕ) (p : List ℕ) (ps : List (List ℕ)) (tail : List ℕ) (d : Drained)
    → IsPart m ps tail d
    → IsPart m (p ∷ ps) tail (and_before p d)
after_frame m p ps tail d i = record {
  left = i.left;
  split = ap (λ xs. p ∷ xs) i.split;
  bytes = i.bytes;
  short = i.short;
  quiet = i.quiet;
}

drain-IsPart :
    (m f : ℕ) (ps : List (List ℕ)) (b tail : List ℕ)
    → All (Fits m) ps
    → b ++ tail ≡ stream ps
    → length b ≤ f
    → IsPart m ps tail (drain m f b)
drain-IsPart m f [] b tail h e k =
    let (empty, ended) = no_bytes b tail e in
    subst (IsPart m [] tail) (sym (ap (drain m f) empty ∙ drain_no_header m f [] (omega arith)))
      (record { left = []; split = refl; bytes = ended; short = inr refl; quiet = refl })
drain-IsPart m zero (p ∷ ps) b tail (h, hs) e k =
    waits-IsPart m p ps b tail _ e (omega arith) (unfold drain in refl)
drain-IsPart m (suc f) (p ∷ ps) b tail (h, hs) e k =
    elim (Bool-cases (ltb (length b) (4 + length p))) [
      | inl s ↦
          let l = ltb→lt (length b) (4 + length p) s in
          waits-IsPart m p ps b tail _ e l (drain_short m (suc f) p ps b tail h e l)
      | inr s ↦
          let framed : length (write_frame p) ≡ 4 + length p = unfold write_frame in omega arith in
          let (c, begins, goes_on) =
            cut (write_frame p) (stream ps) b tail e (ground (arith, framed, s)) in
          let size : length b ≡ length (write_frame p) + length c =
            ap length begins ∙ length-append (write_frame p) c in
          subst (IsPart m (p ∷ ps) tail) (sym (ap (drain m (suc f)) begins ∙ drain_frame m f p c h))
            (after_frame m p ps tail (drain m f c)
              (drain-IsPart m f ps c tail hs goes_on (omega (arith, size, framed, k))))
    ]

All-append_right : (m : ℕ) (xs ys : List (List ℕ)) → All (Fits m) (xs ++ ys) → All (Fits m) ys
All-append_right m [] ys h = h
All-append_right m (x ∷ xs) ys (_, h) = All-append_right m xs ys h

abbrev pub joined : List (List ℕ) → List ℕ
joined [] = []
joined (c ∷ cs) = c ++ joined cs

-- Between two chunks the buffer is short of a frame.
on_chunks-stream :
    (m : ℕ) (ps : List (List ℕ)) (b : List ℕ) (cs : List (List ℕ))
    → All (Fits m) ps
    → b ++ joined cs ≡ stream ps
    → (length b < length (stream ps)) ⊎ (ps ≡ [])
    → on_chunks m b cs ≡ record { frames = ps; rest = []; too_large = false }
unfolding on_chunks on_data
on_chunks-stream m ps b [] h e (inl s) = absurd (omega (arith, ap length e, length-append b []))
on_chunks-stream m ps b [] h e (inr s) =
    let (empty, _) = no_bytes b [] (e ∙ ap stream s) in rw (empty, s) refl
on_chunks-stream m ps b (c ∷ cs) h e s =
    let d = on_data m b c in
    let i =
      drain-IsPart m (length (b ++ c)) ps (b ++ c) (joined cs) h (append_assoc b c (joined cs) ∙ e)
        (omega arith) in
    let rest =
      on_chunks-stream m i.left d.rest cs
        (All-append_right m d.frames i.left (subst (All (Fits m)) i.split h)) i.bytes i.short in
    rw (rest, i.quiet, ← i.split) refl

-- A stream of frames, each within the limit, that is cut into any chunks: the receiver hands on exactly the
-- payloads that were written, in their order, keeps nothing back, and never warns.
pub on_chunks-write_frame :
    (m : ℕ) (ps cs : List (List ℕ))
    → All (Fits m) ps
    → joined cs ≡ stream ps
    → on_chunks m [] cs ≡ record { frames = ps; rest = []; too_large = false }
on_chunks-write_frame m [] cs h e = on_chunks-stream m [] [] cs h e (inr refl)
on_chunks-write_frame m (p ∷ ps) cs h e =
    on_chunks-stream m (p ∷ ps) [] cs h e (inl (unfold write_frame in omega arith))

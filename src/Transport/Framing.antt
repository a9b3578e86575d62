-- ===== src/Transport/Framing.antt =====
-- Length-prefixed frames on a byte stream (src/transport/TcpTransport.js, `#writeFrame` and `#onData`).
-- A buffer is the list of its bytes.
pub mod Stream
pub mod Bounds
use rez_sdk.Common.{
  ℕ, zero, suc, ◌+◌, ◌*◌, ◌/◌, ◌%◌, ◌^◌, Bool, true, false, List, [], ◌∷◌, ◌++◌, length, ltb,
  if◌then◌else◌,
}

abbrev pub take {ℓ} : {A : Type ℓ} → ℕ → List A → List A
take zero xs = []
take (suc n) [] = []
take (suc n) (x ∷ xs) = x ∷ take n xs

abbrev pub drop {ℓ} : {A : Type ℓ} → ℕ → List A → List A
drop zero xs = xs
drop (suc n) [] = []
drop (suc n) (x ∷ xs) = drop n xs

-- `writeUInt32BE(n)`, for a number below 2^32
abbrev pub header : ℕ → List ℕ
header n = n / 2 ^ 24 ∷ n / 2 ^ 16 % 256 ∷ n / 2 ^ 8 % 256 ∷ n % 256 ∷ []

-- `readUInt32BE(0)`, on four bytes at least
abbrev pub read_u32_be : List ℕ → ℕ
read_u32_be (a ∷ b ∷ c ∷ d ∷ _) = a * 2 ^ 24 + b * 2 ^ 16 + c * 2 ^ 8 + d
read_u32_be _ = 0

-- `#writeFrame`: what goes to the socket for a payload.
unfoldable pub write_frame : List ℕ → List ℕ
write_frame payload = header (length payload) ++ payload

-- What one run of the loop leaves: the payloads handed on, the buffer, and whether a frame was too
-- large.
pub record Drained : Type 0 where
  pub frames : List (List ℕ)
  pub rest : List ℕ
  pub too_large : Bool

abbrev pub and_before : List ℕ → Drained → Drained
and_before payload d = record d { frames = payload ∷ d.frames }

-- The loop of `#onData`; a round takes four bytes or more, so that the length of the buffer is fuel
-- enough.
unfoldable pub drain : ℕ → ℕ → List ℕ → Drained
drain max_frame_bytes zero buffer = record { frames = []; rest = buffer; too_large = false }
drain max_frame_bytes (suc fuel) buffer =
    let frame_len = read_u32_be buffer in
    let next = drain max_frame_bytes fuel (drop frame_len (drop 4 buffer)) in
    if ltb (length buffer) 4
    then record { frames = []; rest = buffer; too_large = false }
    else if ltb max_frame_bytes frame_len
    then record { frames = []; rest = []; too_large = true }
    else if ltb (length buffer) (4 + frame_len)
    then record { frames = []; rest = buffer; too_large = false }
    else and_before (take frame_len (drop 4 buffer)) next

-- `#onData`
unfoldable pub on_data : ℕ → List ℕ → List ℕ → Drained
on_data max_frame_bytes read_buffer chunk =
    let buffer = read_buffer ++ chunk in drain max_frame_bytes (length buffer) buffer

-- The chunks of a stream one by one, with the frames of each.
unfoldable pub on_chunks : ℕ → List ℕ → List (List ℕ) → Drained
on_chunks max_frame_bytes buffer [] = record { frames = []; rest = buffer; too_large = false }
on_chunks max_frame_bytes buffer (chunk ∷ chunks) =
    let d = on_data max_frame_bytes buffer chunk in
    let e = on_chunks max_frame_bytes d.rest chunks in
    record e {
      frames = d.frames ++ e.frames;
      too_large = (if d.too_large then true else e.too_large);
    }

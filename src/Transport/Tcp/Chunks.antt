-- ===== src/Transport/Tcp/Chunks.antt =====
-- The framing and the transport together: how the bytes of a connection are cut does not matter.
use rez_sdk.Common.{
  ℕ, ◌≡◌, refl, sym, ap, ◌∙◌, Bool, true, false, Option, none, some, List, [], ◌∷◌, ◌++◌,
  if◌then◌else◌, is_some, All, inl, inr, Bool-cases,
}
use rez_sdk.Transport.Framing.{Drained, on_data, on_chunks}
use rez_sdk.Transport.Framing.Stream.{joined, stream, Fits, on_chunks-write_frame}
use rez_sdk.Transport.Requests.{FrameId, issued, foreign, Frame, find}
use rez_sdk.Transport.Tcp.Socket.{
  Decoded, frame, bad, TcpTransport, Settings, asked_by, correlated, decoded, process_frame,
  process_frames, receive,
}

-- The chunks that one socket brings, one after the other.
unfoldable pub receive_all : Settings → List (List ℕ) → TcpTransport → TcpTransport
receive_all c [] t = t
receive_all c (chunk ∷ chunks) t = receive_all c chunks (receive c chunk t)

abbrev with_buffer : List ℕ → TcpTransport → TcpTransport
with_buffer b t = record t { read_buffer = b }

-- Frames do not look at the buffer.
correlated-with_buffer :
    (f : Frame) (o : Option FrameId) (b : List ℕ) (t : TcpTransport)
    → correlated f (asked_by o t.requests.pending) (with_buffer b t)
      ≡ with_buffer b (correlated f (asked_by o t.requests.pending) t)
correlated-with_buffer f none b t = refl
correlated-with_buffer f (some (foreign text)) b t = refl
correlated-with_buffer f (some (issued id)) b t =
    elim (Bool-cases (is_some (find id t.requests.pending))) [
      | inl k ↦ rw k refl
      | inr k ↦ rw k refl
    ]

decoded-with_buffer :
    (d : Decoded) (b : List ℕ) (t : TcpTransport)
    → decoded d (with_buffer b t) ≡ with_buffer b (decoded d t)
decoded-with_buffer (frame f) b t = correlated-with_buffer f f.id b t
decoded-with_buffer (bad m) b t = refl

process_frames-with_buffer :
    (c : Settings) (ps : List (List ℕ)) (b : List ℕ) (t : TcpTransport)
    → process_frames c ps (with_buffer b t) ≡ with_buffer b (process_frames c ps t)
unfolding process_frames process_frame
process_frames-with_buffer c [] b t = refl
process_frames-with_buffer c (p ∷ ps) b t =
    ap (process_frames c ps) (decoded-with_buffer (c.decode_frame p) b t)
    ∙ process_frames-with_buffer c ps b (process_frame c p t)

process_frames-append :
    (c : Settings) (ps qs : List (List ℕ)) (t : TcpTransport)
    → process_frames c (ps ++ qs) t ≡ process_frames c qs (process_frames c ps t)
unfolding process_frames
process_frames-append c [] qs t = refl
process_frames-append c (p ∷ ps) qs t = process_frames-append c ps qs (process_frame c p t)

receive-quiet :
    (c : Settings) (chunk : List ℕ) (t : TcpTransport)
    → let d = on_data c.max_frame_bytes t.read_buffer chunk in
      d.too_large ≡ false → receive c chunk t ≡ with_buffer d.rest (process_frames c d.frames t)
unfolding receive
receive-quiet c chunk t quiet =
    let d = on_data c.max_frame_bytes t.read_buffer chunk in
    rw quiet (process_frames-with_buffer c d.frames d.rest t)

if-true-quiet : (b e : Bool) → (if b then true else e) ≡ false → (b ≡ false) × (e ≡ false)
if-true-quiet true e h = cc
if-true-quiet false e h = (refl, h)

receive_all-on_chunks :
    (c : Settings) (chunks : List (List ℕ)) (t : TcpTransport) (b : List ℕ)
    → let d = on_chunks c.max_frame_bytes b chunks in
      d.too_large ≡ false
      → receive_all c chunks (with_buffer b t) ≡ with_buffer d.rest (process_frames c d.frames t)
unfolding receive_all on_chunks process_frames
receive_all-on_chunks c [] t b quiet = refl
receive_all-on_chunks c (chunk ∷ chunks) t b quiet =
    let d = on_data c.max_frame_bytes b chunk in
    let e = on_chunks c.max_frame_bytes d.rest chunks in
    let q = if-true-quiet d.too_large e.too_large quiet in
    ap (receive_all c chunks) (
      receive-quiet c chunk (with_buffer b t) q.0
      ∙ ap (with_buffer d.rest) (process_frames-with_buffer c d.frames b t))
    ∙ receive_all-on_chunks c chunks (process_frames c d.frames t) d.rest q.1
    ∙ ap (with_buffer e.rest) (sym (process_frames-append c d.frames e.frames t))

-- On a connection that has nothing buffered, a stream of frames within the limit, however it is cut into
-- chunks, does to the transport exactly what its payloads do one by one, and leaves nothing buffered.
pub receive_all-stream :
    (c : Settings) (ps chunks : List (List ℕ)) (t : TcpTransport)
    → All (Fits c.max_frame_bytes) ps
    → joined chunks ≡ stream ps
    → t.read_buffer ≡ []
    → receive_all c chunks t ≡ process_frames c ps t
receive_all-stream c ps chunks t fit cut empty =
    let whole = on_chunks-write_frame c.max_frame_bytes ps chunks fit cut in
    let start : with_buffer [] t ≡ t = ap (λ b. with_buffer b t) (sym empty) in
    ap (receive_all c chunks) (sym start)
    ∙ receive_all-on_chunks c chunks t [] (ap (λ (d : Drained). d.too_large) whole)
    ∙ ap (λ (d : Drained). with_buffer d.rest (process_frames c d.frames t)) whole
    ∙ sym (process_frames-with_buffer c ps [] t)
    ∙ ap (process_frames c ps) start

-- ===== src/Transport/Ws/Malformed.antt =====
-- Frames that the codec refuses (`#onRawFrame`).
use rez_sdk.Common.{
  ℕ, ◌+◌, ◌-◌, ◌≤◌, ◌<◌, ◌≡◌, refl, ap, ◌∙◌, Bool, true, false, none, List, [], ◌∷◌, String, ltb,
  leb, arith, All, length, inl, inr, Bool-cases,
}
use rez_sdk.Transport.Requests.{reject_all}
use rez_sdk.Transport.Ws.Socket.{WsTransport, close}
use rez_sdk.Transport.Ws.Inbound.{
  byte_length, Decoded, frame, bad, decoded, Settings, on_bad_frame, on_raw_frame,
}

-- The messages of one socket, each with the time at which it comes in.
unfoldable pub feed : Settings → List (ℕ × String) → WsTransport → WsTransport
feed c [] t = t
feed c ((now, raw) ∷ ms) t = feed c ms (on_raw_frame c now raw t)

abbrev pub is_bad : Decoded → Bool
is_bad (frame f) = false
is_bad (bad reason) = true

-- A message within the limit that the codec refuses, at most five seconds after the start of the window.
abbrev pub IsMalformed : Settings → ℕ → ℕ × String → Type 0
IsMalformed c start (now, raw) =
    (byte_length raw ≤ c.max_frame_bytes)
    × (is_bad (c.decode_frame raw) ≡ true)
    × (now - start ≤ 5000)

-- The transport as it was, but for the count of refused frames and what the listeners were told.
abbrev pub Counts : ℕ → WsTransport → WsTransport → Type 0
Counts count t t' = t' ≡ record t { bad_frame_count = count; states = t'.states }

-- Let go of: no socket, no heartbeat, nothing pending.
pub record IsDropped (t : WsTransport) : Type 0 where
  pub ws : t.ws ≡ none
  pub heartbeat_timer : t.heartbeat_timer ≡ false
  pub pending : t.requests.pending ≡ []

-- Whether the frames of a window are few, and what they have led to.
abbrev pub Ending : Bool → ℕ → WsTransport → WsTransport → Type 0
Ending true count t t' = Counts count t t'
Ending false count t t' = IsDropped t'

-- Up to ten refused frames of a window are counted, and nothing else; more than ten end the connection.
abbrev EndsAt : ℕ → WsTransport → WsTransport → Type 0
EndsAt count t t' = (count ≤ 10 → Counts count t t') × (10 < count → IsDropped t')

record IsCounted (t t' : WsTransport) : Type 0 where
  window : t'.bad_frame_window_start ≡ t.bad_frame_window_start
  count : t'.bad_frame_count ≡ t.bad_frame_count + 1
  ends : EndsAt (t.bad_frame_count + 1) t t'

decoded-IsCounted :
    (now : ℕ) (d : Decoded) (t : WsTransport)
    → is_bad d ≡ true
    → now - t.bad_frame_window_start ≤ 5000
    → IsCounted t (decoded now d t)
unfolding on_bad_frame close reject_all
decoded-IsCounted now (frame f) t h k = cc
decoded-IsCounted now (bad reason) t h k =
    let same : ltb 5000 (now - t.bad_frame_window_start) ≡ false = ground arith in
    rw same (elim (Bool-cases (ltb 10 (t.bad_frame_count + 1))) [
      | inl e ↦ rw e (record {
        window = refl;
        count = refl;
        ends = (
          λ few. absurd (ground arith),
          λ _. record { ws = refl; heartbeat_timer = refl; pending = refl },
        );
      })
      | inr e ↦ rw e (record {
        window = refl;
        count = refl;
        ends = (λ _. refl, λ many. absurd (ground arith));
      })
    ])

on_raw_frame-IsCounted :
    (c : Settings) (now : ℕ) (raw : String) (t : WsTransport)
    → IsMalformed c t.bad_frame_window_start (now, raw)
    → IsCounted t (on_raw_frame c now raw t)
unfolding on_raw_frame
on_raw_frame-IsCounted c now raw t (small, refused, soon) =
    let within : ltb c.max_frame_bytes (byte_length raw) ≡ false = ground arith in
    rw within (decoded-IsCounted now (c.decode_frame raw) t refused soon)

feed-EndsAt :
    (c : Settings) (start : ℕ) (m : ℕ × String) (ms : List (ℕ × String)) (t : WsTransport)
    → t.bad_frame_window_start ≡ start
    → All (IsMalformed c start) (m ∷ ms)
    → EndsAt (t.bad_frame_count + length (m ∷ ms)) t (feed c (m ∷ ms) t)
unfolding feed
feed-EndsAt c start (now, raw) [] t e h = (on_raw_frame-IsCounted c now raw t (rw e h.0)).ends
feed-EndsAt c start (now, raw) (m ∷ ms) t e h =
    let t' = on_raw_frame c now raw t in
    let i = on_raw_frame-IsCounted c now raw t (rw e h.0) in
    let rest = feed-EndsAt c start m ms t' (i.window ∙ e) h.1 in
    let total : t'.bad_frame_count + length (m ∷ ms)
        ≡ t.bad_frame_count + length ((now, raw) ∷ m ∷ ms) =
      omega (arith, i.count) in
    let last = feed c (m ∷ ms) t' in
    (
      λ few.
          let first = i.ends.0 (omega (arith, i.count)) in
          let more = rest.0 (omega (arith, i.count)) in
          more
          ∙ ap (λ n. record t' { bad_frame_count = n; states = last.states }) total
          ∙ ap
              (λ (u : WsTransport). record u {
                bad_frame_count = t.bad_frame_count + length ((now, raw) ∷ m ∷ ms);
                states = last.states;
              })
              first,
      λ many. rest.1 (omega (arith, i.count)),
    )

-- Frames that are refused within one window of five seconds: while the window has counted up to ten, the
-- count and what the listeners were told are all that changes, so that the sockets, the heartbeat and the
-- requests stay as they were; with more than ten, the transport has no socket and no heartbeat any more and
-- nothing is pending.
pub feed-malformed :
    (c : Settings) (m : ℕ × String) (ms : List (ℕ × String)) (t : WsTransport)
    → All (IsMalformed c t.bad_frame_window_start) (m ∷ ms)
    → Ending
        (leb (t.bad_frame_count + length (m ∷ ms)) 10)
        (t.bad_frame_count + length (m ∷ ms))
        t
        (feed c (m ∷ ms) t)
feed-malformed c m ms t h =
    let ends = feed-EndsAt c t.bad_frame_window_start m ms t refl h in
    elim (Bool-cases (leb (t.bad_frame_count + length (m ∷ ms)) 10)) [
      | inl few ↦ rw few (ends.0 (ground arith))
      | inr many ↦ rw many (ends.1 (ground arith))
    ]

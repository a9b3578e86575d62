-- ===== src/Pool/Connect/FirstUplink.antt =====
-- `connect` makes the first uplink that answers the active one, and says what is wrong if none does.
use rez_sdk.Common.{
  ℕ, suc, ◌≡◌, refl, ap, subst, ◌∙◌, true, false, Option, none, some, List, [], ◌∷◌, String,
  is_some, if◌then◌else◌, arith, inl, inr, Bool-cases, Option-cases,
}
use rez_sdk.Common.Text.{is_empty}
use rez_sdk.Common.Dict.{lookup}
use rez_sdk.Pool.State.{
  Failure, World, Pool, offline, terminal_home_rejection_code, err_obj, emit_state, is_ready,
  set_active, close_connections, stop_reconnect_timer, schedule_reconnect,
}
use rez_sdk.Pool.Connect.{
  add_conn, attempted, adopt, ensure_connected, connect_loop, first_error, message_of, raw_message,
  conclude_connect, run_connect, ensure_warm_spare_target,
}
use rez_sdk.Pool.Connect.Single.{
  attempted-ready, ensure_connected-Keeps, ensure_connected_down, ensure_connected_up,
  ensure_warm_spare_target-Keeps, ensure_warm_spare_target_active,
}

-- The first of the uplinks that the world lets connect, the n-th attempt being the first one made.
unfoldable pub first_up : World → ℕ → List String → Option String
first_up w n [] = none
first_up w n (u ∷ us) =
    let rest = first_up w (suc n) us in if is_some (w.connects n) then rest else some u

-- The error of the first attempt, where one is made.
abbrev pub first_failure : World → ℕ → List String → Option Failure
first_failure w n [] = none
first_failure w n (u ∷ us) = w.connects n

abbrev NoneReady : Pool → Type 0
NoneReady p = (u : String) → is_ready (lookup u p.conns) ≡ false

-- What the loop leaves when an uplink answers.
record IsUp (u : String) (p : Pool) (q : Pool) : Type 0 where
  active : q.active_url ≡ some u
  ready : q.ready ≡ true
  linked : is_ready (lookup u q.conns) ≡ true
  timer : q.reconnect_timer ≡ p.reconnect_timer

adopt-IsUp :
    (w : World) (u : String) (p : Pool)
    → is_ready (lookup u p.conns) ≡ true
    → IsUp u p (adopt w u p)
unfolding adopt emit_state set_active
adopt-IsUp w u p e = record { active = refl; ready = refl; linked = e; timer = refl }

retimed :
    {u : String} {p q r : Pool} → q.reconnect_timer ≡ p.reconnect_timer → IsUp u q r → IsUp u p r
retimed e h = record { active = h.active; ready = h.ready; linked = h.linked; timer = h.timer ∙ e }

attempted-keeps :
    (url : String) (p : Pool)
    → ((attempted url p).tries ≡ suc p.tries)
      × ((attempted url p).reconnect_timer ≡ p.reconnect_timer)
      × ((attempted url p).active_url ≡ p.active_url)
      × ((attempted url p).ready ≡ p.ready)
      × ((attempted url p).closed ≡ p.closed)
unfolding attempted add_conn
attempted-keeps url p = ground arith

connect_loop-IsUp :
    (w : World) (urls : List String) (p : Pool) (first : Option Failure) {u : String}
    → NoneReady p
    → first_up w p.tries urls ≡ some u
    → IsUp u p (connect_loop w urls p first).0
unfolding first_up connect_loop
connect_loop-IsUp w [] p first n e = cc
connect_loop-IsUp w (url ∷ urls) p first {u} n e = elim (Option-cases (w.connects p.tries)) [
  | inl up ↦
      let (good, entry) = ensure_connected_up w url p (n url) up in
      let q = (ensure_connected w url p).0 in
      let here : url ≡ u = cc in
      rw good (
        subst (λ x. IsUp x p (adopt w url q)) here
          (retimed (ensure_connected-Keeps w url p).reconnect_timer
            (adopt-IsUp w url q (rw entry refl))))
  | inr (f, down) ↦ rw (ensure_connected_down w url p (n url) down) (
      let (tries, timer, _, _, _) = attempted-keeps url p in
      retimed timer (
        connect_loop-IsUp w urls (attempted url p) (first_error first (some f))
          (λ v. attempted-ready url v p (n v)) (rw tries (rw (down, first_up) at e))))
]

-- What the loop leaves when no uplink answers.
record IsDown (p : Pool) (q : Pool) : Type 0 where
  active : q.active_url ≡ p.active_url
  ready : q.ready ≡ p.ready
  timer : q.reconnect_timer ≡ p.reconnect_timer
  closed : q.closed ≡ p.closed

first_error_keep :
    (o : Option Failure) (f : Failure) (x : Option Failure)
    → first_error (first_error o (some f)) x ≡ first_error o (some f)
first_error_keep none f x = refl
first_error_keep (some g) f x = refl

first_error-none : (o : Option Failure) → o ≡ first_error o none
first_error-none none = refl
first_error-none (some f) = refl

connect_loop-IsDown :
    (w : World) (urls : List String) (p : Pool) (first : Option Failure)
    → NoneReady p
    → first_up w p.tries urls ≡ none
    → IsDown p (connect_loop w urls p first).0
      × ((connect_loop w urls p first).1 ≡ first_error first (first_failure w p.tries urls))
unfolding first_up connect_loop
connect_loop-IsDown w [] p first n e =
    (record { active = refl; ready = refl; timer = refl; closed = refl }, first_error-none first)
connect_loop-IsDown w (url ∷ urls) p first n e = elim (Option-cases (w.connects p.tries)) [
  | inl up ↦ absurd (ground arith)
  | inr (f, down) ↦
      let (tries, timer, active, ready, closed) = attempted-keeps url p in
      let (rest, err) =
        connect_loop-IsDown w urls (attempted url p) (first_error first (some f))
          (λ v. attempted-ready url v p (n v)) (rw tries (rw (down, first_up) at e)) in
      rw (ensure_connected_down w url p (n url) down) (
        record {
          active = rest.active ∙ active;
          ready = rest.ready ∙ ready;
          timer = rest.timer ∙ timer;
          closed = rest.closed ∙ closed;
        },
        rw down (err ∙ first_error_keep first f _),
      )
]

-- The pool as `connect` finds it behind its clean-up.
abbrev started : Pool → Pool
started p = close_connections (stop_reconnect_timer (record p { closed = false }))

conclude_connect_up :
    (w : World) (first : Option Failure) (q : Pool) {u : String}
    → q.ready ≡ true
    → q.active_url ≡ some u
    → is_empty u ≡ false
    → conclude_connect w first q ≡ (ensure_warm_spare_target w q, none)
unfolding conclude_connect
conclude_connect_up w first q r a s = rw (r, a, s) refl

-- If some uplink answers and its URL is not empty, `connect` succeeds: the first one that answers is active and linked, the pool
-- is ready, and no reconnect is scheduled.
pub run_connect_up :
    (w : World) (p : Pool) {u : String}
    → first_up w p.tries p.uplinks ≡ some u
    → is_empty u ≡ false
    → ((run_connect w p).1 ≡ none)
      × ((run_connect w p).0.active_url ≡ some u)
      × ((run_connect w p).0.ready ≡ true)
      × (is_ready (lookup u (run_connect w p).0.conns) ≡ true)
      × ((run_connect w p).0.reconnect_timer ≡ none)
unfolding run_connect close_connections stop_reconnect_timer lookup
run_connect_up w p {u} e solid =
    let r = connect_loop w p.uplinks (started p) none in
    let q = r.0 in
    let up : IsUp u (started p) q = connect_loop-IsUp w p.uplinks (started p) none (λ v. refl) e in
    let keeps = ensure_warm_spare_target-Keeps w q in
    rw (conclude_connect_up w r.1 q up.ready up.active solid) (
      refl,
      keeps.active_url ∙ up.active,
      keeps.ready ∙ up.ready,
      ap is_ready (ensure_warm_spare_target_active w q up.active) ∙ up.linked,
      keeps.reconnect_timer ∙ up.timer,
    )

conclude_connect_down :
    (w : World) (first : Option Failure) (q : Pool)
    → q.ready ≡ false
    → conclude_connect w first q ≡ (
        let terminal = terminal_home_rejection_code first in
        if is_empty terminal
        then (
          schedule_reconnect (emit_state (offline (message_of first)) q),
          some (err_obj "UNREACHABLE" (message_of first) true),
        )
        else (
          emit_state (offline (raw_message first)) q,
          some (err_obj terminal (raw_message first) false),
        ))
unfolding conclude_connect
conclude_connect_down w first q r = rw r refl

-- If no uplink answers, `connect` fails: the pool is not ready, has no active uplink and is open. The
-- first error decides the rest: a terminal refusal of the home is thrown under its own code and leaves
-- no reconnect scheduled; any other error is thrown as UNREACHABLE, and a reconnect is scheduled.
pub run_connect_down :
    (w : World) (p : Pool)
    → first_up w p.tries p.uplinks ≡ none
    → ((run_connect w p).0.ready ≡ false)
      × ((run_connect w p).0.active_url ≡ none)
      × ((run_connect w p).0.closed ≡ false)
      × (let terminal = terminal_home_rejection_code (first_failure w p.tries p.uplinks) in
          (is_some (run_connect w p).0.reconnect_timer ≡ is_empty terminal)
          × ((run_connect w p).1
              ≡ some (
                  if is_empty terminal
                  then err_obj "UNREACHABLE" (message_of (first_failure w p.tries p.uplinks)) true
                  else err_obj terminal (raw_message (first_failure w p.tries p.uplinks)) false)))
unfolding run_connect close_connections stop_reconnect_timer lookup schedule_reconnect emit_state
run_connect_down w p e =
    let r = connect_loop w p.uplinks (started p) none in
    let (down, err) = connect_loop-IsDown w p.uplinks (started p) none (λ v. refl) e in
    rw (conclude_connect_down w r.1 r.0 down.ready) (
      rw err
        (elim (Bool-cases
          (is_empty (terminal_home_rejection_code (first_failure w p.tries p.uplinks)))) [
            | inl k ↦ rw k (ground (arith, down))
            | inr k ↦ rw k (ground (arith, down))
          ]))

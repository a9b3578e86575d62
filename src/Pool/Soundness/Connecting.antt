-- ===== src/Pool/Soundness/Connecting.antt =====
-- Connecting keeps the pool sound.
use rez_sdk.Common.{
  ◌≡◌, refl, sym, ap, subst, ◌∙◌, Bool, true, false, not, ◌||◌, Option, none, some, List, [], ◌∷◌,
  String, str_eq, eq_iff, is_some, if◌then◌else◌, arith, inl, inr, Bool-cases, Option-cases,
}
use mathlib.Core.Bool.{false≢true}
use rez_sdk.Common.Text.{is_empty}
use rez_sdk.Common.Dict.{lookup}
use rez_sdk.Pool.State.{
  Failure, World, Pool, is_ready, has_url, set_active, emit_state, close_connections,
  stop_reconnect_timer, terminal_home_rejection_code,
}
use rez_sdk.Pool.Connect.{adopt, ensure_connected, connect_loop, conclude_connect, run_connect}
use rez_sdk.Pool.Connect.Single.{
  ensure_connected-Keeps, ensure_connected_other, ensure_connected_up, ensure_connected_down,
}
use rez_sdk.Pool.Soundness.{
  IsTimed, IsSound, links, Keeps-IsTimed, schedule_reconnect-IsSound, emit_state-IsSound,
  unready-IsSound, ensure_warm_spare_target-IsSound,
}

-- A connection that is there stays, and one that is made is ready.
ensure_connected_again :
    (w : World) (url : String) (p : Pool)
    → is_ready (lookup url p.conns) ≡ true
    → ensure_connected w url p ≡ (p, none)
unfolding ensure_connected
ensure_connected_again w url p r = rw r refl

ensure_connected-ready :
    (w : World) (url u : String) (p : Pool)
    → is_ready (lookup u p.conns) ≡ true
    → is_ready (lookup u (ensure_connected w url p).0.conns) ≡ true
ensure_connected-ready w url u p r = elim (Bool-cases (str_eq url u)) [
  | inl e ↦
      let same : url ≡ u = (eq_iff url u).0 e in
      rw
        (ensure_connected_again w url p
          (subst (λ x. is_ready (lookup x p.conns) ≡ true) (sym same) r))
        r
  | inr e ↦ rw (ensure_connected_other w url u p e) r
]

pub ensure_connected-made :
    (w : World) (url : String) (p : Pool)
    → is_some (ensure_connected w url p).1 ≡ false
    → is_ready (lookup url (ensure_connected w url p).0.conns) ≡ true
ensure_connected-made w url p e = elim (Bool-cases (is_ready (lookup url p.conns))) [
  | inl r ↦ ensure_connected-ready w url url p r
  | inr r ↦ elim (Option-cases (w.connects p.tries)) [
    | inl up ↦ ap is_ready (ensure_connected_up w url p r up).1
    | inr (f, down) ↦
        let failed =
          ap (λ (x : Pool × Option Failure). is_some x.1) (ensure_connected_down w url p r down) in
        absurd (false≢true (sym e ∙ failed))
  ]
]

links-ensure_connected :
    (w : World) (url : String) (p : Pool) (a : Option String)
    → links a p.conns ≡ true
    → links a (ensure_connected w url p).0.conns ≡ true
links-ensure_connected w url p none h = h
links-ensure_connected w url p (some u) h = ensure_connected-ready w url u p h

pub ensure_connected-IsSound :
    (w : World) (url : String) (p : Pool) → IsSound p → IsSound (ensure_connected w url p).0
ensure_connected-IsSound w url p h =
    let k = ensure_connected-Keeps w url p in
    record {
      timed = Keeps-IsTimed p _ k h.timed;
      linked = λ r.
          subst (λ a. links a (ensure_connected w url p).0.conns ≡ true) (sym k.active_url)
            (links-ensure_connected w url p p.active_url (h.linked (sym k.ready ∙ r)));
    }

adopt-IsSound :
    (w : World) (url : String) (p : Pool)
    → is_ready (lookup url p.conns) ≡ true
    → IsTimed p
    → IsSound (adopt w url p)
unfolding adopt emit_state set_active
adopt-IsSound w url p r t = record {
  timed = record { armed_open = t.armed_open; capped = t.capped };
  linked = λ _. r;
}

connect_loop-IsSound :
    (w : World) (urls : List String) (p : Pool) (first : Option Failure)
    → IsSound p
    → IsSound (connect_loop w urls p first).0
unfolding connect_loop
connect_loop-IsSound w [] p first h = h
connect_loop-IsSound w (url ∷ urls) p first h =
    let q = (ensure_connected w url p).0 in
    let safe = ensure_connected-IsSound w url p h in
    elim (Bool-cases (is_some (ensure_connected w url p).1)) [
      | inl e ↦ rw e (connect_loop-IsSound w urls q _ safe)
      | inr e ↦ rw e (adopt-IsSound w url q (ensure_connected-made w url p e) safe.timed)
    ]

pub if-IsSound : (b : Bool) (p q : Pool) → IsSound p → IsSound q → IsSound (if b then p else q)
if-IsSound true p q h k = h
if-IsSound false p q h k = k

conclude_connect-IsSound :
    (w : World) (first : Option Failure) (p : Pool)
    → IsSound p
    → IsSound (conclude_connect w first p).0
unfolding conclude_connect
conclude_connect-IsSound w first p h =
    elim (Bool-cases (not p.ready || not (has_url p.active_url))) [
      | inl e ↦ rw e (elim (Bool-cases (is_empty (terminal_home_rejection_code first))) [
        | inl k ↦ rw k (schedule_reconnect-IsSound _ (emit_state-IsSound _ p h))
        | inr k ↦ rw k (emit_state-IsSound _ p h)
      ])
      | inr e ↦ rw e (ensure_warm_spare_target-IsSound w p h)
    ]

-- `connect` may be called on any pool, and leaves a sound one.
pub run_connect-IsSound : (w : World) (p : Pool) → IsSound (run_connect w p).0
unfolding run_connect close_connections stop_reconnect_timer
run_connect-IsSound w p =
    conclude_connect-IsSound w _ _
      (connect_loop-IsSound w p.uplinks _ none (unready-IsSound _ refl (ground arith)))

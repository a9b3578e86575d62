-- ===== src/Pool/Connect/Single.antt =====
-- One attempt to connect, and what an operation on the connections leaves alone.
use rez_sdk.Common.{
  ◌≡◌, refl, ◌∙◌, Bool, true, false, not, Option, none, some, List, [], ◌∷◌, String, str_eq, eq_iff,
  eq_refl, is_some, if◌then◌else◌, leb, arith, inl, inr, Bool-cases,
}
use rez_sdk.Common.Dict.{lookup, lookup-insert}
use rez_sdk.Pool.State.{Failure, World, Pool, Conn, is_warm, is_ready, is_url, has_url, mark}
use rez_sdk.Pool.Connect.{
  add_conn, attempted, finish_connect, ensure_connected, connected_spares, warm_up, warm_loop,
  ensure_warm_spare_target,
}

-- All but the connections is as it was.
pub record Keeps (p q : Pool) : Type 0 where
  pub uplinks : q.uplinks ≡ p.uplinks
  pub warm_spare_count : q.warm_spare_count ≡ p.warm_spare_count
  pub active_url : q.active_url ≡ p.active_url
  pub session_info : q.session_info ≡ p.session_info
  pub ready : q.ready ≡ p.ready
  pub reconnect_timer : q.reconnect_timer ≡ p.reconnect_timer
  pub reconnect_attempts : q.reconnect_attempts ≡ p.reconnect_attempts
  pub reconnect_backoff_cap_ms : q.reconnect_backoff_cap_ms ≡ p.reconnect_backoff_cap_ms
  pub closed : q.closed ≡ p.closed
  pub requests : q.requests ≡ p.requests
  pub log : q.log ≡ p.log

pub Keeps-refl : (p : Pool) → Keeps p p
Keeps-refl p = ground arith

pub Keeps-trans : (p q r : Pool) → Keeps p q → Keeps q r → Keeps p r
Keeps-trans p q r h k = ground arith

pub mark-Keeps : (url : String) (r h : Bool) (p : Pool) → Keeps p (mark url r h p)
unfolding mark
mark-Keeps url r h p = ground arith

finish_connect-Keeps :
    (url : String) (o : Option Failure) (p : Pool) → Keeps p (finish_connect url o p).0
unfolding finish_connect
finish_connect-Keeps url none p = mark-Keeps url true true p
finish_connect-Keeps url (some f) p = Keeps-refl p

pub ensure_connected-Keeps :
    (w : World) (url : String) (p : Pool) → Keeps p (ensure_connected w url p).0
unfolding ensure_connected attempted add_conn
ensure_connected-Keeps w url p = elim (Bool-cases (is_ready (lookup url p.conns))) [
  | inl e ↦ rw e (Keeps-refl p)
  | inr e ↦ rw e (ground (arith, finish_connect-Keeps url (w.connects p.tries) (attempted url p)))
]

pub warm_up-Keeps : (w : World) (url : String) (p : Pool) → Keeps p (warm_up w url p)
unfolding warm_up
warm_up-Keeps w url p = elim (Bool-cases (is_some (ensure_connected w url p).1)) [
  | inl e ↦ rw e (
      Keeps-trans p (ensure_connected w url p).0 _ (ensure_connected-Keeps w url p)
        (mark-Keeps url false false (ensure_connected w url p).0))
  | inr e ↦ rw e (ensure_connected-Keeps w url p)
]

pub if-Keeps : (b : Bool) (p q r : Pool) → Keeps p q → Keeps p r → Keeps p (if b then q else r)
if-Keeps true p q r h k = h
if-Keeps false p q r h k = k

warm_loop-Keeps : (w : World) (urls : List String) (p : Pool) → Keeps p (warm_loop w urls p)
unfolding warm_loop
warm_loop-Keeps w [] p = Keeps-refl p
warm_loop-Keeps w (url ∷ urls) p =
    let skip = warm_loop-Keeps w urls p in
    let more =
      Keeps-trans p (warm_up w url p) _ (warm_up-Keeps w url p)
        (warm_loop-Keeps w urls (warm_up w url p)) in
    if-Keeps (is_url p.active_url url) p _ _ skip (
      if-Keeps (leb p.warm_spare_count (connected_spares p)) p _ _ (Keeps-refl p)
        (if-Keeps (is_warm (lookup url p.conns)) p _ _ skip more))

-- Keeping spares warm touches nothing but the connections.
pub ensure_warm_spare_target-Keeps : (w : World) (p : Pool) → Keeps p (ensure_warm_spare_target w p)
unfolding ensure_warm_spare_target
ensure_warm_spare_target-Keeps w p = if-Keeps (not (has_url p.active_url)) p _ _ (Keeps-refl p) (
    if-Keeps (leb p.warm_spare_count 0) p _ _ (Keeps-refl p) (
      if-Keeps (leb p.warm_spare_count (connected_spares p)) p _ _ (Keeps-refl p)
        (warm_loop-Keeps w p.uplinks p)))

-- An operation that only writes an entry of one uplink leaves the others'.
pub mark_other :
    (url u : String) (r h : Bool) (p : Pool)
    → str_eq url u ≡ false
    → lookup u (mark url r h p).conns ≡ lookup u p.conns
unfolding mark
mark_other url u r h p e = elim (Bool-cases (is_some (lookup url p.conns))) [
  | inl k ↦ rw k (lookup-insert url u (record { ready = r; healthy = h }) p.conns ∙ rw e refl)
  | inr k ↦ rw k refl
]

pub add_conn_other :
    (url u : String) (p : Pool)
    → str_eq url u ≡ false
    → lookup u (add_conn url p).conns ≡ lookup u p.conns
unfolding add_conn
add_conn_other url u p e = elim (Bool-cases (is_some (lookup url p.conns))) [
  | inl k ↦ rw k refl
  | inr k ↦
      rw k (lookup-insert url u (record { ready = false; healthy = false }) p.conns ∙ rw e refl)
]

pub add_conn-some : (url : String) (p : Pool) → is_some (lookup url (add_conn url p).conns) ≡ true
unfolding add_conn
add_conn-some url p = elim (Bool-cases (is_some (lookup url p.conns))) [
  | inl k ↦ rw k k
  | inr k ↦ rw k (
      rw (lookup-insert url url (record { ready = false; healthy = false }) p.conns)
        (rw eq_refl refl))
]

pub mark-lookup :
    (url : String) (r h : Bool) (p : Pool)
    → is_some (lookup url p.conns) ≡ true
    → lookup url (mark url r h p).conns ≡ some (record { ready = r; healthy = h })
unfolding mark
mark-lookup url r h p e =
    rw e (lookup-insert url url (record { ready = r; healthy = h }) p.conns ∙ rw eq_refl refl)

-- A connection that fails leaves the entries of all uplinks as ready as they were.
pub ensure_connected_down :
    (w : World) (url : String) (p : Pool) {f : Failure}
    → is_ready (lookup url p.conns) ≡ false
    → w.connects p.tries ≡ some f
    → ensure_connected w url p ≡ (attempted url p, some f)
unfolding ensure_connected finish_connect
ensure_connected_down w url p e d = rw (e, d) refl

-- One that succeeds makes the uplink ready.
pub ensure_connected_up :
    (w : World) (url : String) (p : Pool)
    → is_ready (lookup url p.conns) ≡ false
    → w.connects p.tries ≡ none
    → ((ensure_connected w url p).1 ≡ none)
      × (lookup url (ensure_connected w url p).0.conns
          ≡ some (record { ready = true; healthy = true }))
unfolding ensure_connected finish_connect attempted
ensure_connected_up w url p e u =
    (rw (e, u) refl, rw (e, u) (mark-lookup url true true (attempted url p) (add_conn-some url p)))

pub add_conn-ready :
    (url u : String) (p : Pool)
    → is_ready (lookup u p.conns) ≡ false
    → is_ready (lookup u (add_conn url p).conns) ≡ false
unfolding add_conn
add_conn-ready url u p e = elim (Bool-cases (is_some (lookup url p.conns))) [
  | inl k ↦ rw k e
  | inr k ↦ rw k (
      rw (lookup-insert url u (record { ready = false; healthy = false }) p.conns)
        (if-ready (str_eq url u) _ _ refl e))
]
  where
    if-ready :
        (b : Bool) (c d : Option Conn)
        → is_ready c ≡ false
        → is_ready d ≡ false
        → is_ready (if b then c else d) ≡ false
    if-ready true c d h k = h
    if-ready false c d h k = k

finish_connect_other :
    (url u : String) (o : Option Failure) (p : Pool)
    → str_eq url u ≡ false
    → lookup u (finish_connect url o p).0.conns ≡ lookup u p.conns
unfolding finish_connect
finish_connect_other url u none p e = mark_other url u true true p e
finish_connect_other url u (some f) p e = refl

pub ensure_connected_other :
    (w : World) (url u : String) (p : Pool)
    → str_eq url u ≡ false
    → lookup u (ensure_connected w url p).0.conns ≡ lookup u p.conns
unfolding ensure_connected attempted
ensure_connected_other w url u p e = elim (Bool-cases (is_ready (lookup url p.conns))) [
  | inl k ↦ rw k refl
  | inr k ↦ rw k (
      finish_connect_other url u (w.connects p.tries) (attempted url p) e
      ∙ add_conn_other url u p e)
]

warm_up_other :
    (w : World) (url u : String) (p : Pool)
    → str_eq url u ≡ false
    → lookup u (warm_up w url p).conns ≡ lookup u p.conns
unfolding warm_up
warm_up_other w url u p e = elim (Bool-cases (is_some (ensure_connected w url p).1)) [
  | inl k ↦ rw k (
      mark_other url u false false (ensure_connected w url p).0 e
      ∙ ensure_connected_other w url u p e)
  | inr k ↦ rw k (ensure_connected_other w url u p e)
]

if-lookup :
    (b : Bool) (u : String) (q r : Pool) {o : Option Conn}
    → lookup u q.conns ≡ o
    → lookup u r.conns ≡ o
    → lookup u (if b then q else r).conns ≡ o
if-lookup true u q r h k = h
if-lookup false u q r h k = k

pub not_url : (a url : String) → is_url (some a) url ≡ false → str_eq url a ≡ false
not_url a url h = ground (arith, eq_iff a url, eq_iff url a)

warm_loop_active :
    (w : World) (urls : List String) (p : Pool) {u : String}
    → p.active_url ≡ some u
    → lookup u (warm_loop w urls p).conns ≡ lookup u p.conns
unfolding warm_loop
warm_loop_active w [] p a = refl
warm_loop_active w (url ∷ urls) p {u} a = elim (Bool-cases (is_url p.active_url url)) [
  | inl k ↦ rw k (warm_loop_active w urls p a)
  | inr k ↦
      let other = not_url u url (rw a at k) in
      let more =
        warm_loop_active w urls (warm_up w url p) ((warm_up-Keeps w url p).active_url ∙ a)
        ∙ warm_up_other w url u p other in
      rw k (
        if-lookup (leb p.warm_spare_count (connected_spares p)) u p _ refl
          (if-lookup (is_warm (lookup url p.conns)) u _ _ (warm_loop_active w urls p a) more))
]

-- The active uplink's entry is not touched by the search for spares.
pub ensure_warm_spare_target_active :
    (w : World) (p : Pool) {u : String}
    → p.active_url ≡ some u
    → lookup u (ensure_warm_spare_target w p).conns ≡ lookup u p.conns
unfolding ensure_warm_spare_target
ensure_warm_spare_target_active w p {u} a = if-lookup (not (has_url p.active_url)) u p _ refl (
    if-lookup (leb p.warm_spare_count 0) u p _ refl (
      if-lookup (leb p.warm_spare_count (connected_spares p)) u p _ refl
        (warm_loop_active w p.uplinks p a)))

-- A connection that failed makes no uplink ready.
pub attempted-ready :
    (url u : String) (p : Pool)
    → is_ready (lookup u p.conns) ≡ false
    → is_ready (lookup u (attempted url p).conns) ≡ false
unfolding attempted
attempted-ready url u p e = add_conn-ready url u p e

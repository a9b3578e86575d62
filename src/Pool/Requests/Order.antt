-- ===== src/Pool/Requests/Order.antt =====
-- Which uplink answers, and what a request does to the state.
use rez_sdk.Common.{
  ◌≡◌, refl, sym, ap, ◌∙◌, inl, inr, Bool, true, false, not, ◌&&◌, ◌||◌, Option, none, some, List,
  [], ◌∷◌, String, str_eq, eq_iff, is_some, any, arith, Bool-cases, Option-cases,
}
use rez_sdk.Common.Text.{is_empty, trim}
use rez_sdk.Common.Dict.{lookup}
use rez_sdk.Pool.State.{Failure, World, Pool, is_ready, is_url, has_url, set_active, err_obj}
use rez_sdk.Pool.Connect.{ensure_connected}
use rez_sdk.Pool.Connect.Single.{ensure_connected-Keeps}
use rez_sdk.Pool.Soundness.{IsSound}
use rez_sdk.Pool.Soundness.Connecting.{ensure_connected-IsSound}
use rez_sdk.Pool.Requests.{
  Request, Reply, answered, failed, ask, send_active, url_or_empty, ordered, adopt_answering,
  last_reply, send_loop, send_ordered, send_all, send_request,
}

-- A request over all uplinks never changes whether the pool is ready, nor its timer.
record IsQuiet (p q : Pool) : Type 0 where
  ready : q.ready ≡ p.ready
  reconnect_timer : q.reconnect_timer ≡ p.reconnect_timer
  closed : q.closed ≡ p.closed

IsQuiet-trans : (p q r : Pool) → IsQuiet p q → IsQuiet q r → IsQuiet p r
IsQuiet-trans p q r h k = ground arith

connected-IsQuiet : (w : World) (url : String) (p : Pool) → IsQuiet p (ensure_connected w url p).0
connected-IsQuiet w url p =
    let k = ensure_connected-Keeps w url p in
    record { ready = k.ready; reconnect_timer = k.reconnect_timer; closed = k.closed }

adopt_answering-IsQuiet :
    (w : World) (adopt : Bool) (from : Option String) (url : String) (p : Pool)
    → IsQuiet p (adopt_answering w adopt from url p)
unfolding adopt_answering set_active
adopt_answering-IsQuiet w adopt from url p = ground arith

asked-IsQuiet : (w : World) (p : Pool) → IsQuiet p (ask w p).0
unfolding ask
asked-IsQuiet w p = ground arith

last_reply-failed : (t : String) (o : Option Failure) → (f : Failure) × (last_reply t o ≡ failed f)
last_reply-failed t none = (_, refl)
last_reply-failed t (some f) = (f, refl)

-- The rule of the loop: `P` holds while uplinks are tried, `Q` of the outcome.
module _ (w : World) (r : Request) (from : Option String) (P : Pool → Type 0)
    (Q : Pool × Reply → Type 0)
    (ensured : (url : String) (p : Pool) → P p → P (ensure_connected w url p).0)
    (asked : (p : Pool) → P p → P (ask w p).0)
    (ended : (p : Pool) (f : Failure) → P p → Q (p, failed f))
    (adopted : (url : String) (p : Pool)
      → P p
      → is_ready (lookup url p.conns) ≡ true
      → Q (adopt_answering w r.adopt_successful_uplink from url p, answered url)) where
  send_loop_rule :
      (urls : List String) (p : Pool) (last : Option Failure)
      → P p
      → Q (send_loop w r from urls p last)
  unfolding send_loop ask
  send_loop_rule [] p last h = let (f, e) = last_reply-failed r.type last in rw e (ended p f h)
  send_loop_rule (url ∷ urls) p last h =
      let q = (ensure_connected w url p).0 in
      let s = (ask w q).0 in
      let hq = ensured url p h in
      let hs = asked q hq in
      elim (Bool-cases (is_some (ensure_connected w url p).1)) [
        | inl e ↦ rw e (send_loop_rule urls q _ hq)
        | inr e ↦ rw e (elim (Bool-cases (is_ready (lookup url q.conns))) [
          | inr k ↦ rw k (send_loop_rule urls q last hq)
          | inl k ↦ rw k (elim (Option-cases (w.replies q.requests)) [
            | inl o ↦ rw o (adopted url s hs k)
            | inr (f, o) ↦
                rw o (elim (Bool-cases (any (λ c. str_eq c (trim f.code)) r.continue_on_codes)) [
                  | inl a ↦ rw a (send_loop_rule urls s _ hs)
                  | inr a ↦ rw a (ended s f hs)
                ])
          ])
        ])
      ]

-- All that a request over the uplinks needs of the pool and of what it is asked for is kept by `P`.
module _ (w : World) (r : Request) (start : Pool) (P : Pool → Type 0) (Q : Pool × Reply → Type 0)
    (ensured : (url : String) (p : Pool) → P p → P (ensure_connected w url p).0)
    (asked : (p : Pool) → P p → P (ask w p).0)
    (ended : (p : Pool) (f : Failure) → P p → Q (p, failed f))
    (adopted : (url : String) (p : Pool)
      → P p
      → is_ready (lookup url p.conns) ≡ true
      → Q (adopt_answering w r.adopt_successful_uplink start.active_url url p, answered url)) where
  send_ordered_rule : (urls : List String) → P start → Q (send_ordered w r urls start)
  unfolding send_ordered
  send_ordered_rule [] h = ended start _ h
  send_ordered_rule (url ∷ urls) h =
      send_loop_rule w r start.active_url P Q ensured asked ended adopted (url ∷ urls) start none h

  send_all_rule : P start → Q (send_all w r start)
  unfolding send_all
  send_all_rule h =
      send_ordered_rule (ordered r.skip_active_uplink start.active_url start.uplinks) h

-- A request over all uplinks does not change whether the pool is ready, and if it is answered under
-- `adopt_successful_uplink`, the uplink that answered is the active one.
record IsAdopted (r : Request) (start : Pool) (o : Pool × Reply) : Type 0 where
  ready : o.0.ready ≡ start.ready
  active :
      (u : String) → o.1 ≡ answered u → r.adopt_successful_uplink ≡ true → o.0.active_url ≡ some u

adopt_answering-active :
    (w : World) (from : Option String) (url : String) (p : Pool)
    → (adopt_answering w true from url p).active_url ≡ some url
unfolding adopt_answering set_active
adopt_answering-active w from url p = elim (Option-cases p.active_url) [
  | inl e ↦ ground arith
  | inr (a, e) ↦ ground (arith, eq_iff a url)
]

answered-injective : {u v : String} → answered u ≡ answered v → u ≡ v
answered-injective e = cc

send_all-IsAdopted : (w : World) (r : Request) (p : Pool) → IsAdopted r p (send_all w r p)
send_all-IsAdopted w r p =
    send_all_rule w r p (IsQuiet p) (IsAdopted r p)
      (λ url q h. IsQuiet-trans p q _ h (connected-IsQuiet w url q))
      (λ q h. IsQuiet-trans p q _ h (asked-IsQuiet w q))
      (λ q f h. record { ready = h.ready; active = λ u e. cc })
      (λ url q h k. record {
        ready = (IsQuiet-trans p q _ h (adopt_answering-IsQuiet w _ _ url q)).ready;
        active = λ u e on.
            rw on (adopt_answering-active w p.active_url url q ∙ ap some (answered-injective e));
      })
      (ground arith)

send_request-send_all :
    (w : World) (r : Request) (p : Pool)
    → is_empty (trim r.type) ≡ false
    → r.try_all_uplinks ≡ true
    → send_request w r p ≡ send_all w (record r { type = trim r.type }) p
unfolding send_request
send_request-send_all w r p e all = simp (e, all)

send_request-unready :
    (w : World) (r : Request) (p : Pool)
    → p.ready ≡ false
    → is_empty (trim r.type) ≡ false
    → r.try_all_uplinks ≡ false
    → (send_request w r p).1 ≡ failed (err_obj "NOT_READY" "uplink pool not ready" true)
unfolding send_request send_active
send_request-unready w r p unready e one = simp (e, one, unready)

-- A pool that is not ready does not become ready by a request that adopts the uplink which answered:
-- that uplink is the active one, and still the next plain request is refused as NOT_READY.
pub send_request-not_ready :
    (w : World) (r plain : Request) (p : Pool) (u : String)
    → p.ready ≡ false
    → is_empty (trim r.type) ≡ false
    → r.try_all_uplinks ≡ true
    → r.adopt_successful_uplink ≡ true
    → (send_request w r p).1 ≡ answered u
    → is_empty (trim plain.type) ≡ false
    → plain.try_all_uplinks ≡ false
    → ((send_request w r p).0.active_url ≡ some u)
      × ((send_request w plain (send_request w r p).0).1
          ≡ failed (err_obj "NOT_READY" "uplink pool not ready" true))
send_request-not_ready w r plain p u unready e all on got solid one =
    let r' = record r { type = trim r.type } in
    let h = send_all-IsAdopted w r' p in
    let same = send_request-send_all w r p e all in
    (
      ap (λ (o : Pool × Reply). o.0.active_url) same
          ∙ h.active u (ap (λ (o : Pool × Reply). o.1) (sym same) ∙ got) on,
      send_request-unready w plain (send_request w r p).0
          (ap (λ (o : Pool × Reply). o.0.ready) same ∙ h.ready ∙ unready) solid one,
    )

-- Requests keep the pool sound.
adopt_answering-IsSound :
    (w : World) (adopt : Bool) (from : Option String) (url : String) (p : Pool)
    → is_ready (lookup url p.conns) ≡ true
    → IsSound p
    → IsSound (adopt_answering w adopt from url p)
unfolding adopt_answering set_active
adopt_answering-IsSound w adopt from url p k h =
    elim (Bool-cases (adopt && not (is_url p.active_url url))) [
      | inl e ↦ rw e (record {
        timed = record { armed_open = h.timed.armed_open; capped = h.timed.capped };
        linked = λ _. k;
      })
      | inr e ↦ rw e h
    ]

asked-IsSound : (w : World) (p : Pool) → IsSound p → IsSound (ask w p).0
unfolding ask
asked-IsSound w p h = record {
  timed = record { armed_open = h.timed.armed_open; capped = h.timed.capped };
  linked = h.linked;
}

send_active-IsSound : (w : World) (p : Pool) → IsSound p → IsSound (send_active w p).0
unfolding send_active
send_active-IsSound w p h = elim (Bool-cases (not p.ready || not (has_url p.active_url))) [
  | inl e ↦ rw e h
  | inr e ↦ rw e (elim (Bool-cases (not (is_ready (lookup (url_or_empty p.active_url) p.conns)))) [
    | inl k ↦ rw k h
    | inr k ↦ rw k (asked-IsSound w p h)
  ])
]

pub send_request-IsSound :
    (w : World) (r : Request) (p : Pool) → IsSound p → IsSound (send_request w r p).0
unfolding send_request
send_request-IsSound w r p h = elim (Bool-cases (is_empty (trim r.type))) [
  | inl e ↦ rw e h
  | inr e ↦ rw e (elim (Bool-cases (not r.try_all_uplinks)) [
    | inl k ↦ rw k (send_active-IsSound w p h)
    | inr k ↦ rw k (
        send_all_rule w (record r { type = trim r.type }) p IsSound (λ o. IsSound o.0)
          (λ url q s. ensure_connected-IsSound w url q s) (λ q s. asked-IsSound w q s) (λ q f s. s)
          (λ url q s t. adopt_answering-IsSound w _ _ url q t s) h)
  ])
]

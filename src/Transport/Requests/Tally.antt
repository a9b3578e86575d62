-- ===== src/Transport/Requests/Tally.antt =====
-- Each request is waiting or settled, and settled once.
use rez_sdk.Common.{
  ℕ, ◌+◌, ◌<◌, ◌≡◌, refl, Bool, true, false, ◌&&◌, Option, none, some, List, [], ◌∷◌, String, ◌==◌,
  leb, arith, eq_refl, inl, inr, Bool-cases, Option-cases,
}
use rez_sdk.Transport.Requests.{
  make_id, expectation, RequestId, same_id, Entry, Settled, Outcome, TransportError, Requests, find,
  put, remove, Sending, sent, send_failed, encode_failed, issue, settle, reject_each, reject_all,
}

abbrev one_if : Bool → ℕ
one_if true = 1
one_if false = 0

-- How often the n-th request is pending, and how often it was settled.
abbrev pub waiting : ℕ → List Entry → ℕ
waiting n [] = 0
waiting n (e ∷ es) = one_if (e.id.seq == n) + waiting n es

abbrev pub answered : ℕ → List Settled → ℕ
answered n [] = 0
answered n (s ∷ ss) = one_if (s.entry.id.seq == n) + answered n ss

-- The n-th request was sent.
abbrev pub was_issued : ℕ → ℕ → Bool
was_issued seq n = leb 1 n && leb n seq

-- Each number that was given away is once in the table or once in the log, no other one is anywhere.
abbrev pub Tally : Requests → Type 0
Tally r = (n : ℕ) → waiting n r.pending + answered n r.settled ≡ one_if (was_issued r.seq n)

waiting-find :
    (n : ℕ) (id : RequestId) (es : List Entry) {e : Entry}
    → find id es ≡ some e
    → waiting n es ≡ one_if (e.id.seq == n) + waiting n (remove id es)
unfolding find remove
waiting-find n id [] h = cc
waiting-find n id (a ∷ es) {e} h = elim (Bool-cases (same_id a.id id)) [
  | inl s ↦ ground arith
  | inr s ↦ ground (arith, waiting-find n id es {e = e})
]

find-none : (id : RequestId) (es : List Entry) → waiting id.seq es ≡ 0 → find id es ≡ none
unfolding find
find-none id [] h = refl
find-none id (a ∷ es) h = ground (arith, find-none id es)

remove-put : (e : Entry) (es : List Entry) → find e.id es ≡ none → remove e.id (put e es) ≡ es
unfolding find put remove
remove-put e [] h = ground (arith, eq_refl e.id.prefix)
remove-put e (a ∷ es) h = ground (arith, remove-put e es)

waiting-put :
    (n : ℕ) (e : Entry) (es : List Entry)
    → find e.id es ≡ none
    → waiting n (put e es) ≡ one_if (e.id.seq == n) + waiting n es
unfolding find put
waiting-put n e [] h = refl
waiting-put n e (a ∷ es) h = ground (arith, waiting-put n e es)

pub settle-Tally :
    (f : Entry → Outcome) (id : RequestId) (r : Requests) → Tally r → Tally (settle f id r)
unfolding settle
settle-Tally f id r t n = elim (Option-cases (find id r.pending)) [
  | inl e ↦ rw e (t n)
  | inr (a, e) ↦ rw e (omega (arith, t n, waiting-find n id r.pending e))
]

answered-reject_each :
    (n : ℕ) (err : TransportError) (es : List Entry) (log : List Settled)
    → answered n (reject_each err es log) ≡ waiting n es + answered n log
unfolding reject_each
answered-reject_each n err [] log = omega arith
answered-reject_each n err (e ∷ es) log = omega (
  arith,
  answered-reject_each n err es (record { entry = e; outcome = Outcome.rejected err } ∷ log),
)

pub reject_all-Tally : (err : TransportError) (r : Requests) → Tally r → Tally (reject_all err r)
unfolding reject_all
reject_all-Tally err r t n = omega (arith, t n, answered-reject_each n err r.pending r.settled)

one-was_issued :
    (seq n : ℕ)
    → one_if (was_issued (seq + 1) n) ≡ one_if (seq + 1 == n) + one_if (was_issued seq n)
one-was_issued seq n = ground arith

find-fresh : (id : RequestId) (r : Requests) → Tally r → r.seq < id.seq → find id r.pending ≡ none
find-fresh id r t h = find-none id r.pending (ground (arith, t id.seq))

pub issue-Tally :
    (type : String) (expected : Option String) (now : ℕ) (answer : Sending) (r : Requests)
    → Tally r
    → Tally (issue type expected now answer r)
unfolding issue
issue-Tally type expected now sent r t n =
    let id = make_id type now (r.seq + 1) in
    omega (
      arith,
      t n,
      one-was_issued r.seq n,
      waiting-put n (record { id = id; expected = expectation expected }) r.pending
          (find-fresh id r t (omega arith)),
    )
issue-Tally type expected now (send_failed m) r t n =
    let id = make_id type now (r.seq + 1) in
    let e : Entry = record { id = id; expected = expectation expected } in
    rw (remove-put e r.pending (find-fresh id r t (omega arith)))
      (omega (arith, t n, one-was_issued r.seq n))
issue-Tally type expected now (encode_failed m) r t n = omega (arith, t n, one-was_issued r.seq n)

-- ===== src/Transport/Requests/Answers.antt =====
-- What a request is resolved with.
use rez_sdk.Common.{
  ℕ, ◌≡◌, refl, Bool, false, Option, some, List, [], ◌∷◌, String, All, arith, eq_iff, inl, inr,
  Bool-cases, Option-cases,
}
use rez_sdk.Transport.Requests.{
  RequestId, same_id, issued, Frame, Entry, Settled, Outcome, resolved, rejected, thrown,
  TransportError, Requests, find, Sending, sent, send_failed, encode_failed, issue, settle,
  reject_each, reject_all, is_unexpected, response,
}

-- A promise that is resolved got a frame that carries its id, is no error, and has the type that was
-- expected, if one was.
abbrev pub IsAnswer : (String → Bool) → Entry → Outcome → Type 0
IsAnswer is_error e (resolved id f) =
    (id ≡ e.id)
    × (f.id ≡ some (issued e.id))
    × (is_error f.type ≡ false)
    × (is_unexpected e.expected f.type ≡ false)
IsAnswer is_error e (rejected err) = Unit
IsAnswer is_error e (thrown message) = Unit

abbrev pub AreAnswers : (String → Bool) → List Settled → Type 0
AreAnswers is_error = All (λ s. IsAnswer is_error s.entry s.outcome)

pub find-same_id : (id : RequestId) (es : List Entry) {e : Entry} → find id es ≡ some e → e.id ≡ id
unfolding find
find-same_id id [] h = cc
find-same_id id (a ∷ es) {e} h = elim (Bool-cases (same_id a.id id)) [
  | inl s ↦ ground (arith, eq_iff a.id.prefix id.prefix)
  | inr s ↦ ground (arith, find-same_id id es {e = e})
]

module _ (is_error : String → Bool) where
  pub response-IsAnswer :
      (f : Frame) (e : Entry)
      → f.id ≡ some (issued e.id)
      → is_error f.type ≡ false
      → IsAnswer is_error e (response f e)
  response-IsAnswer f e here fine = elim (Bool-cases (is_unexpected e.expected f.type)) [
    | inl u ↦ rw u tt
    | inr u ↦ rw u (refl, here, fine, u)
  ]

  pub settle-AreAnswers :
      (outcome : Entry → Outcome) (id : RequestId) (r : Requests)
      → ((e : Entry) → e.id ≡ id → IsAnswer is_error e (outcome e))
      → AreAnswers is_error r.settled
      → AreAnswers is_error (settle outcome id r).settled
  unfolding settle
  settle-AreAnswers outcome id r good h = elim (Option-cases (find id r.pending)) [
    | inl e ↦ rw e h
    | inr (a, e) ↦ rw e (good a (find-same_id id r.pending e), h)
  ]

  reject_each-AreAnswers :
      (err : TransportError) (es : List Entry) (log : List Settled)
      → AreAnswers is_error log
      → AreAnswers is_error (reject_each err es log)
  unfolding reject_each
  reject_each-AreAnswers err [] log h = h
  reject_each-AreAnswers err (e ∷ es) log h = reject_each-AreAnswers err es _ (tt, h)

  pub reject_all-AreAnswers :
      (err : TransportError) (r : Requests)
      → AreAnswers is_error r.settled
      → AreAnswers is_error (reject_all err r).settled
  unfolding reject_all
  reject_all-AreAnswers err r h = reject_each-AreAnswers err r.pending r.settled h

  pub issue-AreAnswers :
      (type : String) (expected : Option String) (now : ℕ) (answer : Sending) (r : Requests)
      → AreAnswers is_error r.settled
      → AreAnswers is_error (issue type expected now answer r).settled
  unfolding issue
  issue-AreAnswers type expected now sent r h = h
  issue-AreAnswers type expected now (send_failed m) r h = (tt, h)
  issue-AreAnswers type expected now (encode_failed m) r h = (tt, h)

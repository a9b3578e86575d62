-- ===== src/DeviceLink/Timeout.antt =====
-- The end of the poll of the new device (src/device-link/DeviceLinkRequester.js).
use rez_sdk.Common.{
  ℕ, ◌+◌, ◌≡◌, refl, true, none, some, List, [], ◌∷◌, All, any, leb, String, arith, inl, inr,
  Bool-cases,
}
use rez_sdk.DeviceLink.Requester.{
  put_request, timed_out, Look, threw, Ports, stop, poll, run_device_link_requester,
}

module _ (ports : Ports) where
  open ports use {Request, Sealed}

  poll-timed_out :
      (request : Request) (deadline : ℕ) (looks : List (Look Sealed))
      → All (λ (l : Look Sealed). l.found ≡ none) looks
      → any (λ (l : Look Sealed). leb deadline l.at) looks ≡ true
      → poll ports request deadline looks ≡ stop ports timed_out
  unfolding poll
  poll-timed_out request deadline [] empty = λ h. absurd (ground (arith, h))
  poll-timed_out request deadline (l ∷ ls) (empty, rest) = elim (Bool-cases (leb deadline l.at)) [
    | inl late ↦ rw late (λ h. refl)
    | inr early ↦ rw (early, empty) (poll-timed_out request deadline ls rest)
  ]

  -- A request that was put and that no primary device answers ends: if every turn of the poll finds the
  -- rendezvous empty, and some turn reads a clock that has reached the deadline (the start and the time
  -- allowed), then the run throws a timeout, and all that it did is to put the request.
  pub run-timed_out :
      (code : String) (started_at deadline_ms : ℕ) (request : Request) (looks : List (Look Sealed))
      → ports.prepare code started_at ≡ some request
      → ports.put_request_record request ≡ true
      → All (λ (l : Look Sealed). l.found ≡ none) looks
      → any (λ (l : Look Sealed). leb (started_at + deadline_ms) l.at) looks ≡ true
      → run_device_link_requester ports code started_at deadline_ms looks
        ≡ (put_request ∷ [], threw timed_out)
  unfolding run_device_link_requester
  run-timed_out code started_at deadline_ms request looks prepared sent empty late =
      rw (prepared, sent) (poll-timed_out request (started_at + deadline_ms) looks empty late)

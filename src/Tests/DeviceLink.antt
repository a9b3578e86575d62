-- ===== src/Tests/DeviceLink.antt =====
-- The ceremony of a new device with a primary that grants the capabilities it names.
use rez_sdk.Common.{ℕ, ◌≡◌, refl, true, none, some, List, [], ◌∷◌, String}
use rez_sdk.DeviceLink.Requester.{
  put_request, persisted, put_confirm, not_granted, timed_out, Look, linked, threw, granted, Ports,
  missing, poll, run_device_link_requester,
}
use rez_sdk.DeviceLink.Confirmed.{IsBacked, run-IsBacked}
use rez_sdk.DeviceLink.Timeout.{run-timed_out}

-- A response is the list of the capabilities that it grants.
abbrev ports : Ports
ports = record {
  Request = String;
  Sealed = List String;
  Payload = List String;
  Opened = List String;
  Delegation = List String;
  prepare = λ code now. some code;
  put_request_record = λ request. true;
  verify_record = λ now request sealed. some sealed;
  open_response = λ request payload. some payload;
  verify_authority = λ request opened. some (granted opened);
  result_of = λ request opened. opened;
  persist = λ delegation. true;
  build_confirm = λ request opened. true;
  put_confirm_record = λ request opened. true;
  device_set_publish = "deviceSet.publish";
}

abbrev empty_at : ℕ → Look (List String)
empty_at now = record { at = now; found = none }

abbrev answered_at : ℕ → List String → Look (List String)
answered_at now capabilities = record { at = now; found = some capabilities }

abbrev both : List String
both = "deviceSet.publish" ∷ "peerLink.create" ∷ []

program : Unit {0}
unfolding run_device_link_requester poll missing
program = tt

links :
    run_device_link_requester ports "code" 5 100 (empty_at 6 ∷ answered_at 104 both ∷ [])
    ≡ (put_request ∷ persisted both ∷ put_confirm ∷ [], linked both)
unfolding program
links = refl

too_little :
    run_device_link_requester ports "code" 5 100 (answered_at 6 ("peerLink.create" ∷ []) ∷ [])
    ≡ (put_request ∷ [], threw (not_granted "deviceSet.publish"))
unfolding program
too_little = refl

run-IsBacked_example :
    IsBacked ports
      (run_device_link_requester ports "code" 5 100 (empty_at 6 ∷ answered_at 104 both ∷ []))
unfolding program
run-IsBacked_example = run-IsBacked ports "code" 5 100 (empty_at 6 ∷ answered_at 104 both ∷ []) refl

run-timed_out_example :
    run_device_link_requester ports "code" 5 100 (empty_at 6 ∷ empty_at 105 ∷ [])
    ≡ (put_request ∷ [], threw timed_out)
run-timed_out_example =
    run-timed_out ports "code" 5 100 "code" (empty_at 6 ∷ empty_at 105 ∷ []) refl refl
      (refl, (refl, tt)) refl

-- ===== src/Events/Bus/Dispatch.antt =====
-- Who is called by an emission.
use rez_sdk.Common.{ℕ, ◌≡◌, refl, ap, ◌∙◌, List, [], ◌∷◌, String, length, arith}
use rez_sdk.Common.Dict.{lookup}
use rez_sdk.Events.Bus.{
  Handler, plain, wrapper, Bus, or_empty, on, off, once, emit, call, go_on, remove_all_listeners,
  Change, on_change, off_change, once_change, remove_change, change, change_all, run,
  listener_count,
}

-- The emissions and the calls are as they were.
abbrev Undisturbed : Bus → Bus → Type 0
Undisturbed b c = (c.running ≡ b.running) × (c.called ≡ b.called)

change-Undisturbed : (c : Change) (b : Bus) → Undisturbed b (change c b)
unfolding change on off once remove_all_listeners
change-Undisturbed (on_change event h) b = (refl, refl)
change-Undisturbed (off_change event h) b = (refl, refl)
change-Undisturbed (once_change event i) b = (refl, refl)
change-Undisturbed (remove_change event) b = ground arith

change_all-Undisturbed : (cs : List Change) (b : Bus) → Undisturbed b (change_all cs b)
unfolding change_all
change_all-Undisturbed [] b = (refl, refl)
change_all-Undisturbed (c ∷ cs) b =
    let (r, k) = change-Undisturbed c b in
    let (r', k') = change_all-Undisturbed cs (change c b) in (r' ∙ r, k' ∙ k)

-- One step of an emission that has a handler to call.
go_on-calls :
    (event : String) (h : Handler) (hs : List Handler) (rest : List (String × List Handler))
    (b : Bus)
    → ((go_on ((event, h ∷ hs) ∷ rest) b).running ≡ (event, hs) ∷ rest)
      × ((go_on ((event, h ∷ hs) ∷ rest) b).called ≡ h ∷ b.called)
unfolding go_on call off
go_on-calls event (plain i) hs rest b = (refl, refl)
go_on-calls event (wrapper n i) hs rest b = (refl, refl)

-- The handlers in the order in which they were called, on top of what was called before.
abbrev pub calls_after : List Handler → List Handler → List Handler
calls_after [] before = before
calls_after (h ∷ hs) before = calls_after hs (h ∷ before)

run-calls :
    (event : String) (hs : List Handler) (rest : List (String × List Handler))
    (css : List (List Change)) (b : Bus)
    → b.running ≡ (event, hs) ∷ rest
    → length css ≡ length hs
    → ((run css b).running ≡ (event, []) ∷ rest) × ((run css b).called ≡ calls_after hs b.called)
unfolding run
run-calls event [] rest [] b r e = (r, refl)
run-calls event [] rest (cs ∷ css) b r e = absurd (ground arith)
run-calls event (h ∷ hs) rest [] b r e = absurd (ground arith)
run-calls event (h ∷ hs) rest (cs ∷ css) b r e =
    let n = go_on b.running b in
    let c = change_all cs n in
    let (running, called) = go_on-calls event h hs rest b in
    let (kept, kept') = change_all-Undisturbed cs n in
    let now : c.running ≡ (event, hs) ∷ rest = kept ∙ ap (λ x. (go_on x b).running) r ∙ running in
    let calls : c.called ≡ h ∷ b.called = kept' ∙ ap (λ x. (go_on x b).called) r ∙ called in
    let (done, all) = run-calls event hs rest css c now (ground arith) in
    (done, all ∙ ap (calls_after hs) calls)

-- An emission calls the handlers that were subscribed when it began, each once and in the order of their
-- subscription, and then ends, whatever the handlers subscribe or take off while they run.
pub emit-calls :
    (event : String) (b : Bus) (css : List (List Change))
    → length css ≡ listener_count event b
    → let c = run css (emit event b) in
      (c.called ≡ calls_after (or_empty (lookup event b.handlers)) b.called)
      × ((go_on c.running c).running ≡ b.running)
unfolding emit listener_count
emit-calls event b css e =
    let start = emit event b in
    let (done, all) =
      run-calls event (or_empty (lookup event b.handlers)) b.running css start refl e in
    (all, ap (λ x. (go_on x (run css start)).running) done ∙ unfold go_on in refl)

-- The first step of an emission, for a handler that was handed in itself.
first_step :
    (event : String) (b : Bus) (i : ℕ) (hs : List Handler)
    → or_empty (lookup event b.handlers) ≡ plain i ∷ hs
    → let outer = run ([] ∷ []) (emit event b) in
      (outer.handlers ≡ b.handlers)
      × (outer.running ≡ (event, hs) ∷ b.running)
      × (outer.called ≡ plain i ∷ b.called)
unfolding run emit go_on change_all call
first_step event b i hs e = (rw e refl, rw e refl, rw e refl)

-- The inner emission ends, and the outer one goes on to a wrapper.
last_steps :
    (event : String) (n j : ℕ) (rest : List (String × List Handler)) (c : Bus)
    → c.running ≡ (event, []) ∷ (event, wrapper n j ∷ []) ∷ rest
    → (run ([] ∷ [] ∷ []) c).called ≡ wrapper n j ∷ c.called
unfolding run go_on change_all call off
last_steps event n j rest c e = rw e refl

-- A handler that emits its own event again makes a `once` listener behind it run twice: the inner emission
-- calls the wrapper, and the outer one, which has it still in its copy, calls it a second time.
pub once_called_twice :
    (event : String) (b : Bus) (i n j : ℕ)
    → or_empty (lookup event b.handlers) ≡ plain i ∷ wrapper n j ∷ []
    → let outer = run ([] ∷ []) (emit event b) in
      let inner = run ([] ∷ [] ∷ []) (emit event outer) in
      (run ([] ∷ [] ∷ []) inner).called ≡ wrapper n j ∷ wrapper n j ∷ plain i ∷ plain i ∷ b.called
unfolding emit
once_called_twice event b i n j e =
    let outer = run ([] ∷ []) (emit event b) in
    let (handlers, running, called) = first_step event b i (wrapper n j ∷ []) e in
    let again : or_empty (lookup event outer.handlers) ≡ plain i ∷ wrapper n j ∷ [] =
      ap (λ m. or_empty (lookup event m)) handlers ∙ e in
    let (ended, all) =
      run-calls event (plain i ∷ wrapper n j ∷ []) outer.running ([] ∷ [] ∷ []) (emit event outer)
        (ap (λ hs. (event, hs) ∷ outer.running) again) refl in
    let inner = run ([] ∷ [] ∷ []) (emit event outer) in
    last_steps event n j b.running inner (ended ∙ ap (λ r. (event, []) ∷ r) running)
    ∙ ap (λ x. wrapper n j ∷ x) (all ∙ ap (λ x. wrapper n j ∷ plain i ∷ x) called)

-- ===== src/Events/Bus.antt =====
-- Subscriptions and emissions (src/events/TypedEventBus.js). What a handler does while it runs is a
-- sequence of further calls, so that an emission goes on step by step.
pub mod Dispatch
pub mod Subscription
use rez_sdk.Common.{
  ℕ, ◌+◌, Bool, true, false, not, ◌&&◌, Option, none, some, List, [], ◌∷◌, ◌++◌, String, ◌==◌,
  is_some, if◌then◌else◌, any, filter, length,
}
use rez_sdk.Common.Text.{is_empty}
use rez_sdk.Common.Dict.{Dict, lookup, insert, erase}

-- A function that was handed in, or the wrapper which a call of `once` makes around one; the first
-- number of a wrapper tells it from the others.
pub data Handler : Type 0 where
  plain : ℕ → Handler
  wrapper : ℕ → ℕ → Handler

abbrev pub same : Handler → Handler → Bool
same (plain i) (plain j) = i == j
same (wrapper n i) (wrapper m j) = n == m && i == j
same _ _ = false

-- The state: `#handlers`; how many wrappers there are; the emissions that run, the innermost first,
-- each with its event and the handlers that it has still to call; and what was called.
pub record Bus : Type 0 where
  pub handlers : Dict (List Handler)
  pub wrappers : ℕ
  pub running : List (String × List Handler)
  pub called : List Handler

abbrev pub or_empty : Option (List Handler) → List Handler
or_empty none = []
or_empty (some hs) = hs

-- `set.add` and `set.delete`
abbrev pub add : Handler → List Handler → List Handler
add h hs = if any (same h) hs then hs else hs ++ (h ∷ [])

abbrev pub delete : Handler → List Handler → List Handler
delete h hs = filter (λ g. not (same h g)) hs

-- `on`, for an event with a name
unfoldable pub on : String → Handler → Bus → Bus
on event h b = record b {
  handlers = insert event (add h (or_empty (lookup event b.handlers))) b.handlers;
}

-- `if (set.size === 0) this.#handlers.delete(eventName)`
abbrev pub put_back : String → List Handler → Dict (List Handler) → Dict (List Handler)
put_back event [] m = erase event m
put_back event (h ∷ hs) m = insert event (h ∷ hs) m

abbrev pub without :
    String → Handler → Option (List Handler) → Dict (List Handler) → Dict (List Handler)
without event h none m = m
without event h (some hs) m = put_back event (delete h hs) m

-- `off`, and what `on` returns
unfoldable pub off : String → Handler → Bus → Bus
off event h b = record b { handlers = without event h (lookup event b.handlers) b.handlers }

-- `once`
unfoldable pub once : String → ℕ → Bus → Bus
unfolding on
once event i b = on event (wrapper b.wrappers i) (record b { wrappers = b.wrappers + 1 })

-- `emit` takes a copy of the handlers.
unfoldable pub emit : String → Bus → Bus
emit event b = record b { running = (event, or_empty (lookup event b.handlers)) ∷ b.running }

-- A wrapper takes itself off before it calls its function.
unfoldable pub call : String → Handler → Bus → Bus
unfolding off
call event (plain i) b = record b { called = plain i ∷ b.called }
call event (wrapper n i) b =
    let c = off event (wrapper n i) b in record c { called = wrapper n i ∷ c.called }

-- The innermost emission goes on by one handler, or ends.
unfoldable pub go_on : List (String × List Handler) → Bus → Bus
unfolding call
go_on [] b = b
go_on ((event, []) ∷ rest) b = record b { running = rest }
go_on ((event, h ∷ hs) ∷ rest) b = call event h (record b { running = (event, hs) ∷ rest })

-- `removeAllListeners`
unfoldable pub remove_all_listeners : String → Bus → Bus
remove_all_listeners event b =
    if is_empty event
    then record b { handlers = [] }
    else record b { handlers = erase event b.handlers }

-- `listenerCount`
unfoldable pub listener_count : String → Bus → ℕ
listener_count event b = length (or_empty (lookup event b.handlers))

-- What code can do to the subscriptions.
pub data Change : Type 0 where
  on_change off_change : String → Handler → Change
  once_change : String → ℕ → Change
  remove_change : String → Change

unfoldable pub change : Change → Bus → Bus
unfolding on off once remove_all_listeners
change (on_change event h) b = on event h b
change (off_change event h) b = off event h b
change (once_change event i) b = once event i b
change (remove_change event) b = remove_all_listeners event b

unfoldable pub change_all : List Change → Bus → Bus
change_all [] b = b
change_all (c ∷ cs) b = change_all cs (change c b)

-- The steps of an emission, with what each handler changes while it runs.
unfoldable pub run : List (List Change) → Bus → Bus
unfolding go_on change_all
run [] b = b
run (cs ∷ css) b = run css (change_all cs (go_on b.running b))

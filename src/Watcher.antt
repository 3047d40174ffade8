-- ===== src/Watcher.antt =====
-- rules/etcd.go and rules/watcher.go: the watcher of a prefix. What its select receives, a stop or
-- what the etcd client puts on the channel, is a list of inputs.
mod Delivery
pub mod Stopping
mod Cancel
mod Loop
mod Order
mod Tests
use go_etcd_rules.Base.{
  ℕ, zero, suc, ◌+◌, Bool, true, false, List, [], ◌∷◌, Option, none, some, Text, Error,
  watcher_closing, channel_closed, no_events, if◌then◌else◌,
}

pub record WatchEvent : Type 0 where
  pub key : Text
  pub value : Text
  pub is_delete : Bool

-- A stop comes with the error of closing the client's watcher.
pub data Input : Type 0 where
  stop_requested : Option Error → Input
  channel_gone : Input
  response : Option Error → List WatchEvent → Input

-- The struct etcdV3KeyWatcher. A channel is the number of the call of `Watch` that made it.
pub record KeyWatcher : Type 0 where
  pub ch : Option ℕ
  pub watches : ℕ
  pub events : List WatchEvent

-- What `next` returns: a key with the value that it now has, or an error.
pub data Next : Type 0 where
  changed : Text → Option Text → Next
  failed : Error → Next

unfoldable pub reset : KeyWatcher → KeyWatcher
reset kw = record kw { ch = none }

-- A nil channel is replaced by a new one.
unfoldable pub watch : KeyWatcher → KeyWatcher
watch kw = elim kw.ch [
  | some c ↦ kw
  | none ↦ record kw { ch = some kw.watches; watches = kw.watches + 1 }
]

unfoldable pub change_of : WatchEvent → Next
change_of event = changed event.key (if event.is_delete then none else some event.value)

abbrev pub first_event : KeyWatcher → List WatchEvent → Next × KeyWatcher
first_event kw [] = (failed no_events, reset kw)
first_event kw (event ∷ events) = (change_of event, record kw { events = events })

abbrev pub closing : Option Error → Error
closing none = watcher_closing
closing (some e) = e

-- The cases of the select, where no event is left.
abbrev pub select : KeyWatcher → Input → Next × KeyWatcher
select kw (stop_requested close_error) = (failed (closing close_error), reset kw)
select kw channel_gone = (failed channel_closed, reset kw)
select kw (response (some e) events) = (failed e, reset kw)
select kw (response none events) = first_event kw events

abbrev pub receive : KeyWatcher → List Input → Option (Next × KeyWatcher × List Input)
receive kw [] = none
receive kw (input ∷ inputs) = let (n, kw') = select kw input in some (n, kw', inputs)

abbrev pub next_from :
    KeyWatcher → List WatchEvent → List Input → Option (Next × KeyWatcher × List Input)
next_from kw [] inputs = receive kw inputs
next_from kw (event ∷ events) inputs = some (change_of event, record kw { events = events }, inputs)

-- `next`, which takes an input only where no event is left. With no input it waits, which is `none`.
unfoldable pub next : KeyWatcher → List Input → Option (Next × KeyWatcher × List Input)
unfolding watch reset change_of
next kw inputs = next_from (watch kw) kw.events inputs

-- What a number of calls of `next` return, until one waits.
unfoldable pub next_many : ℕ → KeyWatcher → List Input → List Next
unfolding next
next_many zero kw inputs = []
next_many (suc n) kw inputs = elim (next kw inputs) [
  | none ↦ []
  | some (r, kw', inputs') ↦ r ∷ next_many n kw' inputs'
]

unfoldable pub new_etcd_v3_key_watcher : KeyWatcher
new_etcd_v3_key_watcher = record { ch = none; watches = 0; events = [] }

-- ===== src/CallbackListener/Request.antt =====
-- rules/callback_listener.go: an event goes to the handler as the body of an HTTP request.
use go_etcd_rules.Base.{
  ℕ, List, [], ◌∷◌, ◌++◌, length, ltb, Option, none, some, Text, if◌then◌else◌,
}
use go_etcd_rules.Matcher.{Attributes}
use go_etcd_rules.CallbackListener.{CallbackEvent, callback_done}

-- JSON as encoding/json writes and reads it; a body that it cannot read gives an error.
pub record Json : Type 0 where
  pub marshal : CallbackEvent → Option Text
  pub decode : Text → Option CallbackEvent

-- `NewHTTPCallbackHandler`: the channel of events, and the room that it has.
abbrev pub events_buffer : ℕ
events_buffer = 1000

abbrev pub new_http_callback_handler : List CallbackEvent
new_http_callback_handler = []

-- A send to the channel; `none` is a handler that waits for room.
unfoldable pub send_event : CallbackEvent → List CallbackEvent → Option (List CallbackEvent)
send_event event events =
    if ltb (length events) events_buffer then some (events ++ event ∷ []) else none

-- `HandleRequest` on a body. An error of the decoder is printed.
unfoldable pub handle_request : Json → Text → List CallbackEvent → Option (List CallbackEvent)
unfolding send_event
handle_request json body events = elim (json.decode body) [
  | none ↦ some events
  | some event ↦ send_event event events
]

-- `callbackDone`: the body that it posts, if JSON has one.
unfoldable pub post_body : Json → Text → Attributes → Option Text
unfolding callback_done
post_body json rule_id attributes = json.marshal (callback_done rule_id attributes)

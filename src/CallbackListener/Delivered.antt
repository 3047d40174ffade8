-- ===== src/CallbackListener/Delivered.antt =====
-- rules/callback_listener.go: who waits for a callback that was done gets to know.
use go_etcd_rules.Base.{◌≡◌, [], ◌∷◌, none, some, Text, Map, lookup}
use go_etcd_rules.CallbackListener.{CallbackEvent}
use go_etcd_rules.CallbackListener.Request.{Json}

-- No key of a map occurs twice.
HasUniqueKeys : Map Text → Type 0
HasUniqueKeys [] = Unit
HasUniqueKeys ((k, v) ∷ m) = (lookup k m ≡ none) × HasUniqueKeys m

-- JSON reads an event back as it was written.
abbrev pub ReadsBack : Json → CallbackEvent → Type 0
ReadsBack json event =
    (body : Text) → json.marshal event ≡ some body → json.decode body ≡ some event

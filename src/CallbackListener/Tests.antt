-- ===== src/CallbackListener/Tests.antt =====
-- rules/callback_listener.go: the theorem at a few events.
use go_etcd_rules.Base.{Text, List, [], ◌∷◌, some, codes}
use go_etcd_rules.CallbackListener.{CallbackEvent}
use go_etcd_rules.CallbackListener.Request.{Json}
use go_etcd_rules.Matcher.{Attributes, nesting, map_attributes}

abbrev other_event : CallbackEvent
other_event = record { rule_id = codes "other"; attributes = [] }

abbrev events : List CallbackEvent
events =
    other_event
    ∷ record { rule_id = codes "first"; attributes = (codes "id", codes "7") ∷ [] }
    ∷ other_event
    ∷ []

abbrev bound : Attributes
bound = nesting ((codes "id", codes "7") ∷ []) (map_attributes [])

abbrev first_done : CallbackEvent
first_done = record { rule_id = codes "first"; attributes = (codes "id", codes "7") ∷ [] }

-- JSON at this event.
abbrev first_body : Text
first_body = codes "{\"ruleID\":\"first\",\"attributes\":{\"id\":\"7\"}}"

abbrev json_of_first : Json
json_of_first = record { marshal = λ event. some first_body; decode = λ body. some first_done }

-- ===== src/CallbackListener.antt =====
-- rules/callback_listener.go: tests wait for the events of finished callbacks, which come through a
-- channel. The encoding of an event and the HTTP request between both ends are left out.
mod Waiting
pub mod Request
mod Delivered
mod Tests
use go_etcd_rules.Base.{
  Bool, true, false, ◌&&◌, List, [], ◌∷◌, Option, none, some, Text, text_eq, Map, lookup, insert,
  if◌then◌else◌,
}
use go_etcd_rules.Matcher.{Attributes, find_attribute, names}

pub record CallbackEvent : Type 0 where
  pub rule_id : Text
  pub attributes : Map Text

-- `FindAttribute` beside a false `ok` is the empty text.
abbrev pub found_or_empty : Option Text → Text
found_or_empty none = []
found_or_empty (some value) = value

-- The loop of `callbackDone` over the names.
unfoldable pub attribute_map : Attributes → List Text → Map Text → Map Text
attribute_map attributes [] m = m
attribute_map attributes (k ∷ ks) m =
    attribute_map attributes ks (insert k (found_or_empty (find_attribute attributes k)) m)

unfoldable pub callback_done : Text → Attributes → CallbackEvent
unfolding attribute_map
callback_done rule_id attributes = record {
  rule_id = rule_id;
  attributes = attribute_map attributes (names attributes) [];
}

abbrev pub is_value : Text → Option Text → Bool
is_value v none = false
is_value v (some w) = text_eq v w

-- Each pair of one map is in another.
unfoldable pub all_in : Map Text → Map Text → Bool
all_in [] other = true
all_in ((k, v) ∷ m) other = is_value v (lookup k other) && all_in m other

-- `reflect.DeepEqual` of two maps that are not nil.
unfoldable pub deep_equal : Map Text → Map Text → Bool
unfolding all_in
deep_equal a b = all_in a b && all_in b a

unfoldable pub is_awaited : Text → Map Text → CallbackEvent → Bool
unfolding deep_equal
is_awaited rule_id attributes event =
    text_eq event.rule_id rule_id && deep_equal event.attributes attributes

-- `WaitForCallback` on the events that come until the context is done: what is left in the channel,
-- or `none` where the context's error is returned.
unfoldable pub wait_for_callback :
    List CallbackEvent → Text → Map Text → Option (List CallbackEvent)
unfolding is_awaited
wait_for_callback [] rule_id attributes = none
wait_for_callback (event ∷ events) rule_id attributes =
    let again = wait_for_callback events rule_id attributes in
    if is_awaited rule_id attributes event then some events else again

-- `ClearCallbacks` receives until the channel is empty.
unfoldable pub clear_callbacks : List CallbackEvent → List CallbackEvent
clear_callbacks [] = []
clear_callbacks (event ∷ events) = clear_callbacks events

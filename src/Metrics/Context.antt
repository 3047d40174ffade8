-- ===== src/Metrics/Context.antt =====
-- rules/metrics.go and rules/metrics_collector.go: the method's name that a context carries to the
-- metrics.
use go_etcd_rules.Base.{◌≡◌, refl, List, [], ◌∷◌, ◌++◌, Option, none, some, Text, codes, ℕ, All}

-- Keys of values in a context: the one of this file, whose type is its own, and those of others.
pub data ContextKey : Type 0 where
  etcd_metrics_metadata : ContextKey
  other_key : ℕ → ContextKey

pub data ContextValue : Type 0 where
  metadata_of : Text → ContextValue
  other_value : ContextValue

-- Contexts of the package `context`: the values, the last one set first.
abbrev pub Context : Type 0
Context = List (ContextKey × ContextValue)

unfoldable pub set_method : Context → Text → Context
set_method ctx method = (etcd_metrics_metadata, metadata_of method) ∷ ctx

-- `GetMetricsMetadata`, with the method of the metadata: a value of another type gives nil.
unfoldable pub get_metrics_metadata : Context → Option Text
get_metrics_metadata [] = none
get_metrics_metadata ((etcd_metrics_metadata, metadata_of method) ∷ ctx) = some method
get_metrics_metadata ((etcd_metrics_metadata, other_value) ∷ ctx) = none
get_metrics_metadata ((other_key n, value) ∷ ctx) = get_metrics_metadata ctx

unfoldable pub get_method_name_from_context : Context → Text
unfolding get_metrics_metadata
get_method_name_from_context ctx = elim (get_metrics_metadata ctx) [
  | none ↦ codes "notSet"
  | some method ↦ method
]

abbrev IsOther : ContextKey × ContextValue → Type 0
IsOther (etcd_metrics_metadata, value) = ⊥
IsOther (other_key n, value) = Unit

-- The metrics get the method that was set last, whatever else was put into the context since.
get_method_name_from_context-set_method :
    (others ctx : Context) (method : Text)
    → All IsOther others
    → get_method_name_from_context (others ++ set_method ctx method) ≡ method
unfolding get_method_name_from_context get_metrics_metadata set_method
get_method_name_from_context-set_method [] ctx method h = refl
get_method_name_from_context-set_method ((etcd_metrics_metadata, value) ∷ others) ctx method h =
    absurd h.0
get_method_name_from_context-set_method ((other_key n, value) ∷ others) ctx method h =
    get_method_name_from_context-set_method others ctx method h.1

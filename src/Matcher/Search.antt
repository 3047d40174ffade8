-- ===== src/Matcher/Search.antt =====
-- rules/matcher.go: the search of a pattern's expression in a formatted path.
use go_etcd_rules.Base.{
  ℕ, ◌≡◌, refl, ap, true, false, List, [], ◌∷◌, ◌++◌, map, Option, none, some, Text, ==_refl, All,
}
use go_etcd_rules.Regex.{
  byte, group, Regex, Found, in_class, close_group, greedy, match_items, find_string_submatch,
}
use go_etcd_rules.Matcher.{slash}
use go_etcd_rules.Matcher.Segments.{Segment, literal, param, shown, render}
use go_etcd_rules.Matcher.Fields.{items}

abbrev pub params : List Segment → List Text
params [] = []
params (literal w ∷ segs) = params segs
params (param name ∷ segs) = name ∷ params segs

-- What the parameters of a pattern become, in order.
abbrev pub values : (Text → Option Text) → List Segment → List Text
values f segs = map (λ name. shown name (f name)) (params segs)

abbrev pub InClass : ℕ → Type 0
InClass c = in_class c ≡ true

-- A text that the capture group can take: not empty, with no slash and no colon.
abbrev pub IsValue : Text → Type 0
IsValue [] = ⊥
IsValue (c ∷ v) = InClass c × All InClass v

abbrev Stops : Text → Type 0
Stops [] = Unit
Stops (c ∷ s) = in_class c ≡ false

Stops-render : (f : Text → Option Text) (segs : List Segment) → Stops (render f segs)
unfolding render in_class
Stops-render f [] = tt
Stops-render f (literal w ∷ segs) = refl
Stops-render f (param name ∷ segs) = refl

module _ (k : Text → Option Found) where
  greedy-Stops : (s : Text) → Stops s → greedy k s ≡ none
  unfolding greedy
  greedy-Stops [] h = refl
  greedy-Stops (c ∷ s) h = rw h

  -- The longest run is taken where what follows it matches.
  greedy_run :
      (c : ℕ) (v s m : Text) (caps : List Text)
      → InClass c
      → All InClass v
      → Stops s
      → k s ≡ some (m, caps)
      → greedy k (c ∷ (v ++ s)) ≡ some (c ∷ v, m, caps)
  unfolding greedy
  greedy_run c [] s m caps hc hv stop e = rw (hc, greedy-Stops s stop, e)
  greedy_run c (d ∷ v) s m caps hc hv stop e = rw (hc, greedy_run d v s m caps hv.0 hv.1 stop e)

match_items-nil : (s : Text) → match_items [] s ≡ some ([], [])
unfolding match_items
match_items-nil s = refl

match_items-bytes :
    (w s m : Text) (r : Regex) (caps : List Text)
    → match_items r s ≡ some (m, caps)
    → match_items (map byte w ++ r) (w ++ s) ≡ some (w ++ m, caps)
unfolding match_items
match_items-bytes [] s m r caps e = e
match_items-bytes (c ∷ w) s m r caps e = rw (==_refl c, match_items-bytes w s m r caps e)

match_items-group :
    (v s m : Text) (r : Regex) (caps : List Text)
    → IsValue v
    → Stops s
    → match_items r s ≡ some (m, caps)
    → match_items (group ∷ r) (v ++ s) ≡ some (v ++ m, v ∷ caps)
unfolding match_items
match_items-group [] s m r caps h stop e = absurd h
match_items-group (c ∷ v) s m r caps h stop e =
    ap close_group (greedy_run (match_items r) c v s m caps h.0 h.1 stop e)

-- A path formatted with values that the groups can take is matched whole.
pub match_items-render :
    (f : Text → Option Text) (segs : List Segment)
    → All IsValue (values f segs)
    → match_items (items segs) (render f segs) ≡ some (render f segs, values f segs)
unfolding render items
match_items-render f [] h = match_items-nil []
match_items-render f (literal w ∷ segs) h =
    match_items-bytes (slash ∷ w) (render f segs) _ (items segs) _ (match_items-render f segs h)
match_items-render f (param name ∷ segs) h =
    match_items-bytes (slash ∷ []) _ _ (group ∷ items segs) _ (
      match_items-group (shown name (f name)) (render f segs) _ (items segs) _ h.0
        (Stops-render f segs) (match_items-render f segs h.1))

pub find_string_submatch_at_start :
    (r : Regex) (s m : Text) (caps : List Text)
    → match_items r s ≡ some (m, caps)
    → find_string_submatch r s ≡ some (m ∷ caps)
unfolding find_string_submatch
find_string_submatch_at_start r [] m caps e = rw (e, find_string_submatch)
find_string_submatch_at_start r (c ∷ s) m caps e = rw (e, find_string_submatch)

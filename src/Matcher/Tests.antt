-- ===== src/Matcher/Tests.antt =====
-- rules/matcher.go: the theorems at the pattern "/jobs/:id/state" and its keys.
use go_etcd_rules.Base.{
  ◌≡◌, refl, [], ◌∷◌, some, Text, codes, text_eq, split, In, All, lookup, insert, cut,
}
use go_etcd_rules.Regex.{in_class, is_meta, find_string_submatch}
use go_etcd_rules.Matcher.{
  Attributes, key_match, map_attributes, find_attribute, format_with_attributes, match,
}
use go_etcd_rules.Matcher.Segments.{segments}
use go_etcd_rules.Matcher.Fields.{
  IsPlain, index_fields, items, matcher_of, new_regex_key_matcher_lem,
}
use go_etcd_rules.Matcher.Search.{params, values, IsValue}
use go_etcd_rules.Matcher.RoundTrip.{
  match-format_with_attributes, IsDistinct, IsMatched, match-IsMatched,
}

abbrev job_pattern : Text
job_pattern = codes "/jobs/:id/state"

abbrev job : Attributes
job = map_attributes ((codes "id", codes "42") ∷ [])

job_key_is : format_with_attributes job_pattern job ≡ codes "/jobs/42/state"
unfolding format_with_attributes find_attribute cut lookup text_eq
job_key_is = refl

job-IsPlain : All IsPlain (segments job_pattern)
unfolding segments split is_meta
job-IsPlain =
    ((refl, (refl, (refl, (refl, tt)))), (tt, ((refl, (refl, (refl, (refl, (refl, tt))))), tt)))

job-values : All IsValue (values (find_attribute job) (segments job_pattern))
unfolding segments split find_attribute lookup in_class text_eq
job-values = ((refl, (refl, tt)), tt)

job-IsDistinct : IsDistinct (params (segments job_pattern))
unfolding segments split
job-IsDistinct = (λ h. h, tt)

abbrev longer_key : Text
longer_key = codes "/v1/jobs/42/state/x"

abbrev job_match : Attributes
job_match = key_match (codes "/jobs/42/state" ∷ codes "42" ∷ []) ((codes "id", 1) ∷ [])

job_matches : match (matcher_of job_pattern) longer_key ≡ some job_match
unfolding match find_string_submatch segments split index_fields items insert
job_matches = refl

match-format_with_attributes_example :
    (a : Attributes) × (match (matcher_of job_pattern) (format_with_attributes job_pattern job)
      ≡ some a)
    × ((name : Text)
        → In name (params (segments job_pattern))
        → find_attribute a name ≡ find_attribute job name)
match-format_with_attributes_example =
    match-format_with_attributes job_pattern job (matcher_of job_pattern) job-IsPlain job-values
      (new_regex_key_matcher_lem job_pattern job-IsPlain)

match-IsMatched_example : IsMatched job_pattern longer_key job_match
match-IsMatched_example =
    match-IsMatched job_pattern longer_key (matcher_of job_pattern) job_match job-IsPlain
      job-IsDistinct (new_regex_key_matcher_lem job_pattern job-IsPlain) job_matches

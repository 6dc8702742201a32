-- ===== src/FeatureFlags/Tests.antt =====
-- A flag with two rules, and one that is written without any.
use platform_ts.OrderedMap
use platform_ts.OrderedMap.{Map}
use platform_ts.FeatureFlags.{
  FlagValue, bool_value, string_value, object_value, FlagRule, with_rules, value_alone, json_type,
  matches, every_matches, attributes_of, resolve, StaticFeatureFlagManager, evaluate,
  bool_variation,
}
use platform_ts.FeatureFlags.Rules.{evaluate-type, evaluate-first_match, value_alone_ignored}
use platform_ts.Prelude.{◌≡◌, refl, true, false, Option, some, [], ◌∷◌, ◌++◌, string_discrete}

abbrev for_plan : FlagRule
for_plan = record { when = ("plan", string_value "pro") ∷ []; value = bool_value true }

abbrev for_region : FlagRule
for_region = record { when = ("region", string_value "eu") ∷ []; value = bool_value true }

abbrev manager : StaticFeatureFlagManager
manager = record {
  flags =
      ("beta", with_rules (bool_value false) (for_plan ∷ for_region ∷ []))
      ∷ ("dark", value_alone (bool_value true) 7)
      ∷ [];
  errors = 0;
}

abbrev context : Option (Map FlagValue)
context = some (("region", string_value "eu") ∷ [])

evaluate-type_example :
    json_type (evaluate manager context "dark" (bool_value false)).1 ≡ json_type (bool_value false)
evaluate-type_example = evaluate-type manager context "dark" (bool_value false)

plan_differs : matches for_plan (attributes_of context) ≡ false
unfolding every_matches OrderedMap.get string_discrete
plan_differs = refl

region_fits : matches for_region (attributes_of context) ≡ true
unfolding every_matches OrderedMap.get string_discrete
region_fits = refl

evaluate-first_match_example :
    (OrderedMap.get "beta" manager.flags
        ≡ some (with_rules (bool_value false) ((for_plan ∷ []) ++ for_region ∷ []))
      → evaluate manager context "beta" (bool_value false) ≡ (manager, for_region.value))
    × (OrderedMap.get "beta" manager.flags ≡ some (with_rules (bool_value false) (for_plan ∷ []))
        → evaluate manager context "beta" (bool_value false) ≡ (manager, bool_value false))
evaluate-first_match_example =
    evaluate-first_match manager context "beta" (bool_value false) (bool_value false)
      (for_plan ∷ []) [] for_region (plan_differs, tt) region_fits refl refl

dark_there : OrderedMap.get "dark" manager.flags ≡ some (value_alone (bool_value true) 7)
unfolding OrderedMap.get string_discrete
dark_there = refl

value_alone_ignored_example :
    (resolve (value_alone (bool_value true) 7) context ≡ object_value 7)
    × (bool_variation manager context "dark" false ≡ false)
    × ((evaluate manager context "dark" (bool_value false)).0.errors ≡ 1)
value_alone_ignored_example =
    value_alone_ignored manager context "dark" (bool_value true) 7 false dark_there

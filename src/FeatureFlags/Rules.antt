-- ===== src/FeatureFlags/Rules.antt =====
-- Which value a flag has.
use platform_ts.OrderedMap
use platform_ts.OrderedMap.{Map}
use mathlib.Core.List.{append-nil}
use platform_ts.FeatureFlags.{
  FlagValue, bool_value, object_value, FlagRule, FlagDefinition, with_rules, value_alone, json_type,
  JsonType-discrete, matches, first_match, attributes_of, resolve, StaticFeatureFlagManager,
  evaluate, bool_variation,
}
use platform_ts.Prelude.{
  ℕ, suc, String, ◌≡◌, refl, sym, ap, ◌∙◌, ◌≢◌, inl, inr, Bool, true, false, Option, some, List, [],
  ◌∷◌, ◌++◌, arith, Option-cases, All,
}

abbrev pub NoMatch : List FlagRule → Map FlagValue → Type 0
NoMatch rules attributes = All (λ rule. matches rule attributes ≡ false) rules

first_match-NoMatch :
    (before rest : List FlagRule) (attributes : Map FlagValue) (value : FlagValue)
    → NoMatch before attributes
    → first_match (before ++ rest) attributes value ≡ first_match rest attributes value
unfolding first_match
first_match-NoMatch [] rest attributes value h = refl
first_match-NoMatch (rule ∷ before) rest attributes value h =
    rw h.0 (first_match-NoMatch before rest attributes value h.1)

module _ (m : StaticFeatureFlagManager) (context : Option (Map FlagValue)) where
  -- An evaluation gives a value of the default's type, whatever the flag holds.
  pub evaluate-type :
      (key : String) (default_value : FlagValue)
      → json_type (evaluate m context key default_value).1 ≡ json_type default_value
  unfolding evaluate
  evaluate-type key default_value = elim (Option-cases (OrderedMap.get key m.flags)) [
    | inl nothing ↦ ground (arith, nothing)
    | inr (definition, there) ↦
        elim (JsonType-discrete (json_type (resolve definition context))
          (json_type default_value)) [
            | yes same ↦ ground (arith, there, same)
            | no ne ↦ ground (arith, there, ne)
          ]
  ]

  evaluate-resolve :
      (key : String) (definition : FlagDefinition) (default_value : FlagValue)
      → OrderedMap.get key m.flags ≡ some definition
      → json_type (resolve definition context) ≡ json_type default_value
      → evaluate m context key default_value ≡ (m, resolve definition context)
  unfolding evaluate
  evaluate-resolve key definition default_value there same = ground (arith, there, same)

  -- A flag has the value of the first of its rules that matches, and its own value if none does, if
  -- that is of the default's type.
  pub evaluate-first_match :
      (key : String) (default_value value : FlagValue) (before after : List FlagRule)
      (rule : FlagRule)
      → let attributes = attributes_of context in
        NoMatch before attributes
        → matches rule attributes ≡ true
        → json_type rule.value ≡ json_type default_value
        → json_type value ≡ json_type default_value
        → (OrderedMap.get key m.flags ≡ some (with_rules value (before ++ rule ∷ after))
            → evaluate m context key default_value ≡ (m, rule.value))
          × (OrderedMap.get key m.flags ≡ some (with_rules value before)
              → evaluate m context key default_value ≡ (m, value))
  unfolding resolve first_match
  evaluate-first_match key default_value value before after rule none_before hit typed typed' =
      let attributes = attributes_of context in
      let skip = first_match-NoMatch before (rule ∷ after) attributes value none_before in
      let first : first_match (before ++ rule ∷ after) attributes value ≡ rule.value =
        skip ∙ rw hit refl in
      let skip' = first_match-NoMatch before [] attributes value none_before in
      let own : first_match before attributes value ≡ value =
        ap (λ rs. first_match rs attributes value) (sym (append-nil before)) ∙ skip' in
      (
        λ there.
            evaluate-resolve key (with_rules value (before ++ rule ∷ after)) default_value there
              (ap json_type first ∙ typed)
            ∙ ap (λ v. (m, v)) first,
        λ there.
            evaluate-resolve key (with_rules value before) default_value there
              (ap json_type own ∙ typed')
            ∙ ap (λ v. (m, v)) own,
      )

  -- A flag that is written as an object with a value but without rules never has that value: it is
  -- taken for a value itself, and a Boolean variation falls back to the default.
  pub value_alone_ignored :
      (key : String) (value : FlagValue) (self : ℕ) (default_value : Bool)
      → OrderedMap.get key m.flags ≡ some (value_alone value self)
      → (resolve (value_alone value self) context ≡ object_value self)
        × (bool_variation m context key default_value ≡ default_value)
        × ((evaluate m context key (bool_value default_value)).0.errors ≡ suc m.errors)
  unfolding resolve bool_variation
  value_alone_ignored key value self default_value there =
      let differ : json_type (object_value self) ≢ json_type (bool_value default_value) =
        λ e. cc e in
      ground (arith, there, differ)

-- ===== src/FeatureFlags.antt =====
-- packages/featureflags/src/providers: static.ts and the typed variations of base.ts. An array or an
-- object is a reference, since `===` compares those so; a number is told apart by a natural one. Logs
-- are left out.
pub mod Rules
mod Tests
use platform_ts.OrderedMap
use platform_ts.OrderedMap.{Map}
use platform_ts.Prelude.{
  ℕ, suc, String, ite, Bool, true, false, not, ◌&&◌, Option, none, some, List, [], ◌∷◌,
  string_discrete, ◌==◌, if◌then◌else◌,
}

pub data FlagValue : Type 0 where
  null_value : FlagValue
  bool_value : Bool → FlagValue
  number_value : ℕ → FlagValue
  string_value : String → FlagValue
  array_value object_value : ℕ → FlagValue

pub record FlagRule : Type 0 where
  pub when : List (String × FlagValue)
  pub value : FlagValue

-- An object that has both `value` and `rules`, an object that has `value` alone, and all other values.
pub data FlagDefinition : Type 0 where
  with_rules : FlagValue → List FlagRule → FlagDefinition
  value_alone : FlagValue → ℕ → FlagDefinition
  bare : FlagValue → FlagDefinition

pub data JsonType : Type 0 where
  json_null json_boolean json_number json_string json_array json_object : JsonType

abbrev pub json_type : FlagValue → JsonType
json_type null_value = json_null
json_type (bool_value b) = json_boolean
json_type (number_value n) = json_number
json_type (string_value s) = json_string
json_type (array_value r) = json_array
json_type (object_value r) = json_object

pub JsonType-discrete : Discrete JsonType
JsonType-discrete = hlevel

abbrev pub same_bool : Bool → Bool → Bool
same_bool true b = b
same_bool false b = not b

-- `===`.
abbrev pub strictly_equal : FlagValue → FlagValue → Bool
strictly_equal null_value null_value = true
strictly_equal (bool_value a) (bool_value b) = same_bool a b
strictly_equal (number_value a) (number_value b) = a == b
strictly_equal (string_value a) (string_value b) = ite (string_discrete a b) true false
strictly_equal (array_value a) (array_value b) = a == b
strictly_equal (object_value a) (object_value b) = a == b
strictly_equal a b = false

abbrev pub equals_expected : Option FlagValue → FlagValue → Bool
equals_expected none expected = false
equals_expected (some v) expected = strictly_equal v expected

unfoldable pub every_matches : List (String × FlagValue) → Map FlagValue → Bool
every_matches [] attributes = true
every_matches ((attr, expected) ∷ entries) attributes =
    equals_expected (OrderedMap.get attr attributes) expected && every_matches entries attributes

abbrev pub matches : FlagRule → Map FlagValue → Bool
matches rule attributes = every_matches rule.when attributes

unfoldable pub first_match : List FlagRule → Map FlagValue → FlagValue → FlagValue
unfolding every_matches
first_match [] attributes value = value
first_match (rule ∷ rules) attributes value =
    if matches rule attributes then rule.value else first_match rules attributes value

-- A context that is missing has no attributes.
abbrev pub attributes_of : Option (Map FlagValue) → Map FlagValue
attributes_of none = []
attributes_of (some attributes) = attributes

unfoldable pub resolve : FlagDefinition → Option (Map FlagValue) → FlagValue
unfolding first_match
resolve (with_rules value rules) context = first_match rules (attributes_of context) value
resolve (value_alone value self) context = object_value self
resolve (bare value) context = value

-- The flags, and the counter of evaluations that fell back.
pub record StaticFeatureFlagManager : Type 0 where
  pub flags : Map FlagDefinition
  pub errors : ℕ

module _ (m : StaticFeatureFlagManager) (context : Option (Map FlagValue)) where
  unfoldable pub evaluate : String → FlagValue → StaticFeatureFlagManager × FlagValue
  unfolding resolve
  evaluate key default_value = elim (OrderedMap.get key m.flags) [
    | none ↦ (m, default_value)
    | some definition ↦
        let resolved = resolve definition context in
        ite (JsonType-discrete (json_type resolved) (json_type default_value)) (m, resolved)
          (record m { errors = suc m.errors }, default_value)
  ]

  unfoldable pub resolve_all : Map FlagDefinition → Map FlagValue → Map FlagValue
  unfolding resolve
  resolve_all [] out = out
  resolve_all ((name, definition) ∷ flags) out =
      resolve_all flags (OrderedMap.put name (resolve definition context) out)

  unfoldable pub all_flags : Map FlagValue
  unfolding resolve_all
  all_flags = resolve_all m.flags []

  abbrev pub bool_of : Bool → FlagValue → Bool
  bool_of default_value (bool_value b) = b
  bool_of default_value other = default_value

  abbrev pub string_of : String → FlagValue → String
  string_of default_value (string_value s) = s
  string_of default_value other = default_value

  abbrev pub number_of : ℕ → FlagValue → ℕ
  number_of default_value (number_value n) = n
  number_of default_value other = default_value

  unfoldable pub bool_variation : String → Bool → Bool
  unfolding evaluate
  bool_variation key default_value =
      bool_of default_value (evaluate key (bool_value default_value)).1

  unfoldable pub string_variation : String → String → String
  unfolding evaluate
  string_variation key default_value =
      string_of default_value (evaluate key (string_value default_value)).1

  unfoldable pub number_variation : String → ℕ → ℕ
  unfolding evaluate
  number_variation key default_value =
      number_of default_value (evaluate key (number_value default_value)).1

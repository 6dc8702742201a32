-- ===== src/OrderedMap.antt =====
-- JavaScript's `Map` with text keys, as an association list in insertion order: a write to a known
-- key keeps its place, a new key goes to the end, and `size` counts the entries.
pub mod Laws
use platform_ts.Prelude.{
  ℕ, String, ite, Bool, Option, none, some, List, [], ◌∷◌, string_discrete, if◌then◌else◌, length,
}

abbrev pub Map {ℓ} : Type ℓ → Type ℓ
Map V = List (String × V)

module _ {ℓ} {V : Type ℓ} where
  unfoldable pub get : String → Map V → Option V
  get k [] = none
  get k ((j, v) ∷ m) = ite (string_discrete j k) (some v) (get k m)

  unfoldable pub put : String → V → Map V → Map V
  put k v [] = (k, v) ∷ []
  put k v ((j, w) ∷ m) = ite (string_discrete j k) ((k, v) ∷ m) ((j, w) ∷ put k v m)

  unfoldable pub delete : String → Map V → Map V
  delete k [] = []
  delete k ((j, w) ∷ m) = ite (string_discrete j k) (delete k m) ((j, w) ∷ delete k m)

  abbrev pub size : Map V → ℕ
  size = length

  -- A loop over the entries that deletes those whose value fails the test.
  unfoldable pub keep : (V → Bool) → Map V → Map V
  keep p [] = []
  keep p ((j, w) ∷ m) = if p w then (j, w) ∷ keep p m else keep p m

-- ===== src/EventCapture/Aggregator.antt =====
-- packages/eventcapture/src/aggregator.ts. Keys are texts, and times are not negative. A cell's id
-- joins its start and its key with a space, so two ids are alike exactly if both parts are: here
-- the two parts are the id.
pub mod Flushes
use platform_ts.Prelude.{
  ℕ, suc, ◌+◌, ◌*◌, ◌/◌, String, ite, Bool, true, false, not, ◌&&◌, ◌||◌, Option, none, some, List,
  [], ◌∷◌, ◌++◌, string_discrete, ltb, leb, ◌==◌, if◌then◌else◌, length,
}

pub record Bucket (C : Type 0) : Type 0 where
  pub start : ℕ
  pub size_ms : ℕ
  pub key : String
  pub counts : C

pub record Aggregator (C : Type 0) : Type 0 where
  -- In the order of their first observation.
  pub cells : List (Bucket C)
  pub bucket_ms : ℕ
  -- Zero means that there is no bound.
  pub max_keys : ℕ
  -- Whether the first key goes after the second.
  pub key_order : Option (String → String → Bool)
  pub overflow : ℕ

abbrev pub default_bucket_ms : ℕ
default_bucket_ms = 60000

unfoldable pub new_aggregator :
    {C : Type 0} → ℕ → ℕ → Option (String → String → Bool) → Aggregator C
new_aggregator bucket_ms max_keys order = record {
  cells = [];
  bucket_ms = if ltb 0 bucket_ms then bucket_ms else default_bucket_ms;
  max_keys = max_keys;
  key_order = order;
  overflow = 0;
}

abbrev pub is_cell : {C : Type 0} → ℕ → String → Bucket C → Bool
is_cell start key b = b.start == start && ite (string_discrete b.key key) true false

abbrev pub window : ℕ → ℕ → ℕ
window bucket_ms at = at / bucket_ms * bucket_ms

module _ {C : Type 0} where
  unfoldable pub find_cell : ℕ → String → List (Bucket C) → Option (Bucket C)
  find_cell start key [] = none
  find_cell start key (b ∷ bs) = if is_cell start key b then some b else find_cell start key bs

  -- The write to the counts of the cell that was found.
  unfoldable pub fold_cell : ℕ → String → (Option C → C) → List (Bucket C) → List (Bucket C)
  fold_cell start key f [] = []
  fold_cell start key f (b ∷ bs) =
      if is_cell start key b
      then record b { counts = f (some b.counts) } ∷ bs
      else b ∷ fold_cell start key f bs

  abbrev pub is_full : Aggregator C → Bool
  is_full a = ltb 0 a.max_keys && leb a.max_keys (length a.cells)

  unfoldable pub observe : String → ℕ → (Option C → C) → Aggregator C → Aggregator C
  unfolding find_cell fold_cell
  observe key at f a =
      let start = window a.bucket_ms at in
      elim (find_cell start key a.cells) [
        | some cell ↦ record a { cells = fold_cell start key f a.cells }
        | none ↦ if is_full a then record a { overflow = suc a.overflow } else record a {
          cells =
              a.cells
              ++ record { start = start; size_ms = a.bucket_ms; key = key; counts = f none } ∷ [];
        }
      ]

  -- The comparison of `sort` is positive.
  abbrev pub goes_after : Option (String → String → Bool) → Bucket C → Bucket C → Bool
  goes_after order x y =
      if x.start == y.start
      then elim order [ none ↦ false | some f ↦ f x.key y.key ]
      else ltb y.start x.start

  -- A stable sort.
  unfoldable pub insert :
      Option (String → String → Bool) → Bucket C → List (Bucket C) → List (Bucket C)
  insert order x [] = x ∷ []
  insert order x (y ∷ ys) = if goes_after order x y then y ∷ insert order x ys else x ∷ y ∷ ys

  unfoldable pub sort : Option (String → String → Bool) → List (Bucket C) → List (Bucket C)
  unfolding insert
  sort order [] = []
  sort order (x ∷ xs) = insert order x (sort order xs)

  abbrev pub is_due : ℕ → Bool → Aggregator C → Bucket C → Bool
  is_due now all a b = all || not (ltb now (b.start + a.bucket_ms))

  -- The loop of `flush`: what it takes and what it leaves.
  unfoldable pub due : (Bucket C → Bool) → List (Bucket C) → List (Bucket C)
  due p [] = []
  due p (b ∷ bs) = if p b then b ∷ due p bs else due p bs

  unfoldable pub flush : ℕ → Bool → Aggregator C → Aggregator C × List (Bucket C)
  unfolding due sort
  flush now all a = (
    record a { cells = due (λ b. not (is_due now all a b)) a.cells },
    sort a.key_order (due (is_due now all a) a.cells),
  )

  abbrev pub take_overflow : Aggregator C → Aggregator C × ℕ
  take_overflow a = (record a { overflow = 0 }, a.overflow)

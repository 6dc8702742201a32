-- ===== src/EventCapture/Aggregator/Flushes.antt =====
-- What observations leave in the cells, and what a flush takes of them.
use platform_ts.EventCapture.Aggregator.{
  Bucket, Aggregator, observe, find_cell, fold_cell, window, is_full, is_cell, insert, sort, due,
  flush, is_due, goes_after,
}
use platform_ts.Prelude.{
  ℕ, suc, ◌+◌, ◌≤◌, String, ◌≡◌, refl, ◌∙◌, ◌⊎◌, inl, inr, ite, Bool, true, false, not, ◌&&◌,
  Option, none, some, List, [], ◌∷◌, ◌++◌, arith, string_discrete, ◌==◌, if◌then◌else◌, Bool-cases,
  length, length-append, All,
}

module _ {C : Type 0} where
  -- The counts of a cell, if there is one.
  abbrev pub counts_at : ℕ → String → List (Bucket C) → Option C
  counts_at start key bs = elim (find_cell start key bs) [ none ↦ none | some b ↦ some b.counts ]

  find_cell-snoc :
      (start : ℕ) (key : String) (b : Bucket C) (bs : List (Bucket C))
      → find_cell start key (bs ++ b ∷ []) ≡ elim (find_cell start key bs) [
        | some c ↦ some c
        | none ↦ if is_cell start key b then some b else none
      ]
  unfolding find_cell
  find_cell-snoc start key b [] = ground arith
  find_cell-snoc start key b (c ∷ bs) = ground (arith, find_cell-snoc start key b bs)

  counts_at-fold :
      (start : ℕ) (key : String) (start' : ℕ) (key' : String) (f : Option C → C)
      (bs : List (Bucket C))
      → counts_at start' key' (fold_cell start key f bs) ≡ (
          if (start == start') && ite (string_discrete key key') true false
          then elim (find_cell start key bs) [ none ↦ none | some b ↦ some (f (some b.counts)) ]
          else counts_at start' key' bs)
  unfolding find_cell fold_cell
  counts_at-fold start key start' key' f [] = ground arith
  counts_at-fold start key start' key' f (b ∷ bs) =
      ground (arith, counts_at-fold start key start' key' f bs)

  -- Whether an observation is counted: its cell is known, or there is room for it.
  abbrev pub is_counted : String → ℕ → Aggregator C → Bool
  is_counted key at a = elim (find_cell (window a.bucket_ms at) key a.cells) [
    | some b ↦ true
    | none ↦ not (is_full a)
  ]

  -- An observation that finds its cell or room for one folds into that cell alone; any other is
  -- counted as overflow and changes no cell.
  pub observe-counts_at :
      (key : String) (at : ℕ) (f : Option C → C) (a : Aggregator C) (start' : ℕ) (key' : String)
      → let a' = observe key at f a in
        let start = window a.bucket_ms at in
        (counts_at start' key' a'.cells ≡ (
          if is_counted key at a && ((start == start') && ite (string_discrete key key') true false)
          then some (f (counts_at start key a.cells))
          else counts_at start' key' a.cells))
        × (a'.overflow ≡ (if is_counted key at a then a.overflow else suc a.overflow))
  unfolding observe
  observe-counts_at key at f a start' key' =
      let start = window a.bucket_ms at in
      ground (
        arith,
        counts_at-fold start key start' key' f a.cells,
        find_cell-snoc start' key'
            (record { start = start; size_ms = a.bucket_ms; key = key; counts = f none }) a.cells,
      )

  -- No more cells than the bound.
  abbrev pub IsBounded : Aggregator C → Type 0
  IsBounded a = (a.max_keys ≡ 0) ⊎ (length a.cells ≤ a.max_keys)

  abbrev pub total : (Bucket C → ℕ) → List (Bucket C) → ℕ
  total m [] = 0
  total m (b ∷ bs) = m b + total m bs

  total-insert :
      (m : Bucket C → ℕ) (order : Option (String → String → Bool)) (x : Bucket C)
      (xs : List (Bucket C))
      → total m (insert order x xs) ≡ m x + total m xs
  unfolding insert
  total-insert m order x [] = omega arith
  total-insert m order x (y ∷ ys) = ground (arith, total-insert m order x ys)

  total-sort :
      (m : Bucket C → ℕ) (order : Option (String → String → Bool)) (xs : List (Bucket C))
      → total m (sort order xs) ≡ total m xs
  unfolding sort
  total-sort m order [] = refl
  total-sort m order (x ∷ xs) =
      total-insert m order x (sort order xs) ∙ omega (arith, total-sort m order xs)

  total-due :
      (m : Bucket C → ℕ) (p : Bucket C → Bool) (bs : List (Bucket C))
      → total m (due p bs) + total m (due (λ b. not (p b)) bs) ≡ total m bs
  unfolding due
  total-due m p [] = omega arith
  total-due m p (b ∷ bs) = ground (arith, total-due m p bs)

  -- Each window starts no later than those after it.
  abbrev pub Ascends : List (Bucket C) → Type 0
  Ascends [] = Unit
  Ascends (x ∷ xs) = All (λ y. x.start ≤ y.start) xs × Ascends xs

  All-trans :
      (m n : ℕ) (xs : List (Bucket C))
      → m ≤ n
      → All (λ y. n ≤ y.start) xs
      → All (λ y. m ≤ y.start) xs
  All-trans m n [] h a = tt
  All-trans m n (x ∷ xs) h a = (omega (arith, a.0), All-trans m n xs h a.1)

  module _ (P : Bucket C → Type 0) where
    insert-All :
        (order : Option (String → String → Bool)) (x : Bucket C) (xs : List (Bucket C))
        → P x
        → All P xs
        → All P (insert order x xs)
    unfolding insert
    insert-All order x [] h a = (h, tt)
    insert-All order x (y ∷ ys) h a = elim (Bool-cases (goes_after order x y)) [
      | inl e ↦ rw e (a.0, insert-All order x ys h a.1)
      | inr e ↦ rw e (h, a)
    ]

    sort-All :
        (order : Option (String → String → Bool)) (xs : List (Bucket C))
        → All P xs
        → All P (sort order xs)
    unfolding sort
    sort-All order [] a = tt
    sort-All order (x ∷ xs) a = insert-All order x (sort order xs) a.0 (sort-All order xs a.1)

  insert-Ascends :
      (order : Option (String → String → Bool)) (x : Bucket C) (xs : List (Bucket C))
      → Ascends xs
      → Ascends (insert order x xs)
  unfolding insert
  insert-Ascends order x [] a = (tt, tt)
  insert-Ascends order x (y ∷ ys) a = elim (Bool-cases (goes_after order x y)) [
    | inl e ↦
        let later : y.start ≤ x.start = ground (arith, e) in
        rw e
          (insert-All (λ z. y.start ≤ z.start) order x ys later a.0, insert-Ascends order x ys a.1)
    | inr e ↦
        let later : x.start ≤ y.start = ground (arith, e) in
        rw e ((later, All-trans x.start y.start ys later a.0), a)
  ]

  sort-Ascends :
      (order : Option (String → String → Bool)) (xs : List (Bucket C)) → Ascends (sort order xs)
  unfolding sort
  sort-Ascends order [] = tt
  sort-Ascends order (x ∷ xs) = insert-Ascends order x (sort order xs) (sort-Ascends order xs)

  due-All : (p : Bucket C → Bool) (bs : List (Bucket C)) → All (λ b. p b ≡ true) (due p bs)
  unfolding due
  due-All p [] = tt
  due-All p (b ∷ bs) = elim (Bool-cases (p b)) [
    | inl e ↦ rw e (e, due-All p bs)
    | inr e ↦ rw e (due-All p bs)
  ]

  -- A flush gives the cells that are due, ordered by their windows, and leaves those that are not;
  -- whatever is added up over the cells, it neither loses nor doubles any of it.
  pub flush_takes_due :
      (m : Bucket C → ℕ) (now : ℕ) (all : Bool) (a : Aggregator C)
      → let (a', out) = flush now all a in
        Ascends out
        × All (λ b. is_due now all a b ≡ true) out
        × All (λ b. not (is_due now all a b) ≡ true) a'.cells
        × (total m out + total m a'.cells ≡ total m a.cells)
  unfolding flush
  flush_takes_due m now all a =
      let p = is_due now all a in
      (
        sort-Ascends a.key_order (due p a.cells),
        sort-All (λ b. p b ≡ true) a.key_order (due p a.cells) (due-All p a.cells),
        due-All (λ b. not (p b)) a.cells,
        omega (arith, total-sort m a.key_order (due p a.cells), total-due m p a.cells),
      )

  length-fold_cell :
      (start : ℕ) (key : String) (f : Option C → C) (bs : List (Bucket C))
      → length (fold_cell start key f bs) ≡ length bs
  unfolding fold_cell
  length-fold_cell start key f [] = refl
  length-fold_cell start key f (b ∷ bs) = ground (arith, length-fold_cell start key f bs)

  -- An observation keeps the bound on the cells.
  pub observe-IsBounded :
      (key : String) (at : ℕ) (f : Option C → C) (a : Aggregator C)
      → IsBounded a
      → IsBounded (observe key at f a)
  unfolding observe
  observe-IsBounded key at f a v =
      let start = window a.bucket_ms at in
      let b : Bucket C = record {
        start = start;
        size_ms = a.bucket_ms;
        key = key;
        counts = f none;
      } in
      ground (arith, length-fold_cell start key f a.cells, length-append a.cells (b ∷ []))

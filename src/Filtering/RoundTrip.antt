-- ===== src/Filtering/RoundTrip.antt =====
-- What is read back from the parameters of a filter.
use platform_ts.OrderedMap
use platform_ts.OrderedMap.{Map}
use platform_ts.OrderedMap.Laws.{get-put_self, get-put_ne}
use platform_ts.Decimal.{write_number}
use platform_ts.Filtering.Numerals.{
  max_safe_integer, max_query_filter_limit, parse_limit, parse_limit-write_number,
  parse_limit_bounds,
}
use platform_ts.Filtering.Words.{
  SortDirection, parse_bool, parse_sort, bool_text, sort_text, parse_bool-bool_text,
  parse_sort-sort_text,
}
use platform_ts.Filtering.Params.{
  Dates, QueryFilter, or_else, and_then, some_cursor, set_param, query_filter_from_search_params,
  params_of, extract_query_filter, default_query_filter_limit, reset_limit,
}
use platform_ts.Prelude.{
  ℕ, ◌≤◌, min, String, ◌≡◌, refl, ap, ◌∙◌, ◌≢◌, ite, Bool, Option, none, some, arith, ℕ_discrete,
  string_discrete,
}

abbrev written : {A : Type 0} → (A → String) → Option A → Option String → Option String
written write none old = old
written write (some a) old = some (write a)

get-set_param :
    {A : Type 0} (k key : String) (write : A → String) (o : Option A) (m : Map String)
    → OrderedMap.get k (set_param key write o m)
      ≡ ite (string_discrete key k) (written write o (OrderedMap.get k m)) (OrderedMap.get k m)
get-set_param k key write none m = elim (string_discrete key k) [
  | yes same ↦ ground (arith, same)
  | no ne ↦ ground (arith, ne)
]
get-set_param k key write (some a) m = elim (string_discrete key k) [
  | yes same ↦ ground (arith, same, get-put_self key (write a) m)
  | no ne ↦ ground (arith, ne, get-put_ne key k (write a) m ne)
]

abbrev pub OptionAll : {A : Type 0} → (A → Type 0) → Option A → Type 0
OptionAll P none = Unit
OptionAll P (some a) = P a

-- A field that can be read back is.
read_back :
    {A : Type 0} (write : A → String) (parse : String → Option A) (o old : Option A)
    → OptionAll (λ a. parse (write a) ≡ some a) o
    → or_else (and_then (written write o none) parse) old ≡ or_else o old
read_back write parse none old h = refl
read_back write parse (some a) old h = ap (λ r. or_else r old) h

abbrev pub clamped : Option ℕ → Option ℕ
clamped none = none
clamped (some n) = some (min n max_query_filter_limit)

read_back_limit :
    (o old : Option ℕ)
    → OptionAll (λ (n : ℕ). n ≤ max_safe_integer) o
    → or_else (and_then (written write_number o none) parse_limit) old ≡ or_else (clamped o) old
read_back_limit none old h = refl
read_back_limit (some n) old h = ap (λ r. or_else r old) (parse_limit-write_number n h)

read_back_cursor :
    (o old : Option String)
    → OptionAll (λ s. s ≢ "") o
    → or_else (and_then (written (λ s. s) o none) some_cursor) old ≡ or_else o old
read_back_cursor none old h = refl
read_back_cursor (some s) old h = ground (arith, h)

bools_read_back : (o : Option Bool) → OptionAll (λ b. parse_bool (bool_text b) ≡ some b) o
bools_read_back none = tt
bools_read_back (some b) = parse_bool-bool_text b

sorts_read_back : (o : Option SortDirection) → OptionAll (λ s. parse_sort (sort_text s) ≡ some s) o
sorts_read_back none = tt
sorts_read_back (some s) = parse_sort-sort_text s

module _ {Date : Type 0} (d : Dates Date) where
  abbrev pub Reads : Option Date → Type 0
  Reads = OptionAll (λ t. d.parse_date (d.iso_string t) ≡ some t)

  -- A limit that a double holds, a cursor that is not empty, and dates whose texts are read back.
  pub record IsPrintable (f : QueryFilter Date) : Type 0 where
    pub limits : OptionAll (λ (n : ℕ). n ≤ max_safe_integer) f.limit
    pub cursors : OptionAll (λ s. s ≢ "") f.cursor
    pub created_afters : Reads f.created_after
    pub created_befores : Reads f.created_before
    pub updated_afters : Reads f.updated_after
    pub updated_befores : Reads f.updated_before

  -- The fields of the first filter, with its limit cut, and else those of the second.
  abbrev pub overlay : QueryFilter Date → QueryFilter Date → QueryFilter Date
  overlay f base = record {
    sort_by = or_else f.sort_by base.sort_by;
    created_after = or_else f.created_after base.created_after;
    created_before = or_else f.created_before base.created_before;
    updated_after = or_else f.updated_after base.updated_after;
    updated_before = or_else f.updated_before base.updated_before;
    limit = or_else (clamped f.limit) base.limit;
    include_archived = or_else f.include_archived base.include_archived;
    cursor = or_else f.cursor base.cursor;
  }

  module _ (f : QueryFilter Date) where
    get_limit : OrderedMap.get "limit" (params_of d f) ≡ written write_number f.limit none
    unfolding params_of string_discrete OrderedMap.get
    get_limit = simp (get-set_param)

    get_cursor : OrderedMap.get "cursor" (params_of d f) ≡ written (λ s. s) f.cursor none
    unfolding params_of string_discrete OrderedMap.get
    get_cursor = simp (get-set_param)

    get_created_after :
        OrderedMap.get "createdAfter" (params_of d f) ≡ written d.iso_string f.created_after none
    unfolding params_of string_discrete OrderedMap.get
    get_created_after = simp (get-set_param)

    get_created_before :
        OrderedMap.get "createdBefore" (params_of d f) ≡ written d.iso_string f.created_before none
    unfolding params_of string_discrete OrderedMap.get
    get_created_before = simp (get-set_param)

    get_updated_after :
        OrderedMap.get "updatedAfter" (params_of d f) ≡ written d.iso_string f.updated_after none
    unfolding params_of string_discrete OrderedMap.get
    get_updated_after = simp (get-set_param)

    get_updated_before :
        OrderedMap.get "updatedBefore" (params_of d f) ≡ written d.iso_string f.updated_before none
    unfolding params_of string_discrete OrderedMap.get
    get_updated_before = simp (get-set_param)

    get_include_archived :
        OrderedMap.get "includeArchived" (params_of d f) ≡ written bool_text f.include_archived none
    unfolding params_of string_discrete OrderedMap.get
    get_include_archived = simp (get-set_param)

    get_sort_by : OrderedMap.get "sortBy" (params_of d f) ≡ written sort_text f.sort_by none
    unfolding params_of string_discrete OrderedMap.get
    get_sort_by = simp (get-set_param)

    pub params-overlay :
        (base : QueryFilter Date)
        → IsPrintable f
        → query_filter_from_search_params d (params_of d f) base ≡ overlay f base
    unfolding query_filter_from_search_params
    params-overlay base v =
        let sort =
          ap (λ o. or_else (and_then o parse_sort) base.sort_by) get_sort_by
          ∙ read_back sort_text parse_sort f.sort_by base.sort_by (sorts_read_back f.sort_by) in
        let after =
          ap (λ o. or_else (and_then o d.parse_date) base.created_after) get_created_after
          ∙ read_back d.iso_string d.parse_date f.created_after base.created_after
              v.created_afters in
        let before =
          ap (λ o. or_else (and_then o d.parse_date) base.created_before) get_created_before
          ∙ read_back d.iso_string d.parse_date f.created_before base.created_before
              v.created_befores in
        let after' =
          ap (λ o. or_else (and_then o d.parse_date) base.updated_after) get_updated_after
          ∙ read_back d.iso_string d.parse_date f.updated_after base.updated_after
              v.updated_afters in
        let before' =
          ap (λ o. or_else (and_then o d.parse_date) base.updated_before) get_updated_before
          ∙ read_back d.iso_string d.parse_date f.updated_before base.updated_before
              v.updated_befores in
        let limit =
          ap (λ o. or_else (and_then o parse_limit) base.limit) get_limit
          ∙ read_back_limit f.limit base.limit v.limits in
        let archived =
          ap (λ o. or_else (and_then o parse_bool) base.include_archived) get_include_archived
          ∙ read_back bool_text parse_bool f.include_archived base.include_archived
              (bools_read_back f.include_archived) in
        let cursor =
          ap (λ o. or_else (and_then o some_cursor) base.cursor) get_cursor
          ∙ read_back_cursor f.cursor base.cursor v.cursors in
        λ i. record {
          sort_by = sort i;
          created_after = after i;
          created_before = before i;
          updated_after = after' i;
          updated_before = before' i;
          limit = limit i;
          include_archived = archived i;
          cursor = cursor i;
        }

  limit_bounds :
      (o : Option ℕ)
      → ((n : ℕ) → o ≡ some n → n ≤ max_query_filter_limit)
      → (n : ℕ) × (reset_limit d (or_else o (some default_query_filter_limit)) ≡ some n)
        × (1 ≤ n)
        × (n ≤ max_query_filter_limit)
  limit_bounds none h = (50, refl, omega arith, omega arith)
  limit_bounds (some n) h = elim (ℕ_discrete n 0) [
    | yes zero_it_is ↦ (50, ground (arith, zero_it_is), omega arith, omega arith)
    | no ne ↦ (n, ground (arith, ne), omega arith, h n refl)
  ]

  parsed_bounds :
      (o : Option String) (n : ℕ) → and_then o parse_limit ≡ some n → n ≤ max_query_filter_limit
  parsed_bounds none n h = cc h
  parsed_bounds (some raw) n h = parse_limit_bounds raw n h

  -- Whatever the parameters are, the filter that is taken from them asks for a page of at least one
  -- row and at most the greatest limit.
  pub extract_limit_bounds :
      (params : Map String)
      → (n : ℕ) × ((extract_query_filter d params).limit ≡ some n)
        × (1 ≤ n)
        × (n ≤ max_query_filter_limit)
  unfolding extract_query_filter query_filter_from_search_params
  extract_limit_bounds params =
      limit_bounds (and_then (OrderedMap.get "limit" params) parse_limit)
        (parsed_bounds (OrderedMap.get "limit" params))

-- ===== src/Filtering/Tests.antt =====
-- A filter with each kind of field.
use platform_ts.OrderedMap
use platform_ts.OrderedMap.{Map}
use platform_ts.Decimal.{write_number, value_from, is_empty}
use platform_ts.Filtering.Numerals.{max_query_filter_limit, parse_limit}
use platform_ts.Filtering.Words.{sort_descending}
use platform_ts.Filtering.Params.{
  Dates, QueryFilter, no_filter, query_filter_from_search_params, params_of, extract_query_filter,
}
use platform_ts.Filtering.Pages.{new_query_filtered_result}
use platform_ts.Filtering.RoundTrip.{IsPrintable, overlay, extract_limit_bounds}
use platform_ts.Filtering.Paging.{next-page}
use platform_ts.Prelude.{
  ℕ, ◌≤◌, String, ◌≡◌, refl, ◌≢◌, true, none, some, [], ◌∷◌, arith, string_discrete, if◌then◌else◌,
  string_ne,
}

-- Dates as their milliseconds, written as whole numbers.
abbrev millis : Dates ℕ
millis = record {
  parse_date = λ s. if is_empty s then none else some (value_from 0 s);
  iso_string = write_number;
}

abbrev wanted : QueryFilter ℕ
wanted = record no_filter {
  sort_by = some sort_descending;
  created_after = some 1700;
  limit = some 900;
  include_archived = some true;
  cursor = some "row7";
}

cursor_ne : ◌≢◌ {A = String} "row7" ""
cursor_ne = string_ne "row7" "" refl

wanted-IsPrintable : IsPrintable millis wanted
unfolding write_number
wanted-IsPrintable = record {
  limits = omega arith;
  cursors = cursor_ne;
  created_afters = refl;
  created_befores = tt;
  updated_afters = tt;
  updated_befores = tt;
}

extract_limit_bounds_example :
    (n : ℕ) × ((extract_query_filter millis (("limit", "0") ∷ [])).limit ≡ some n)
    × (1 ≤ n)
    × (n ≤ max_query_filter_limit)
extract_limit_bounds_example = extract_limit_bounds millis (("limit", "0") ∷ [])

-- The greatest limit is kept, and what is no whole number leaves the default.
limit_kept : (extract_query_filter millis (("limit", " 900 ") ∷ [])).limit ≡ some 250
unfolding extract_query_filter OrderedMap.get string_discrete parse_limit
limit_kept = refl

limit_ignored : (extract_query_filter millis (("limit", "9x") ∷ [])).limit ≡ some 50
unfolding extract_query_filter OrderedMap.get string_discrete parse_limit
limit_ignored = refl

next-page_example :
    let page = (new_query_filtered_result ("row8" ∷ "row9" ∷ []) 9 9 (λ s. s) (some wanted)).page in
    let next =
      query_filter_from_search_params millis
        (params_of millis (record wanted { cursor = some page.cursor }))
        no_filter in
    (page.cursor ≡ "row9")
    × (next ≡ overlay millis (record wanted { cursor = some "row9" }) no_filter)
    × ((new_query_filtered_result {T = String} [] 9 9 (λ s. s) (some next)).page.previous_cursor
        ≡ "row9")
next-page_example =
    next-page millis wanted no_filter ("row8" ∷ []) "row9" [] 9 9 (λ s. s) wanted-IsPrintable
      (string_ne "row9" "" refl)

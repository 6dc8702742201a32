-- ===== src/Filtering/Params.antt =====
-- packages/filtering/src/query-filter.ts: a filter from parameters, and to parameters.
use platform_ts.OrderedMap
use platform_ts.OrderedMap.{Map}
use platform_ts.Decimal.{write_number}
use platform_ts.Filtering.Numerals.{parse_limit}
use platform_ts.Filtering.Words.{
  SortDirection, sort_ascending, parse_bool, parse_sort, bool_text, sort_text,
}
use platform_ts.Prelude.{
  ℕ, String, ite, Bool, Option, none, some, [], string_discrete, ◌==◌, if◌then◌else◌,
}

-- `parse_date` is `new Date` on a text, `none` if that is invalid; `iso_string` is `toISOString`.
pub record Dates (Date : Type 0) : Type 0 where
  pub parse_date : String → Option Date
  pub iso_string : Date → String

pub record QueryFilter (Date : Type 0) : Type 0 where
  pub sort_by : Option SortDirection
  pub created_after : Option Date
  pub created_before : Option Date
  pub updated_after : Option Date
  pub updated_before : Option Date
  pub limit : Option ℕ
  pub include_archived : Option Bool
  pub cursor : Option String

abbrev pub default_query_filter_limit : ℕ
default_query_filter_limit = 50

-- A value if there is one, and else what was there.
abbrev pub or_else : {A : Type 0} → Option A → Option A → Option A
or_else none old = old
or_else (some a) old = some a

abbrev pub and_then : {A B : Type 0} → Option A → (A → Option B) → Option B
and_then none f = none
and_then (some a) f = f a

module _ {Date : Type 0} where
  abbrev pub no_filter : QueryFilter Date
  no_filter = record {
    sort_by = none;
    created_after = none;
    created_before = none;
    updated_after = none;
    updated_before = none;
    limit = none;
    include_archived = none;
    cursor = none;
  }

  abbrev pub default_query_filter : QueryFilter Date
  default_query_filter = record no_filter {
    limit = some default_query_filter_limit;
    sort_by = some sort_ascending;
  }

abbrev pub some_cursor : String → Option String
some_cursor s = ite (string_discrete s "") none (some s)

abbrev pub set_param : {A : Type 0} → String → (A → String) → Option A → Map String → Map String
set_param key write none params = params
set_param key write (some a) params = OrderedMap.put key (write a) params

module _ {Date : Type 0} (d : Dates Date) where
  unfoldable pub query_filter_from_search_params : Map String → QueryFilter Date → QueryFilter Date
  query_filter_from_search_params params base =
      let read = λ (key : String). OrderedMap.get key params in
      record {
        sort_by = or_else (and_then (read "sortBy") parse_sort) base.sort_by;
        created_after = or_else (and_then (read "createdAfter") d.parse_date) base.created_after;
        created_before = or_else (and_then (read "createdBefore") d.parse_date) base.created_before;
        updated_after = or_else (and_then (read "updatedAfter") d.parse_date) base.updated_after;
        updated_before = or_else (and_then (read "updatedBefore") d.parse_date) base.updated_before;
        limit = or_else (and_then (read "limit") parse_limit) base.limit;
        include_archived =
            or_else (and_then (read "includeArchived") parse_bool) base.include_archived;
        cursor = or_else (and_then (read "cursor") some_cursor) base.cursor;
      }

  abbrev pub reset_limit : Option ℕ → Option ℕ
  reset_limit none = none
  reset_limit (some n) = if n == 0 then some default_query_filter_limit else some n

  unfoldable pub extract_query_filter : Map String → QueryFilter Date
  unfolding query_filter_from_search_params
  extract_query_filter params =
      let filter = query_filter_from_search_params params default_query_filter in
      record filter { limit = reset_limit filter.limit }

  unfoldable pub params_of : QueryFilter Date → Map String
  params_of f = set_param "sortBy" sort_text f.sort_by (
      set_param "includeArchived" bool_text f.include_archived (
        set_param "updatedBefore" d.iso_string f.updated_before (
          set_param "updatedAfter" d.iso_string f.updated_after (
            set_param "createdBefore" d.iso_string f.created_before (
              set_param "createdAfter" d.iso_string f.created_after (
                set_param "cursor" (λ s. s) f.cursor
                  (set_param "limit" write_number f.limit [])))))))

  abbrev pub to_search_params : Option (QueryFilter Date) → Map String
  to_search_params none = params_of default_query_filter
  to_search_params (some f) = params_of f

-- ===== src/Filtering/Pages.antt =====
-- packages/filtering/src/query-filter.ts: toPagination and newQueryFilteredResult.
use platform_ts.Filtering.Params.{QueryFilter, default_query_filter, default_query_filter_limit}
use platform_ts.Prelude.{ℕ, String, Option, none, some, List, [], ◌∷◌}

pub record Pagination (Date : Type 0) : Type 0 where
  pub applied_query_filter : Option (QueryFilter Date)
  pub cursor : String
  pub previous_cursor : String
  pub filtered_count : ℕ
  pub total_count : ℕ
  pub limit : ℕ

abbrev pub or_default : {A : Type 0} → A → Option A → A
or_default a none = a
or_default a (some b) = b

abbrev pub to_pagination : {Date : Type 0} → Option (QueryFilter Date) → Pagination Date
to_pagination filter =
    let source = or_default default_query_filter filter in
    record {
      applied_query_filter = some source;
      cursor = "";
      previous_cursor = "";
      filtered_count = 0;
      total_count = 0;
      limit = or_default default_query_filter_limit source.limit;
    }

pub record QueryFilteredResult (Date T : Type 0) : Type 0 where
  pub page : Pagination Date
  pub items : List T

abbrev pub last_item : {T : Type 0} → List T → Option T
last_item [] = none
last_item (x ∷ []) = some x
last_item (x ∷ y ∷ ys) = last_item (y ∷ ys)

abbrev pub cursor_of : {Date : Type 0} → Option (QueryFilter Date) → String
cursor_of none = ""
cursor_of (some f) = or_default "" f.cursor

abbrev pub id_or_empty : {T : Type 0} → (T → String) → Option T → String
id_or_empty id none = ""
id_or_empty id (some item) = id item

unfoldable pub new_query_filtered_result :
    {Date T : Type 0}
    → List T
    → ℕ
    → ℕ
    → (T → String)
    → Option (QueryFilter Date)
    → QueryFilteredResult Date T
new_query_filtered_result items filtered_count total_count id filter = record {
  page = record (to_pagination filter) {
    applied_query_filter = filter;
    filtered_count = filtered_count;
    total_count = total_count;
    previous_cursor = cursor_of filter;
    cursor = id_or_empty id (last_item items);
  };
  items = items;
}

-- ===== src/Filtering/Paging.antt =====
-- From one page to the next through the URL.
use platform_ts.Filtering.Params.{Dates, QueryFilter, query_filter_from_search_params, params_of}
use platform_ts.Filtering.Pages.{last_item, cursor_of, id_or_empty, new_query_filtered_result}
use platform_ts.Filtering.RoundTrip.{IsPrintable, overlay, params-overlay}
use platform_ts.Prelude.{ℕ, String, ◌≡◌, refl, ap, ◌∙◌, ◌≢◌, some, List, [], ◌∷◌, ◌++◌}

last_item-append : {T : Type 0} (items : List T) (x : T) → last_item (items ++ x ∷ []) ≡ some x
last_item-append [] x = refl
last_item-append (y ∷ []) x = refl
last_item-append (y ∷ z ∷ items) x = last_item-append (z ∷ items) x

-- The cursor of a page that is not empty is the id of its last row, also on the last page. A filter
-- that asks for what comes after it, sent as parameters and read back over any other filter, has that
-- id as its cursor, and the page that it gives names it as the previous one. That id is not empty,
-- the filter's limit is one that a double holds, its cursor is not empty, and its dates are read back
-- from their texts.
pub next-page :
    {Date T : Type 0} (d : Dates Date) (f base : QueryFilter Date) (items : List T) (x : T)
    (more : List T) (filtered total : ℕ) (id : T → String)
    → IsPrintable d f
    → id x ≢ ""
    → let page = (new_query_filtered_result (items ++ x ∷ []) filtered total id (some f)).page in
      let next =
        query_filter_from_search_params d
          (params_of d (record f { cursor = some page.cursor }))
          base in
      (page.cursor ≡ id x)
      × (next ≡ overlay d (record f { cursor = some (id x) }) base)
      × ((new_query_filtered_result more filtered total id (some next)).page.previous_cursor ≡ id x)
unfolding new_query_filtered_result
next-page d f base items x more filtered total id v ne =
    let last : id_or_empty id (last_item (items ++ x ∷ [])) ≡ id x =
      ap (id_or_empty id) (last_item-append items x) in
    let asked = record f { cursor = some (id x) } in
    let asks : IsPrintable d asked = record {
      limits = v.limits;
      cursors = ne;
      created_afters = v.created_afters;
      created_befores = v.created_befores;
      updated_afters = v.updated_afters;
      updated_befores = v.updated_befores;
    } in
    let read =
      ap (λ c. query_filter_from_search_params d (params_of d (record f { cursor = some c })) base)
        last
      ∙ params-overlay d asked base asks in
    (last, read, ap (λ n. cursor_of (some n)) read)

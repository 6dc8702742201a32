-- ===== src/Filtering.antt =====
-- packages/filtering/src/query-filter.ts: filters of list queries, their URL parameters and pages.
-- Dates are a parameter, with their texts. A `URLSearchParams` is its map of keys to values, which
-- is all that the source asks of it; to take it from a request or a URL is left out.
pub mod Numerals
pub mod Words
pub mod Params
pub mod RoundTrip
pub mod Pages
pub mod Paging
mod Tests

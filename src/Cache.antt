-- ===== src/Cache.antt =====
-- packages/cache/src/support.ts: what a TTL means, for every provider. A negative TTL is ignored
-- as zero is, so a TTL is a natural number or absent.
pub mod Memory
use platform_ts.Prelude.{ℕ, zero, Option, none, some, ltb, if◌then◌else◌}

unfoldable pub normalize_expiry_ms : Option ℕ → Option ℕ
normalize_expiry_ms none = none
normalize_expiry_ms (some ms) = if ltb 0 ms then some ms else none

-- `opts?.ttlMs` and the default.
unfoldable pub resolve_ttl_ms : Option ℕ → Option ℕ → Option ℕ
resolve_ttl_ms none default = default
resolve_ttl_ms (some ms) default = if ltb 0 ms then some ms else default

-- ===== src/HealthCheck.antt =====
-- packages/healthcheck/src/index.ts. A promise is what it settles to and when, if ever; a timer
-- that is due when the promise settles comes first. Messages are kept as what they are made from.
pub mod Reports
mod Tests
use platform_ts.OrderedMap
use platform_ts.OrderedMap.{Map}
use platform_ts.Prelude.{
  ℕ, String, ite, Bool, true, false, ◌&&◌, ◌||◌, Option, none, some, List, [], ◌∷◌, string_discrete,
  ltb, if◌then◌else◌, set,
}

pub data HealthStatus : Type 0 where
  healthy degraded unhealthy : HealthStatus

pub data Message : Type 0 where
  thrown : String → Message
  timed_out : ℕ → Message
  over_deadline : String → ℕ → Message

pub record CheckResult : Type 0 where
  pub status : HealthStatus
  pub detail : Option String
  pub error : Option Message
  pub duration_ms : ℕ

-- A `Partial<CheckResult>`.
pub record Overrides : Type 0 where
  pub status : Option HealthStatus
  pub detail : Option String
  pub error : Option Message
  pub duration_ms : Option ℕ

-- A promise: `took` is absent if it never settles. A rejection says whether it is an AbortError.
pub data Settled (A : Type 0) : Type 0 where
  resolved : A → Settled A
  rejected : Message → Bool → Settled A

pub record Promise (A : Type 0) : Type 0 where
  pub settled : Settled A
  pub took : Option ℕ

abbrev pub settles_before : {A : Type 0} → ℕ → Promise A → Bool
settles_before ms p = elim p.took [ none ↦ false | some t ↦ ltb t ms ]

-- `Promise.race` against a timer.
abbrev pub race : {A : Type 0} → ℕ → Settled A → Promise A → Promise A
race ms late p = if settles_before ms p then p else record { settled = late; took = some ms }

unfoldable pub run_with_timeout : {A : Type 0} → Option ℕ → Promise A → Promise A
run_with_timeout none p = p
run_with_timeout (some ms) p = race ms (rejected (timed_out ms) false) p

abbrev or_else : {A : Type 0} → A → Option A → A
or_else a none = a
or_else a (some b) = b

-- The result of a function that returned, from the defaults and what it overrides.
abbrev result_of : ℕ → Option Overrides → CheckResult
result_of took none = record { status = healthy; detail = none; error = none; duration_ms = took }
result_of took (some o) = record {
  status = or_else healthy o.status;
  detail = o.detail;
  error = o.error;
  duration_ms = or_else took o.duration_ms;
}

abbrev failed : Message → ℕ → CheckResult
failed m took = record { status = unhealthy; detail = none; error = some m; duration_ms = took }

abbrev settle : Bool → ℕ → Settled (Option Overrides) → Settled CheckResult
settle aborted took (resolved o) = resolved (result_of took o)
settle aborted took (rejected m is_abort) =
    if aborted && is_abort then rejected m is_abort else resolved (failed m took)

-- A checker made by `checker`, with the promise of its function; `aborted` is the caller's signal.
unfoldable pub run_check : Bool → Option ℕ → Promise (Option Overrides) → Promise CheckResult
unfolding run_with_timeout
run_check aborted timeout_ms p =
    let q = run_with_timeout timeout_ms p in
    record { settled = settle aborted (or_else 0 q.took) q.settled; took = q.took }

-- A checker as the registry sees it: what its `check` gives.
abbrev pub Checker : Type 0
Checker = Promise CheckResult

pub record Registry : Type 0 where
  pub checkers : Map Checker
  pub check_timeout_ms : Option ℕ

unfoldable pub new_registry : ℕ → Registry
new_registry timeout = record {
  checkers = [];
  check_timeout_ms = if ltb 0 timeout then some timeout else none;
}

unfoldable pub register : String → Checker → Registry → Registry
register name c r = record r { checkers = OrderedMap.put name c r.checkers }

unfoldable pub race_deadline : Option ℕ → String → Checker → Promise CheckResult
race_deadline none name c = c
race_deadline (some ms) name c = race ms (resolved (failed (over_deadline name ms) ms)) c

abbrev is_unhealthy : CheckResult → Bool
is_unhealthy r = elim r.status [ unhealthy ↦ true | _ ↦ false ]

abbrev is_degraded : CheckResult → Bool
is_degraded r = elim r.status [ degraded ↦ true | _ ↦ false ]

unfoldable pub any_result : (CheckResult → Bool) → List (String × CheckResult) → Bool
any_result p [] = false
any_result p ((name, r) ∷ rs) = p r || any_result p rs

unfoldable pub aggregate : List (String × CheckResult) → HealthStatus
unfolding any_result
aggregate rs =
    if any_result is_unhealthy rs
    then unhealthy
    else if any_result is_degraded rs
    then degraded
    else healthy

pub record HealthReport : Type 0 where
  pub status : HealthStatus
  pub checks : Map CheckResult

-- What `Promise.all` comes to: a rejection wins over a promise that never settles.
pub data AllResults : Type 0 where
  every : List (String × CheckResult) → AllResults
  aborts hangs : AllResults

abbrev pub join : String → Promise CheckResult → AllResults → AllResults
join name p rest = elim p.took [
  | none ↦ elim rest [ every rs ↦ hangs | aborts ↦ aborts | hangs ↦ hangs ]
  | some t ↦ elim p.settled [
    | rejected m is_abort ↦ aborts
    | resolved r ↦ elim rest [ every rs ↦ every ((name, r) ∷ rs) | aborts ↦ aborts | hangs ↦ hangs ]
  ]
]

unfoldable pub run_checkers : Option ℕ → Map Checker → AllResults
unfolding race_deadline
run_checkers ms [] = every []
run_checkers ms ((name, c) ∷ cs) = join name (race_deadline ms name c) (run_checkers ms cs)

-- The loop that fills the record of checks, a plain object: to set its `__proto__` adds no entry.
unfoldable pub collect : List (String × CheckResult) → Map CheckResult → Map CheckResult
collect [] checks = checks
collect ((name, r) ∷ rs) checks =
    let checks' = OrderedMap.put name r checks in
    ite (string_discrete name "__proto__") (collect rs checks) (collect rs checks')

pub data Report : Type 0 where
  reports : HealthReport → Report
  aborts hangs : Report

abbrev pub report_of : AllResults → Report
report_of (every rs) = reports (record { status = aggregate rs; checks = collect rs [] })
report_of aborts = aborts
report_of hangs = hangs

unfoldable pub check : Registry → Report
unfolding run_checkers aggregate collect
check r = report_of (run_checkers r.check_timeout_ms r.checkers)

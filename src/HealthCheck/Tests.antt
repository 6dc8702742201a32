-- ===== src/HealthCheck/Tests.antt =====
-- A registry with a checker that never settles, and the theorems at it.
use platform_ts.OrderedMap
use platform_ts.OrderedMap.Laws.{HasUniqueKeys}
use platform_ts.HealthCheck.{
  healthy, unhealthy, CheckResult, Checker, Registry, aggregate, over_deadline, resolved,
  HealthReport, Report, reports, check, run_checkers, race_deadline, any_result, collect,
}
use platform_ts.HealthCheck.Reports.{
  severity, worst, aggregate-severity, check-hangs, check-get, Answers,
}
use platform_ts.Prelude.{String, ◌≡◌, refl, ◌≢◌, none, some, [], ◌∷◌, string_discrete}

abbrev fine : CheckResult
fine = record { status = healthy; detail = none; error = none; duration_ms = 3 }

abbrev slow : CheckResult
slow = record {
  status = unhealthy;
  detail = none;
  error = some (over_deadline "db" 100);
  duration_ms = 100;
}

abbrev registry : Registry
registry = record {
  checkers =
      ("cache", record { settled = resolved fine; took = some 3 })
      ∷ ("db", record { settled = resolved fine; took = none })
      ∷ [];
  check_timeout_ms = some 100;
}

abbrev report : HealthReport
report = record { status = unhealthy; checks = ("cache", fine) ∷ ("db", slow) ∷ [] }

is_reported : check registry ≡ reports report
unfolding check run_checkers race_deadline any_result aggregate collect OrderedMap.put
    string_discrete
is_reported = refl

names_once : HasUniqueKeys registry.checkers
unfolding OrderedMap.get string_discrete
names_once = (refl, (refl, tt))

aggregate-severity_example :
    severity (aggregate (("cache", fine) ∷ ("db", slow) ∷ []))
    ≡ worst (("cache", fine) ∷ ("db", slow) ∷ [])
aggregate-severity_example = aggregate-severity (("cache", fine) ∷ ("db", slow) ∷ [])

check-hangs_example : check registry ≢ Report.hangs
check-hangs_example = check-hangs registry 100 refl

check-get_example :
    ((name : String)
      → name ≢ "__proto__"
      → OrderedMap.get name registry.checkers ≡ none
      → OrderedMap.get name report.checks ≡ none)
    × ((name : String) (c : Checker)
        → name ≢ "__proto__"
        → OrderedMap.get name registry.checkers ≡ some c
        → (result : CheckResult) × Answers (some 100) name c result
          × (OrderedMap.get name report.checks ≡ some result))
check-get_example = check-get registry report names_once is_reported

-- The checker of this name is not in the report.
proto_lost :
    check (record registry {
      checkers = ("__proto__", record { settled = resolved fine; took = some 3 }) ∷ [];
    })
    ≡ reports (record { status = healthy; checks = [] })
unfolding check run_checkers race_deadline any_result aggregate collect OrderedMap.put
    string_discrete
proto_lost = refl

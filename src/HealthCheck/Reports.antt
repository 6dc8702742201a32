-- ===== src/HealthCheck/Reports.antt =====
-- What a report says.
use platform_ts.OrderedMap
use platform_ts.OrderedMap.{Map}
use platform_ts.OrderedMap.Laws.{HasUniqueKeys, get-put_self, get-put_ne}
use platform_ts.HealthCheck.{
  report_of, HealthStatus, healthy, degraded, unhealthy, CheckResult, Checker, Registry, aggregate,
  any_result, race_deadline, run_checkers, AllResults, every, join, collect, HealthReport, Report,
  reports, check, Settled, resolved, rejected, over_deadline,
}
use platform_ts.Prelude.{
  ℕ, ◌≤◌, ◌<◌, max, String, ◌≡◌, refl, sym, ◌∙◌, ◌≢◌, ◌⊎◌, inl, inr, ite, Option, none, some, List,
  [], ◌∷◌, arith, dec_lt, string_discrete, Option-cases,
}

abbrev pub severity : HealthStatus → ℕ
severity healthy = 0
severity degraded = 1
severity unhealthy = 2

abbrev pub worst : List (String × CheckResult) → ℕ
worst [] = 0
worst ((name, r) ∷ rs) = max (severity r.status) (worst rs)

status-cases : (s : HealthStatus) → (s ≡ healthy) ⊎ (s ≡ degraded) ⊎ (s ≡ unhealthy)
status-cases healthy = inl refl
status-cases degraded = inr (inl refl)
status-cases unhealthy = inr (inr refl)

-- The report's status is the worst of its checks', and healthy if there are none.
pub aggregate-severity : (rs : List (String × CheckResult)) → severity (aggregate rs) ≡ worst rs
unfolding aggregate any_result
aggregate-severity [] = refl
aggregate-severity ((name, r) ∷ rs) = ground (arith, aggregate-severity rs, status-cases r.status)

race_deadline_took :
    (ms : ℕ) (name : String) (c : Checker) → (race_deadline (some ms) name c).took ≢ none
unfolding race_deadline
race_deadline_took ms name c = λ e. ground (arith, e)

run_checkers-hangs : (ms : ℕ) (cs : Map Checker) → run_checkers (some ms) cs ≢ AllResults.hangs
unfolding run_checkers
run_checkers-hangs ms [] = λ e. cc
run_checkers-hangs ms ((name, c) ∷ cs) =
    λ e. ground (arith, run_checkers-hangs ms cs, race_deadline_took ms name c, e)

-- With a deadline, the registry reports or rejects, even if a checker never settles.
pub check-hangs : (r : Registry) (ms : ℕ) → r.check_timeout_ms ≡ some ms → check r ≢ Report.hangs
unfolding check
check-hangs r ms h = λ e. ground (arith, h, run_checkers-hangs ms r.checkers, e)

put-get :
    (k j : String) (v : CheckResult) (m : Map CheckResult)
    → OrderedMap.get j (OrderedMap.put k v m)
      ≡ ite (string_discrete k j) (some v) (OrderedMap.get j m)
put-get k j v m = elim (string_discrete k j) [
  | yes e ↦ ground (arith, e, get-put_self k v m)
  | no ne ↦ ground (arith, ne, get-put_ne k j v m ne)
]

get-collect :
    (name : String) (rs m : Map CheckResult)
    → HasUniqueKeys rs
    → name ≢ "__proto__"
    → OrderedMap.get name (collect rs m)
      ≡ elim (OrderedMap.get name rs) [ none ↦ OrderedMap.get name m | some r ↦ some r ]
unfolding collect OrderedMap.get
get-collect name [] m u ne = refl
get-collect name ((k, v) ∷ rs) m u ne = elim (string_discrete k "__proto__") [
  | yes lost ↦
      let apart : k ≢ name = λ e. ne (sym e ∙ lost) in
      ground (arith, lost, apart, get-collect name rs m u.1 ne)
  | no kept ↦
      ground
        (arith, kept, get-collect name rs (OrderedMap.put k v m) u.1 ne, put-get k name v m, u.0)
]

-- What a report must say of a checker: what it gave, if that came before the deadline or there is
-- none, and else that it missed the deadline.
abbrev pub Answers : Option ℕ → String → Checker → CheckResult → Type 0
Answers none name c r = (t : ℕ) × (c.took ≡ some t) × (c.settled ≡ resolved r)
Answers (some ms) name c r =
    ((t : ℕ) × (c.took ≡ some t) × (t < ms) × (c.settled ≡ resolved r))
    ⊎ (((t : ℕ) → c.took ≡ some t → ms ≤ t)
        × (r ≡ record {
          status = unhealthy;
          detail = none;
          error = some (over_deadline name ms);
          duration_ms = ms;
        }))

resolved-inj : (r q : CheckResult) → resolved r ≡ resolved q → r ≡ q
resolved-inj r q e = cc

race_deadline-Answers :
    (ms : Option ℕ) (name : String) (c : Checker) (r : CheckResult) (t : ℕ)
    → (race_deadline ms name c).took ≡ some t
    → (race_deadline ms name c).settled ≡ resolved r
    → Answers ms name c r
unfolding race_deadline
race_deadline-Answers none name c r t took e = (t, took, e)
race_deadline-Answers (some ms) name c r t took e =
    let missed : CheckResult = record {
      status = unhealthy;
      detail = none;
      error = some (over_deadline name ms);
      duration_ms = ms;
    } in
    elim (Option-cases c.took) [
      | inl never ↦ inr (λ t h. absurd (cc), resolved-inj r missed (sym e ∙ ground (arith, never)))
      | inr (t', came) ↦ elim (dec_lt t' ms) [
        | yes early ↦ inl (t', came, early, ground (arith, e, came, early))
        | no late ↦ inr (
          λ t h. ground (arith, h, came, late),
          resolved-inj r missed (sym e ∙ ground (arith, came, late)),
        )
      ]
    ]

every-inj : (rs qs : List (String × CheckResult)) → every rs ≡ every qs → rs ≡ qs
every-inj rs qs e = cc

-- What a joined list of results is made of.
join_every :
    (name : String) (settled : Settled CheckResult) (took : Option ℕ) (rest : AllResults)
    (rs : List (String × CheckResult))
    → join name (record { settled = settled; took = took }) rest ≡ every rs
    → (r : CheckResult) × (qs : List (String × CheckResult)) × (settled ≡ resolved r)
      × ((t : ℕ) × (took ≡ some t))
      × (rest ≡ every qs)
      × (rs ≡ (name, r) ∷ qs)
join_every name settled none (every qs) rs h = absurd (cc h)
join_every name settled none AllResults.aborts rs h = absurd (cc h)
join_every name settled none AllResults.hangs rs h = absurd (cc h)
join_every name (rejected m b) (some t) rest rs h = absurd (cc h)
join_every name (resolved r) (some t) (every qs) rs h =
    (r, qs, refl, (t, refl), refl, sym (every-inj ((name, r) ∷ qs) rs h))
join_every name (resolved r) (some t) AllResults.aborts rs h = absurd (cc h)
join_every name (resolved r) (some t) AllResults.hangs rs h = absurd (cc h)

run_checkers-get :
    (ms : Option ℕ) (cs : Map Checker) (rs : List (String × CheckResult))
    → run_checkers ms cs ≡ every rs
    → HasUniqueKeys cs
    → HasUniqueKeys rs
      × ((name : String) → OrderedMap.get name cs ≡ none → OrderedMap.get name rs ≡ none)
      × ((name : String) (c : Checker)
          → OrderedMap.get name cs ≡ some c
          → (r : CheckResult) × Answers ms name c r × (OrderedMap.get name rs ≡ some r))
unfolding run_checkers OrderedMap.get
run_checkers-get ms [] rs h u =
    rw (sym (every-inj [] rs h)) (tt, λ name e. refl, λ name c e. absurd (cc e))
run_checkers-get ms ((k, c) ∷ cs) rs h u =
    let p = race_deadline ms k c in
    let (r, qs, settled, (t, took), rest, is_cons) =
      join_every k p.settled p.took (run_checkers ms cs) rs h in
    let ih = run_checkers-get ms cs qs rest u.1 in
    rw is_cons (
      (ih.1 k u.0, ih.0),
      λ name e. elim (string_discrete k name) [
        | yes same ↦ absurd (ground (arith, same, e))
        | no ne ↦ ground (arith, ne, e, ih.1 name)
      ],
      λ name d e. elim (string_discrete k name) [
        | yes same ↦
            let is_same : c ≡ d = ground (arith, same, e) in
            (
              r,
              rw (sym same, sym is_same) (race_deadline-Answers ms k c r t took settled),
              ground (arith, same),
            )
        | no ne ↦
            let (found, answer, at) = ih.2 name d (ground (arith, ne, e)) in
            (found, answer, ground (arith, ne, at))
      ],
    )

report_of_reports :
    (all : AllResults) (h : HealthReport)
    → report_of all ≡ reports h
    → (rs : List (String × CheckResult)) × (all ≡ every rs) × (h.checks ≡ collect rs [])
report_of_reports (every rs) h e = (rs, refl, ground (arith, e))
report_of_reports AllResults.aborts h e = absurd (cc e)
report_of_reports AllResults.hangs h e = absurd (cc e)

check_reports :
    (r : Registry) (h : HealthReport)
    → check r ≡ reports h
    → (rs : List (String × CheckResult)) × (run_checkers r.check_timeout_ms r.checkers ≡ every rs)
      × (h.checks ≡ collect rs [])
unfolding check
check_reports r h e = report_of_reports (run_checkers r.check_timeout_ms r.checkers) h e

-- A report has for each checker what it gave, if that came before the deadline, and else that it missed
-- the deadline; for other names it has nothing. Each name is registered once, and a checker that is
-- named `__proto__` is left out.
pub check-get :
    (r : Registry) (h : HealthReport)
    → HasUniqueKeys r.checkers
    → check r ≡ reports h
    → ((name : String)
        → name ≢ "__proto__"
        → OrderedMap.get name r.checkers ≡ none
        → OrderedMap.get name h.checks ≡ none)
      × ((name : String) (c : Checker)
          → name ≢ "__proto__"
          → OrderedMap.get name r.checkers ≡ some c
          → (result : CheckResult) × Answers r.check_timeout_ms name c result
            × (OrderedMap.get name h.checks ≡ some result))
unfolding OrderedMap.get
check-get r h u e =
    let (rs, ran, is_report) = check_reports r h e in
    let got = run_checkers-get r.check_timeout_ms r.checkers rs ran u in
    rw is_report (
      λ name own absent. get-collect name rs [] got.0 own ∙ ground (arith, got.1 name absent),
      λ name c own known.
          let (result, answer, at) = got.2 name c known in
          (result, answer, get-collect name rs [] got.0 own ∙ ground (arith, at)),
    )

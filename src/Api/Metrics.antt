-- ===== src/Api/Metrics.antt =====
-- src/reconcile/api/metrics.py. What the incident store and the breaker report is given.
use retail_reconciliation_ag.Prelude.{
  ℕ, suc, ◌+◌, String, List, [], ◌∷◌, map, length, ◌≡◌, refl, arith, ◌∙◌, ◌==◌, string_eq,
  if◌then◌else◌, eq_of_test, ap, Bool-cases, inl, inr,
}
use retail_reconciliation_ag.Prelude.Dict.{Dict, get, get_or, set, get-set}
use retail_reconciliation_ag.Audit.Tables.{Database}
use retail_reconciliation_ag.Agent.Graph.{count_from}

pub record MetricsSnapshot : Type 0 where
  pub runs_total : ℕ
  pub exceptions_by_reason : Dict String ℕ
  pub notifications : Dict String ℕ
  pub incidents : Dict String ℕ
  pub breaker_state : String
  pub breaker_fail_count : ℕ

-- `build_metrics_snapshot`; `select(x, func.count()).group_by(x)` counts the rows for each x.
unfoldable pub build_metrics_snapshot : Database → Dict String ℕ → String → ℕ → MetricsSnapshot
unfolding count_from
build_metrics_snapshot db incidents breaker_state breaker_fail_count = record {
  runs_total = length db.run_log;
  exceptions_by_reason = count_from [] (map (λ row. row.reason) db.exception_log);
  notifications = count_from [] (map (λ row. row.status) db.notification_log);
  incidents = incidents;
  breaker_state = breaker_state;
  breaker_fail_count = breaker_fail_count;
}

abbrev pub total : Dict String ℕ → ℕ
total [] = 0
total ((k, n) ∷ d) = n + total d

total-set : (d : Dict String ℕ) (k : String) → total (set d k (suc (get_or d k 0))) ≡ suc (total d)
unfolding get set
total-set [] k = omega arith
total-set ((j, n) ∷ d) k = ground (arith, total-set d k)

count_from-total :
    (d : Dict String ℕ) (names : List String) → total (count_from d names) ≡ total d + length names
unfolding count_from
count_from-total d [] = omega arith
count_from-total d (name ∷ names) =
    count_from-total (set d name (suc (get_or d name 0))) names ∙ omega (arith, total-set d name)

-- The number of a name is the number of its occurrences.
abbrev pub occurrences : String → List String → ℕ
occurrences name [] = 0
occurrences name (n ∷ names) = (if n == name then 1 else 0) + occurrences name names

get_or-counted :
    (d : Dict String ℕ) (n name : String)
    → get_or (set d n (suc (get_or d n 0))) name 0 ≡ get_or d name 0 + (if n == name then 1 else 0)
get_or-counted d n name = elim (Bool-cases (n == name)) [
  | inl same ↦
      let equal : n ≡ name = eq_of_test n name same in
      ground (arith, get-set d n name (suc (get_or d n 0)), ap (get d) equal)
  | inr other ↦ ground (arith, get-set d n name (suc (get_or d n 0)))
]

count_from-occurrences :
    (d : Dict String ℕ) (names : List String) (name : String)
    → get_or (count_from d names) name 0 ≡ get_or d name 0 + occurrences name names
unfolding count_from
count_from-occurrences d [] name = omega arith
count_from-occurrences d (n ∷ names) name =
    count_from-occurrences (set d n (suc (get_or d n 0))) names name
    ∙ omega (arith, get_or-counted d n name)

length-map : {A : Type 0} (f : A → String) (xs : List A) → length (map f xs) ≡ length xs
length-map f [] = refl
length-map f (x ∷ xs) = omega (arith, length-map f xs)

-- The snapshot counts, for every reason, the exceptions that have it, and for every status, the
-- notifications that have it; the numbers of either kind add up to the number of rows.
pub build_metrics_snapshot_lem :
    (db : Database) (incidents : Dict String ℕ) (breaker_state : String) (breaker_fail_count : ℕ)
    (name : String)
    → (get_or
          (build_metrics_snapshot db incidents breaker_state
            breaker_fail_count).exceptions_by_reason
          name
          0
        ≡ occurrences name (map (λ row. row.reason) db.exception_log))
      × (get_or
            (build_metrics_snapshot db incidents breaker_state breaker_fail_count).notifications
            name
            0
          ≡ occurrences name (map (λ row. row.status) db.notification_log))
      × (total
            (build_metrics_snapshot db incidents breaker_state
              breaker_fail_count).exceptions_by_reason
          ≡ length db.exception_log)
      × (total (build_metrics_snapshot db incidents breaker_state breaker_fail_count).notifications
          ≡ length db.notification_log)
unfolding build_metrics_snapshot
build_metrics_snapshot_lem db incidents breaker_state breaker_fail_count name = (
  counted (map (λ row. row.reason) db.exception_log),
  counted (map (λ row. row.status) db.notification_log),
  summed (λ row. row.reason) db.exception_log,
  summed (λ row. row.status) db.notification_log,
)
  where
    counted : (names : List String) → get_or (count_from [] names) name 0 ≡ occurrences name names
    counted names = count_from-occurrences [] names name ∙ unfold get in omega arith

    summed :
        {A : Type 0} (f : A → String) (xs : List A) → total (count_from [] (map f xs)) ≡ length xs
    summed f xs = omega (arith, count_from-total [] (map f xs), length-map f xs)

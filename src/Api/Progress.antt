-- ===== src/Api/Progress.antt =====
-- src/reconcile/api/progress.py. The labels are left out.
use mathlib.Core.List.{append-nil}
use retail_reconciliation_ag.Prelude.{
  ℕ, ◌*◌, ◌≤◌, String, List, [], ◌∷◌, ◌++◌, Option, none, some, Bool, true, false, ◌≡◌, arith, leb,
  ◌==◌, string_eq, if◌then◌else◌, ◌⊎◌, inl, inr, filter, filter-append, Bool-cases, Option-cases,
}
use retail_reconciliation_ag.Prelude.Dict.{Dict, get, get_or}
use retail_reconciliation_ag.Audit.Tables.{AuditLog, Database}
use retail_reconciliation_ag.Audit.Repository.{get_run, find_run, list_events, log_event}
use retail_reconciliation_ag.Api.Registry.{RunRecord, state}

abbrev pub event_rank : Dict String ℕ
event_rank =
    ("reconcile_completed", 1)
    ∷ ("fuzzy_auto_applied", 2)
    ∷ ("fuzzy_review_flagged", 2)
    ∷ ("fuzzy_match_skipped", 2)
    ∷ ("exceptions_finalized", 3)
    ∷ ("exception_decided", 4)
    ∷ ("notification_dispatched", 5)
    ∷ ("verify_completed", 6)
    ∷ []

abbrev pub max_nat : ℕ → ℕ → ℕ
max_nat m n = if leb m n then n else m

-- `max(ranks, default=0)`; an event without a rank counts as 0, which changes no maximum.
unfoldable pub highest_rank : List AuditLog → ℕ
unfolding get
highest_rank [] = 0
highest_rank (event ∷ events) = max_nat (get_or event_rank event.event_type 0) (highest_rank events)

-- `max(3, round(rank / 6 * 90))`, where the quotient times 90 is 15 times the rank.
abbrev pub percent_of : ℕ → ℕ
percent_of rank = max_nat 3 (15 * rank)

pub record Progress : Type 0 where
  pub status : String
  pub percent : ℕ
  pub done : Bool

unfoldable pub run_events : Database → String → List AuditLog
unfolding list_events find_run
run_events db run_id = elim (get_run db run_id) [ none ↦ [] | some run ↦ list_events db run_id ]

-- `compute_progress`, by the state of the run in the registry.
unfoldable pub progress_of : String → Database → String → Option Progress
unfolding highest_rank run_events
progress_of run_state db run_id =
    if run_state == "unknown"
    then none
    else if run_state == "done"
    then some (record { status = "completed"; percent = 100; done = true })
    else if run_state == "error"
    then some (record { status = "failed"; percent = 100; done = true })
    else some (record {
      status = "running";
      percent = percent_of (highest_rank (run_events db run_id));
      done = false;
    })

unfoldable pub compute_progress : Dict String RunRecord → Database → String → Option Progress
unfolding state progress_of
compute_progress runs db run_id = progress_of (state runs run_id) db run_id

rank-le : (name : String) → get_or event_rank name 0 ≤ 6
unfolding get
rank-le name = ground arith

highest_rank-le : (events : List AuditLog) → highest_rank events ≤ 6
unfolding highest_rank
highest_rank-le [] = omega arith
highest_rank-le (event ∷ events) = ground (arith, highest_rank-le events, rank-le event.event_type)

-- What is reported of a run that is known: 100 percent with `done` set, or else at least 3 and at most
-- 90 percent.
pub percent_bounds :
    (run_state : String) (db : Database) (run_id : String) (p : Progress)
    → progress_of run_state db run_id ≡ some p
    → ((p.done ≡ true) × (p.percent ≡ 100))
      ⊎ ((p.done ≡ false) × (3 ≤ p.percent) × (p.percent ≤ 90))
unfolding progress_of
percent_bounds run_state db run_id p h = ground (arith, highest_rank-le (run_events db run_id))

max_nat_mono : (a b c : ℕ) → b ≤ c → max_nat a b ≤ max_nat a c
max_nat_mono a b c h = ground arith

highest_rank-append :
    (events : List AuditLog) (event : AuditLog)
    → highest_rank events ≤ highest_rank (events ++ event ∷ [])
unfolding highest_rank
highest_rank-append [] event = omega arith
highest_rank-append (e ∷ events) event = max_nat_mono _ _ _ (highest_rank-append events event)

list_events-log_event :
    (event : AuditLog) (db : Database) (run_id : String)
    → highest_rank (list_events db run_id) ≤ highest_rank (list_events (log_event event db) run_id)
unfolding list_events log_event
list_events-log_event event db run_id = elim (Bool-cases (event.run_id == run_id)) [
  | inl same ↦
      rw (filter-append (λ e. e.run_id == run_id) db.audit_log (event ∷ []), same)
        (highest_rank-append (filter (λ e. e.run_id == run_id) db.audit_log) event)
  | inr other ↦
      rw (filter-append (λ e. e.run_id == run_id) db.audit_log (event ∷ []), other, append-nil)
        (omega arith)
]

run_events-log_event :
    (event : AuditLog) (db : Database) (run_id : String)
    → highest_rank (run_events db run_id) ≤ highest_rank (run_events (log_event event db) run_id)
unfolding run_events log_event
run_events-log_event event db run_id = elim (Option-cases (find_run run_id db.run_log)) [
  | inl unknown ↦ rw (unknown, run_events) (omega arith)
  | inr (run, known) ↦ rw (known, run_events) (list_events-log_event event db run_id)
]

-- While a run is pending, an event that is logged never lowers its percentage.
pub percent-log_event :
    (event : AuditLog) (db : Database) (run_id : String) (p q : Progress)
    → progress_of "pending" db run_id ≡ some p
    → progress_of "pending" (log_event event db) run_id ≡ some q
    → p.percent ≤ q.percent
unfolding progress_of
percent-log_event event db run_id p q h k = ground (arith, run_events-log_event event db run_id)

-- ===== src/Audit/Resolution.antt =====
-- What closing out exceptions does to their table (src/reconcile/agent/verifier.py).
use retail_reconciliation_ag.Prelude.{
  sym, String, List, [], ◌∷◌, map, ◌∙◌, contains, Bool, ◌||◌, ◌&&◌, not, true, false, ◌≡◌, refl,
  arith, filter, length, ◌==◌, string_eq, if◌then◌else◌, ap, Bool-cases, inl, inr,
}
use retail_reconciliation_ag.Audit.Tables.{ExceptionLog, Database}
use retail_reconciliation_ag.Audit.Repository.{find_exception}
use retail_reconciliation_ag.Audit.Lifecycle.{is_stale, resolve_rows, mark_resolved}

-- A row that is not resolved, for a key that the run has not seen.
abbrev pub is_gone : List String → ExceptionLog → Bool
is_gone keys row =
    (row.status == "OPEN" || row.status == "AWAITING_RECHECK" || row.status == "ESCALATED")
    && not (contains keys row.mismatch_key)

is_stale-is_gone : (keys : List String) (row : ExceptionLog) → is_stale keys row ≡ is_gone keys row
unfolding is_stale
is_stale-is_gone keys row = ground arith

-- The row that a run resolves.
abbrev close : String → ExceptionLog → ExceptionLog
close run_id row = record row { status = "RESOLVED"; run_id = run_id }

-- The table that a reader of the rule expects.
abbrev closed : String → List String → List ExceptionLog → List ExceptionLog
closed run_id keys rows = map (λ row. if is_stale keys row then close run_id row else row) rows

closed-eq :
    (run_id : String) (keys : List String) (rows : List ExceptionLog)
    → closed run_id keys rows ≡ map (λ row. if is_gone keys row then close run_id row else row) rows
closed-eq run_id keys [] = refl
closed-eq run_id keys (row ∷ rows) = rw (is_stale-is_gone keys row, closed-eq run_id keys rows) refl

count-eq :
    (keys : List String) (rows : List ExceptionLog)
    → length (filter (is_stale keys) rows) ≡ length (filter (is_gone keys) rows)
count-eq keys [] = refl
count-eq keys (row ∷ rows) = ground (arith, is_stale-is_gone keys row, count-eq keys rows)

resolve_rows-eq :
    (run_id : String) (keys : List String) (rows : List ExceptionLog)
    → ((resolve_rows run_id keys rows).0 ≡ closed run_id keys rows)
      × ((resolve_rows run_id keys rows).1 ≡ length (filter (is_stale keys) rows))
unfolding resolve_rows
resolve_rows-eq run_id keys [] = (refl, refl)
resolve_rows-eq run_id keys (row ∷ rows) =
    let rest : ((resolve_rows run_id keys rows).0 ≡ closed run_id keys rows)
        × ((resolve_rows run_id keys rows).1 ≡ length (filter (is_stale keys) rows)) =
      resolve_rows-eq run_id keys rows in
    elim (Bool-cases (is_stale keys row)) [
      | inl stale ↦ rw stale (ap (λ xs. close run_id row ∷ xs) rest.0, ground (arith, rest.1))
      | inr other ↦ rw other (ap (λ xs. row ∷ xs) rest.0, rest.1)
    ]

close-is_stale :
    (run_id : String) (keys : List String) (row : ExceptionLog)
    → is_stale keys (close run_id row) ≡ false
unfolding is_stale
close-is_stale run_id keys row = refl

filter-closed :
    (run_id : String) (keys : List String) (rows : List ExceptionLog)
    → filter (is_stale keys) (closed run_id keys rows) ≡ []
filter-closed run_id keys [] = refl
filter-closed run_id keys (row ∷ rows) = elim (Bool-cases (is_stale keys row)) [
  | inl stale ↦ rw (stale, close-is_stale run_id keys row) (filter-closed run_id keys rows)
  | inr other ↦ rw (other, other) (filter-closed run_id keys rows)
]

-- `mark_resolved` returns how many rows are OPEN, AWAITING_RECHECK or ESCALATED and for a key outside
-- of the run. It makes these rows RESOLVED, in the name of the run, and leaves each other row, the order of the rows and the other
-- tables as they are. A second call for the same keys finds nothing to resolve.
pub mark_resolved_lem :
    (run_id : String) (keys : List String) (db : Database)
    → ((mark_resolved run_id keys db).0 ≡ length (filter (is_gone keys) db.exception_log))
      × ((mark_resolved run_id keys db).1 ≡ record db {
        exception_log =
            map
              (λ row.
                if is_gone keys row
                then record row { status = "RESOLVED"; run_id = run_id }
                else row)
              db.exception_log;
      })
      × ((again : String) → (mark_resolved again keys (mark_resolved run_id keys db).1).0 ≡ 0)
unfolding mark_resolved
mark_resolved_lem run_id keys db =
    let rows : ((resolve_rows run_id keys db.exception_log).0 ≡ closed run_id keys db.exception_log)
        × ((resolve_rows run_id keys db.exception_log).1
            ≡ length (filter (is_stale keys) db.exception_log)) =
      resolve_rows-eq run_id keys db.exception_log in
    (
      rows.1 ∙ count-eq keys db.exception_log,
      ap (λ rs. record db { exception_log = rs }) (rows.0 ∙ closed-eq run_id keys db.exception_log),
      λ again. rw rows.0 (
          (resolve_rows-eq again keys (closed run_id keys db.exception_log)).1
          ∙ ap length (filter-closed run_id keys db.exception_log)),
    )

stale_ne :
    (keys : List String) (key : String) (row : ExceptionLog)
    → is_stale keys row ≡ true
    → contains keys key ≡ true
    → (row.mismatch_key == key) ≡ false
unfolding is_stale
stale_ne keys key row h k = ground arith

find_exception-closed :
    (run_id : String) (keys : List String) (key : String) (rows : List ExceptionLog)
    → contains keys key ≡ true
    → find_exception key (closed run_id keys rows) ≡ find_exception key rows
unfolding find_exception
find_exception-closed run_id keys key [] h = refl
find_exception-closed run_id keys key (row ∷ rows) h = elim (Bool-cases (is_stale keys row)) [
  | inl stale ↦
      rw (stale, stale_ne keys key row stale h) (find_exception-closed run_id keys key rows h)
  | inr other ↦ rw (other, find_exception-closed run_id keys key rows h) refl
]

-- A key of the current run is found after `mark_resolved` as it was found before: its row is not
-- resolved by the run that still shows it.
pub find_exception-mark_resolved :
    (run_id : String) (keys : List String) (key : String) (db : Database)
    → contains keys key ≡ true
    → find_exception key (mark_resolved run_id keys db).1.exception_log
      ≡ find_exception key db.exception_log
find_exception-mark_resolved run_id keys key db h =
    rw ((mark_resolved_lem run_id keys db).1, sym (closed-eq run_id keys db.exception_log))
      (find_exception-closed run_id keys key db.exception_log h)

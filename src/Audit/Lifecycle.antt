-- ===== src/Audit/Lifecycle.antt =====
-- src/reconcile/agent/verifier.py: exceptions that a run no longer shows are resolved.
use retail_reconciliation_ag.Prelude.{
  ℕ, ◌+◌, String, List, [], ◌∷◌, Bool, not, ◌&&◌, contains, string_eq, if◌then◌else◌,
}
use retail_reconciliation_ag.Audit.Tables.{ExceptionLog, Database}

abbrev pub unresolved : List String
unresolved = "OPEN" ∷ "AWAITING_RECHECK" ∷ "ESCALATED" ∷ []

-- The row is unresolved, and its key is not among those of the run.
unfoldable pub is_stale : List String → ExceptionLog → Bool
is_stale current_keys row =
    contains unresolved row.status && not (contains current_keys row.mismatch_key)

-- The loop of `mark_resolved`: the rows after it, and how many it resolved.
unfoldable pub resolve_rows : String → List String → List ExceptionLog → List ExceptionLog × ℕ
unfolding is_stale
resolve_rows run_id current_keys [] = ([], 0)
resolve_rows run_id current_keys (row ∷ rows) =
    let (rest, resolved) = resolve_rows run_id current_keys rows in
    if is_stale current_keys row
    then (record row { status = "RESOLVED"; run_id = run_id } ∷ rest, resolved + 1)
    else (row ∷ rest, resolved)

unfoldable pub mark_resolved : String → List String → Database → ℕ × Database
unfolding resolve_rows
mark_resolved run_id current_keys db =
    let (rows, resolved) = resolve_rows run_id current_keys db.exception_log in
    (resolved, record db { exception_log = rows })

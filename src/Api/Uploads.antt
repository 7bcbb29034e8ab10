-- ===== src/Api/Uploads.antt =====
-- What becomes of an upload (src/reconcile/api/routes.py, run_registry.py).
use mathlib.Core.Path.{subst}
use retail_reconciliation_ag.Prelude.{
  ℕ, ◌≤◌, String, List, [], ◌∷◌, ◌++◌, length, none, some, Bool, true, false, ◌≡◌, ◌≢◌, ◌⊎◌, inl,
  inr, refl, sym, ap, ◌∙◌, arith, Bool-cases, ◌==◌, string_eq, ltb,
}
use retail_reconciliation_ag.Prelude.Dict.{Dict, get, get_or, set, delete, HasDistinctKeys, get-set}
use retail_reconciliation_ag.Domain.Records.{Order, Settlement}
use retail_reconciliation_ag.Audit.Repository.{find_run}
use retail_reconciliation_ag.Notifications.Service.{Mailbox}
use retail_reconciliation_ag.Parsers.Base.{Parsed, parsed, parse_error, raised, bytes}
use retail_reconciliation_ag.Agent.Service.{RunOutcome, run}
use retail_reconciliation_ag.Agent.Outcomes.{IsConcluded, run-IsConcluded}
use retail_reconciliation_ag.Api.Registry.{
  RunRecord, pending, record_state, start, evict, set_outcome, put_last, get-start,
}
use retail_reconciliation_ag.Api.Routes.{
  http_error, refuse, Server, Web, progress_page, results, Upload, Job, Answer,
  start_background_run, finish_job, worker, reject_files, accept_files, reconcile_endpoint,
  is_locked, is_too_large, read_files,
}
use retail_reconciliation_ag.Api.Pages.{results_page, page_of}

module _ {V : Type 0} where
  set-HasDistinctKeys :
      (d : Dict String V) (k : String) (v : V) → HasDistinctKeys d → HasDistinctKeys (set d k v)
  unfolding set
  set-HasDistinctKeys [] k v h = (unfold get in refl, tt)
  set-HasDistinctKeys ((j, w) ∷ d) k v h = elim (Bool-cases (j == k)) [
    | inl same ↦ rw same h
    | inr other ↦ rw other (ground (arith, get-set d k j v, h.0), set-HasDistinctKeys d k v h.1)
  ]

  get-delete : (d : Dict String V) (k : String) → HasDistinctKeys d → get (delete d k) k ≡ none
  unfolding get delete
  get-delete [] k h = refl
  get-delete ((j, w) ∷ d) k h = ground (arith, get-delete d k h.1, h.0)

  get-last :
      (d : Dict String V) (k : String) (v : V) → get d k ≡ none → get (d ++ (k, v) ∷ []) k ≡ some v
  unfolding get
  get-last [] k v h = ground arith
  get-last ((j, w) ∷ d) k v h = ground (arith, get-last d k v)

evict-HasDistinctKeys :
    (max_entries : ℕ) (runs : Dict String RunRecord)
    → HasDistinctKeys runs
    → HasDistinctKeys (evict max_entries runs)
unfolding evict
evict-HasDistinctKeys max_entries [] h = tt
evict-HasDistinctKeys max_entries (entry ∷ runs) h =
    elim (Bool-cases (ltb max_entries (length (entry ∷ runs)))) [
      | inl full ↦ rw full (evict-HasDistinctKeys max_entries runs h.1)
      | inr room ↦ rw room h
    ]

results_page-set_outcome :
    {N : Type 0} (runs : Dict String RunRecord) (run_id : String) (outcome : RunOutcome)
    (demo : Bool)
    → (mailbox : Mailbox N) → HasDistinctKeys runs
    → get runs run_id ≡ some (pending demo)
    → results_page (record { registry = set_outcome run_id outcome runs; mailbox = mailbox }) run_id
      ≡ results outcome demo
unfolding results_page set_outcome page_of record_state
results_page-set_outcome runs run_id outcome demo mailbox distinct known =
    let same : get_or runs run_id (pending false) ≡ pending demo = ground (arith, known) in
    ap
      (λ (r : RunRecord).
        page_of run_id (get (put_last run_id (record r { outcome = some outcome }) runs) run_id))
      same
    ∙ ap (page_of run_id) (
        get-last (delete runs run_id) run_id (record (pending demo) { outcome = some outcome })
          (get-delete runs run_id distinct))

module _ {N : Type 0} (server : Server N) where
  -- The request is answered by the page for the progress, and once its thread has run, the page for the
  -- results shows the outcome, which the table of runs has too.
  pub record IsShown (run_id : String) (files : List Order × List Settlement) (answer : Answer N)
      : Type 0 where
    pub job : Job
    pub of_files : (job.orders, job.settlements) ≡ files
    pub outcome : RunOutcome
    pub started : answer.thread ≡ some job
    pub waits : answer.response ≡ progress_page run_id false
    pub shown : results_page (worker server job answer.web) run_id ≡ results outcome false
    pub concluded : IsConcluded run_id outcome (worker server job answer.web).mailbox

  -- The request starts nothing and leaves the registry alone.
  abbrev pub IsRefused : Web N → Answer N → Type 0
  IsRefused web answer =
      (answer.thread ≡ none)
      × (answer.web.registry ≡ web.registry)
      × ((run_id : String) (demo : Bool) → answer.response ≢ progress_page run_id demo)

  start_background_run-IsShown :
      (job : Job) (web : Web N)
      → 1 ≤ server.max_entries
      → length web.registry ≤ server.max_entries
      → HasDistinctKeys web.registry
      → find_run job.run_id web.mailbox.db.run_log ≡ none
      → IsShown job.run_id (job.orders, job.settlements) (start_background_run server job false web)
  unfolding start_background_run worker start
  start_background_run-IsShown job web room fits distinct fresh =
      let runs = evict server.max_entries (set web.registry job.run_id (pending false)) in
      let (outcome, mailbox', ran, concluded) =
        run-IsConcluded server.deps server.incidents job.orders job.settlements job.run_id job.as_of
          job.input_hash job.is_dry_run web.mailbox fresh in
      let ended : finish_job server job.run_id runs (
            run server.deps server.incidents job.orders job.settlements job.run_id job.as_of
              job.input_hash job.is_dry_run web.mailbox)
          ≡ record { registry = set_outcome job.run_id outcome runs; mailbox = mailbox' } =
        rw ran (unfold finish_job in refl) in
      record {
        job = job;
        of_files = refl;
        outcome = outcome;
        started = refl;
        waits = refl;
        shown =
            ap (λ w. results_page w job.run_id) ended
            ∙ results_page-set_outcome runs job.run_id outcome false mailbox'
                (evict-HasDistinctKeys server.max_entries _
                  (set-HasDistinctKeys web.registry job.run_id (pending false) distinct))
                (get-start server.max_entries job.run_id false web.registry room fits);
        concluded = subst (λ w. IsConcluded job.run_id outcome w.mailbox) (sym ended) concluded;
      }

  reject_files-IsRefused :
      (run_id message : String) (errors : List String) (web : Web N)
      → IsRefused web (reject_files server run_id message errors web)
  unfolding reject_files
  reject_files-IsRefused run_id message errors web = (refl, refl, λ id demo e. ground arith)

  -- An upload that is refused, and why.
  abbrev pub IsRefusedFor :
      Upload → Parsed (List Order × List Settlement) → Web N → Answer N → Type 0
  IsRefusedFor upload files web answer =
      IsRefused web answer
      × ((is_locked server.demo_access_key upload.demo_header upload.demo_key ≡ true)
          ⊎ (is_too_large upload.orders_bytes upload.settlements_bytes ≡ true)
          ⊎ ((message : String) × (errors : List String) × (files ≡ parse_error message errors))
          ⊎ (files ≡ raised))

  -- An upload whose files are read, and what becomes of it.
  abbrev pub IsAccepted : String → Parsed (List Order × List Settlement) → Answer N → Type 0
  IsAccepted run_id files answer =
      (read : List Order × List Settlement) × (files ≡ parsed read) × IsShown run_id read answer

  accept_files-cases :
      (upload : Upload) (run_id : String) (today : ℕ)
      (files : Parsed (List Order × List Settlement)) (web : Web N)
      → 1 ≤ server.max_entries
      → length web.registry ≤ server.max_entries
      → HasDistinctKeys web.registry
      → find_run run_id web.mailbox.db.run_log ≡ none
      → IsRefusedFor upload files web (accept_files server upload run_id today files web)
        ⊎ IsAccepted run_id files (accept_files server upload run_id today files web)
  unfolding accept_files
  accept_files-cases upload run_id today (parsed (os, ss)) web room fits distinct fresh =
      inr ((os, ss), refl, start_background_run-IsShown _ web room fits distinct fresh)
  accept_files-cases upload run_id today (parse_error message errors) web room fits distinct fresh =
      inl
        (reject_files-IsRefused run_id message errors web, inr (inr (inl (message, errors, refl))))
  accept_files-cases upload run_id today raised web room fits distinct fresh =
      inl ((refl, refl, λ id demo e. ground arith), inr (inr (inr refl)))

  -- What the two readers make of the files of an upload.
  abbrev pub files_of : Upload → Parsed (List Order × List Settlement)
  files_of upload =
      read_files server (bytes upload.orders_bytes) upload.orders_name
        (bytes upload.settlements_bytes) upload.settlements_name

  -- An upload is refused, for its key, its size or its files, and then starts no thread and leaves the
  -- registry as it was; or its files are read, and it is answered by the page for the progress. In this
  -- case the thread comes to an end, whatever the LLM and the mail provider do, and if no other request
  -- comes in between, the page for the results then shows how the run of these files ended, which the
  -- table of runs says too. The registry has room for a run and no id twice, and the id of the run is
  -- not taken.
  pub reconcile_endpoint-cases :
      (upload : Upload) (run_id : String) (today : ℕ) (web : Web N)
      → 1 ≤ server.max_entries
      → length web.registry ≤ server.max_entries
      → HasDistinctKeys web.registry
      → find_run run_id web.mailbox.db.run_log ≡ none
      → IsRefusedFor upload
          (files_of upload)
          web
          (reconcile_endpoint server upload run_id today web)
        ⊎ IsAccepted run_id (files_of upload) (reconcile_endpoint server upload run_id today web)
  unfolding reconcile_endpoint
  reconcile_endpoint-cases upload run_id today web room fits distinct fresh =
      elim (Bool-cases (is_locked server.demo_access_key upload.demo_header upload.demo_key)) [
        | inl locked ↦
            let answered : endpoint
                ≡ refuse (http_error 401 "Invalid or missing demo access key.") web =
              rw locked refl in
            subst Told (sym answered) (inl ((refl, refl, λ id demo e. ground arith), inl locked))
        | inr unlocked ↦
            elim (Bool-cases (is_too_large upload.orders_bytes upload.settlements_bytes)) [
              | inl large ↦
                  let answered : endpoint
                      ≡ refuse (http_error 413 "Uploaded file exceeds the 5 MB limit.") web =
                    rw (unlocked, large) refl in
                  subst Told (sym answered)
                    (inl ((refl, refl, λ id demo e. ground arith), inr (inl large)))
              | inr small ↦
                  let answered : endpoint
                      ≡ accept_files server upload run_id today (files_of upload) web =
                    rw (unlocked, small) refl in
                  subst Told (sym answered) (
                    accept_files-cases upload run_id today (files_of upload) web room fits distinct
                      fresh)
            ]
      ]
    where
      endpoint : Answer N
      endpoint = reconcile_endpoint server upload run_id today web

      Told : Answer N → Type 0
      Told answer =
          IsRefusedFor upload (files_of upload) web answer
          ⊎ IsAccepted run_id (files_of upload) answer

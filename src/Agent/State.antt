-- ===== src/Agent/State.antt =====
-- src/reconcile/agent/state.py, with what the nodes do outside of their own code.
use retail_reconciliation_ag.Prelude.{ℕ, String, List, Bool, Error}
use retail_reconciliation_ag.Prelude.Dict.{Dict}
use retail_reconciliation_ag.Prelude.Effects.{Exec}
use retail_reconciliation_ag.Domain.Records.{Obligation, Settlement, MatchedPair, ExceptionRecord}
use retail_reconciliation_ag.Config.{AppConfig}
use retail_reconciliation_ag.Audit.Tables.{Json, Database}
use retail_reconciliation_ag.Notifications.Service.{Transport, Mailbox}
use retail_reconciliation_ag.Agent.Schemas.{
  ExceptionDecision, FuzzyPairing, EmailMessageView, LlmClient,
}

-- `key_exceptions` is never set nor read.
pub record ReconciliationState : Type 0 where
  pub run_id : String
  pub as_of_date : ℕ
  pub dry_run : Bool
  pub obligations : List Obligation
  pub settlements : List Settlement
  pub order_sum_exceptions : List ExceptionRecord
  pub matched : List MatchedPair
  pub unmatched_obligations : List Obligation
  pub unmatched_settlements : List Settlement
  pub fuzzy_auto_applied : List FuzzyPairing
  pub exceptions : List ExceptionRecord
  pub decisions : List ExceptionDecision
  pub emails : List EmailMessageView
  pub current_keys : List String
  pub summary : Dict String Json

-- `sha1` is as for `make_mismatch_key`, and `str_error` is Python's `str` of an exception.
pub record AgentDependencies (N : Type 0) : Type 0 where
  pub config : AppConfig
  pub llm : LlmClient N
  pub notifications : Transport N
  pub fuzzy_enabled : Bool
  pub sha1 : String → String
  pub str_error : Error → String

module _ {N : Type 0} where
  -- A call of what is outside of the program leaves the tables alone.
  unfoldable pub outside : {A : Type 0} → Exec N A → Exec (Mailbox N) A
  outside call mailbox =
      let (result, provider) = call mailbox.provider in
      (result, record mailbox { provider = provider })

  -- A session that changes the tables and commits.
  abbrev pub commit : (Database → Database) → Mailbox N → Mailbox N
  commit change mailbox = record mailbox { db = change mailbox.db }

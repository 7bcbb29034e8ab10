-- ===== src/Lib.antt =====
-- ReconcileFlow: payment reconciliation by keys, and an agent that decides about what is left over.
--
-- Paths are those of the repository. The program reads orders and settlements, turns the orders into
-- obligations, pairs obligations with settlements, and makes an exception of every pair that is wrong
-- and every row that is left. A graph of nodes then lets an LLM propose fuzzy pairings and an action
-- for each exception, checks the action against the configuration, sends the notifications, and closes
-- the exceptions of earlier runs that are gone.
--
-- Which file models which part:
--   Parsers.Base, Rows, Readers: src/reconcile/parsers/base.py, orders.py and settlements.py, with
--     theorems in Complete, Columns, Crashes and NetAmounts. Parsers.Fields and Models: how pydantic
--     validates `Order` and `Settlement` of src/reconcile/models/domain.py from a row.
--   Domain.Money: `_to_money` there; Domain.Decimal and Domain.Reading say what it uses of Python's
--     `decimal`, and Domain.Money.Rounding, Digits and Texts have the theorems.
--   Domain.Enums, Domain.Records, Domain.Keys: src/reconcile/models/domain.py. A model is a record, an
--     enumeration a data type with `value` for its text; `check_payment_fields` is the validator of
--     `Order`, `make_obligation_id` and `make_mismatch_key` have their names.
--   Config, Config.Overrides: src/reconcile/config.py, the addresses and their overrides from the
--     environment. Of `AppSettings`, `ResilienceConfig` and `IncidentsConfig` only the addresses and the
--     number of attempts stand here.
--   Reconciliation.Obligations, Matcher, Leftovers, Sla, Rules: src/reconcile/reconciliation/. The
--     function `reconcile_keys` is `index_from` for its first loop and `match_from` for its second, with
--     `candidates_of` and `settle` for the body; `classify_leftovers` and `reconcile` are in Leftovers;
--     `build_obligations` has `group_by_order` and `build_from`. Their theorems are in
--     Reconciliation.Matching (the matcher), Building, Classified and Routing.
--   Audit.Tables, Audit.Repository, Audit.Idempotency: src/reconcile/models/db_models.py and
--     src/reconcile/audit/. A table is the list of its rows in the order of their insertion, a session
--     that commits is a function on the tables. Audit.Lifecycle: src/reconcile/agent/verifier.py, with
--     its theorems in Audit.Resolution.
--   Notifications.Service: src/reconcile/notifications/base.py, retry.py and service.py; its theorems
--     are in Notifications.Delivery and Notifications.Rows, where a `Call` is the arguments of a call of `dispatch`.
--   Notifications.Notifiers: resend_notifier.py, smtp_notifier.py, mock_notifier.py and factory.py there.
--     Agent.Production puts the first together with the Groq client.
--   Agent.Schemas, State, Planner, Fuzzy, Nodes, Dispatching, Graph: src/reconcile/agent/schemas.py,
--     state.py, planner.py, nodes.py, graph.py and the protocol of llm.py. A node is a function from the
--     state to a computation that returns the next state or raises, over the tables and the state of
--     what is outside of the program; `run_graph` is the compiled graph. Theorems: Agent.Guards
--     (decisions), Agent.Pairing and Agent.Justified (fuzzy matching), Agent.Logbook and Agent.Runs
--     (whole runs), Agent.Completion and
--     Agent.Completed (runs whose clients return).
--   Agent.Llm: src/reconcile/agent/llm.py and prompts.py. Mock is `MockLLMClient`, Groq
--     `GroqLLMClient` over the state of the model, Prompts the texts; Search, Proposals and Budget
--     have the theorems. `email_draft` of Agent.Schemas is the constructor of `EmailDraft` with its
--     limits, and Agent.Llm.Subjects says when the templates keep to them; Agent.Naming and Agent.Named
--     follow short ids from the files to the exceptions of a run.
--   Incidents: src/reconcile/incidents/models.py, severity.py and service.py. Agent.Service:
--     src/reconcile/agent/service.py, where `run` takes the id and the date that the first lines of the
--     method choose; Agent.Outcomes has its theorem.
--   Api.Routes, Api.Pages: src/reconcile/api/routes.py. A request is a function on the registry and the tables; the
--     thread that it starts is a `Job` for `worker`. Theorem: Api.Uploads. Api.Metrics:
--     src/reconcile/api/metrics.py.
--   Api.Registry, Api.Progress: src/reconcile/api/run_registry.py and progress.py, without the lock and
--     the labels.
--   Prelude: Python's dictionaries, errors and texts, computations with state, lists and tests.
--   Tests: data and the theorems at work on it.
--
-- How the state and the numbers are modelled:
--   Money is a natural number of paise, as `_to_money` leaves it (two digits after the point); amounts
--   are never negative, since the models ask for that. The tolerance and the threshold are whole paise
--   as well, and not negative. Sums of amounts are exact, where Python rounds them to 28 digits. Dates are ordinals, and an age is an integer, which is negative for an
--   order of the future. The confidence of a pairing is a multiple of the least positive double, so that
--   comparisons are exact. Time stamps of rows, log lines and metrics
--   are left out. The loops go over lists, but for two over the digits of a number n, which have n rounds:
--   no number has more digits than itself, except 0, which takes no round.
--
-- What stands for code that is not in the repository: `sha1` of hashlib, the LLM behind `LlmClient`,
-- and the mail provider, tenacity and pybreaker in `Transport`. They may change a state of their own
-- of any type, and may fail; what a theorem assumes of them stands in `AreReliable` and `PassOn`.
-- `str` of an exception is a parameter.
-- The files of incidents are taken to be written. LangGraph is taken to run the nodes
-- along the edges, and to write what a node returns over the state.
-- A session that is left by an exception changes nothing.
--
-- pandas is in `Pandas`, which gives a table or raises; pydantic's dates and messages are in `Pydantic`;
-- the model behind Groq and its retries are in `Chat`.
--
-- Not modelled: the command line, the start page and the wiring of the web application, the counting of incidents
-- in their files, and logging, which are input and output. Of the readers: digits of other scripts, and a table in which a
-- column stands twice.
pub mod Prelude
pub mod Domain
pub mod Config
pub mod Reconciliation
pub mod Audit
pub mod Notifications
pub mod Agent
pub mod Api
pub mod Incidents
pub mod Parsers
pub mod Tests

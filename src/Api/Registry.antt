-- ===== src/Api/Registry.antt =====
-- src/reconcile/api/run_registry.py; an `OrderedDict` is a dictionary in the order of its entries.
use retail_reconciliation_ag.Prelude.{
  ℕ, ◌≤◌, String, [], ◌∷◌, ◌++◌, length, Option, none, some, Bool, false, ◌≡◌, refl, arith, ltb,
  string_eq, if◌then◌else◌, inl, inr, Option-cases,
}
use retail_reconciliation_ag.Prelude.Dict.{Dict, get, get_or, set, delete}
use retail_reconciliation_ag.Agent.Service.{RunOutcome}

pub record RunRecord : Type 0 where
  pub demo : Bool
  pub outcome : Option RunOutcome
  pub error : Option String

abbrev pub pending : Bool → RunRecord
pending demo = record { demo = demo; outcome = none; error = none }

-- `RunRecord.state`
unfoldable pub record_state : RunRecord → String
record_state record_ = elim record_.error [
  | some message ↦ "error"
  | none ↦ elim record_.outcome [ some outcome ↦ "done" | none ↦ "pending" ]
]

-- `_evict_locked`
unfoldable pub evict : ℕ → Dict String RunRecord → Dict String RunRecord
evict max_entries [] = []
evict max_entries (entry ∷ runs) =
    let rest = evict max_entries runs in
    if ltb max_entries (length (entry ∷ runs)) then rest else entry ∷ runs

unfoldable pub start : ℕ → String → Bool → Dict String RunRecord → Dict String RunRecord
unfolding evict
start max_entries run_id demo runs = evict max_entries (set runs run_id (pending demo))

-- `self._runs[run_id] = record` and `move_to_end`
abbrev pub put_last : String → RunRecord → Dict String RunRecord → Dict String RunRecord
put_last run_id record_ runs = delete runs run_id ++ (run_id, record_) ∷ []

unfoldable pub set_outcome : String → RunOutcome → Dict String RunRecord → Dict String RunRecord
set_outcome run_id outcome runs =
    put_last run_id (record (get_or runs run_id (pending false)) { outcome = some outcome }) runs

unfoldable pub set_error : String → String → Dict String RunRecord → Dict String RunRecord
set_error run_id message runs =
    put_last run_id (record (get_or runs run_id (pending false)) { error = some message }) runs

-- `RunRegistry.state`
unfoldable pub state : Dict String RunRecord → String → String
unfolding record_state
state runs run_id = elim (get runs run_id) [
  | none ↦ "unknown"
  | some record_ ↦ record_state record_
]

evict-length :
    (max_entries : ℕ) (runs : Dict String RunRecord) → length (evict max_entries runs) ≤ max_entries
unfolding evict
evict-length max_entries [] = omega arith
evict-length max_entries (entry ∷ runs) = ground (arith, evict-length max_entries runs)

evict-eq_self :
    (max_entries : ℕ) (runs : Dict String RunRecord)
    → length runs ≤ max_entries
    → evict max_entries runs ≡ runs
unfolding evict
evict-eq_self max_entries [] h = refl
evict-eq_self max_entries (entry ∷ runs) h = ground arith

set-new :
    (runs : Dict String RunRecord) (run_id : String) (r : RunRecord)
    → get runs run_id ≡ none
    → set runs run_id r ≡ runs ++ (run_id, r) ∷ []
unfolding set get
set-new [] run_id r h = refl
set-new ((j, w) ∷ runs) run_id r h = ground (arith, set-new runs run_id r)

set-known :
    (runs : Dict String RunRecord) (run_id : String) (r w : RunRecord)
    → get runs run_id ≡ some w
    → (length (set runs run_id r) ≡ length runs) × (get (set runs run_id r) run_id ≡ some r)
unfolding set get
set-known [] run_id r w h = (ground arith, ground arith)
set-known ((j, x) ∷ runs) run_id r w h =
    let rest = set-known runs run_id r w in (ground (arith, rest), ground (arith, rest))

get-append :
    (runs : Dict String RunRecord) (run_id : String) (r : RunRecord)
    → get runs run_id ≡ none
    → get (runs ++ (run_id, r) ∷ []) run_id ≡ some r
unfolding get
get-append [] run_id r h = ground arith
get-append ((j, x) ∷ runs) run_id r h = ground (arith, get-append runs run_id r)

get-evict :
    (max_entries : ℕ) (runs : Dict String RunRecord) (run_id : String) (r : RunRecord)
    → 1 ≤ max_entries
    → get runs run_id ≡ none
    → get (evict max_entries (runs ++ (run_id, r) ∷ [])) run_id ≡ some r
unfolding evict get
get-evict max_entries [] run_id r h k = ground arith
get-evict max_entries ((j, x) ∷ runs) run_id r h k =
    ground (arith, get-evict max_entries runs run_id r h, get-append runs run_id r)

state-pending :
    (demo : Bool) (runs : Dict String RunRecord) (run_id : String)
    → get runs run_id ≡ some (pending demo)
    → state runs run_id ≡ "pending"
unfolding state record_state
state-pending demo runs run_id h = ground arith

pub get-start :
    (max_entries : ℕ) (run_id : String) (demo : Bool) (runs : Dict String RunRecord)
    → 1 ≤ max_entries
    → length runs ≤ max_entries
    → get (evict max_entries (set runs run_id (pending demo))) run_id ≡ some (pending demo)
get-start max_entries run_id demo runs h k = elim (Option-cases (get runs run_id)) [
  | inl fresh ↦
      rw (set-new runs run_id (pending demo) fresh)
        (get-evict max_entries runs run_id (pending demo) h fresh)
  | inr (w, known) ↦
      let (same, found) = set-known runs run_id (pending demo) w known in
      rw (evict-eq_self max_entries (set runs run_id (pending demo)) (omega (arith, same, k))) found
]

-- A registry with room for a run holds, after `start`, at most as many runs as it has room for, and
-- the run that was started is among them and pending.
pub start_lem :
    (max_entries : ℕ) (run_id : String) (demo : Bool) (runs : Dict String RunRecord)
    → 1 ≤ max_entries
    → length runs ≤ max_entries
    → (length (start max_entries run_id demo runs) ≤ max_entries)
      × (state (start max_entries run_id demo runs) run_id ≡ "pending")
unfolding start
start_lem max_entries run_id demo runs h k = (
  evict-length max_entries (set runs run_id (pending demo)),
  state-pending demo (evict max_entries (set runs run_id (pending demo))) run_id
      (get-start max_entries run_id demo runs h k),
)

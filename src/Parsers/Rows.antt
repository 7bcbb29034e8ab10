-- ===== src/Parsers/Rows.antt =====
-- src/reconcile/parsers/base.py: `validate_rows`
use retail_reconciliation_ag.Prelude.{
  ℕ, suc, ◌+◌, String, List, [], ◌∷◌, ◌++◌, map, length, Bool, ◌||◌, repr, text, ◌==◌, string_eq,
  leb, if◌then◌else◌,
}
use retail_reconciliation_ag.Prelude.Dict.{Dict}
use retail_reconciliation_ag.Parsers.Base.{
  Parsed, parsed, parse_error, raised, Frame, row_of, payload_of,
}

-- An entry of `exc.errors()`: the location, joined by ".", and the message.
pub record Issue : Type 0 where
  pub location : String
  pub message : String

-- How `model_validate` ends: with an instance, with `ValidationError`, which has at
-- least one entry, or with any other exception.
pub data Validated {ℓ} (A : Type ℓ) : Type ℓ where
  valid : A → Validated A
  invalid : Issue → List Issue → Validated A
  crashed : Validated A

-- `f"row {row_number}: {location}: {err['msg']}"`, for the row at a position.
unfoldable pub error_line : ℕ → Issue → String
unfolding text repr
error_line position issue = text (
    "row "
    ∷ repr (position + 2)
    ∷ ": "
    ∷ (if issue.location == "" then "row" else issue.location)
    ∷ ": "
    ∷ issue.message
    ∷ [])

-- `instances` and `errors`, or another exception.
pub data Rows (A : Type 0) : Type 0 where
  collected : List A → List String → Rows A
  broke_off : Rows A

module _ {A : Type 0} where
  abbrev pub add_row : ℕ → Validated A → Rows A → Rows A
  add_row position (valid a) (collected rows errors) = collected (a ∷ rows) errors
  add_row position (invalid issue issues) (collected rows errors) =
      collected rows (map (error_line position) (issue ∷ issues) ++ errors)
  add_row position (valid a) broke_off = broke_off
  add_row position (invalid issue issues) broke_off = broke_off
  add_row position crashed rest = broke_off

  module _ (validate : Dict String String → Validated A) where
    -- The loop, from a position on.
    unfoldable pub validate_from : ℕ → List (Dict String String) → Rows A
    unfolding error_line
    validate_from position [] = collected [] []
    validate_from position (payload ∷ payloads) =
        add_row position (validate payload) (validate_from (suc position) payloads)

  unfoldable pub finish_rows : String → Rows A → Parsed (List A)
  unfolding text repr
  finish_rows file_label (collected rows []) = parsed rows
  finish_rows file_label (collected rows (e ∷ errors)) =
      parse_error
        (text (file_label ∷ " has " ∷ repr (suc (length errors)) ∷ " validation error(s)." ∷ []))
        (e ∷ errors)
  finish_rows file_label broke_off = raised

-- `frame.empty`
abbrev pub is_empty : Frame → Bool
is_empty frame = leb (length frame.columns) 0 || leb (length frame.rows) 0

abbrev pub payloads_of : Dict String String → Frame → List (Dict String String)
payloads_of field_map frame =
    map (λ cells. payload_of field_map (row_of frame.columns cells)) frame.rows

unfoldable pub validate_rows :
    {A : Type 0}
    → Frame
    → (Dict String String → Validated A)
    → String
    → Dict String String
    → Parsed (List A)
unfolding payload_of validate_from finish_rows text
validate_rows frame validate file_label field_map =
    if is_empty frame
    then parse_error (text (file_label ∷ " contains no data rows." ∷ [])) []
    else finish_rows file_label (validate_from validate 0 (payloads_of field_map frame))

-- ===== src/Parsers/Columns.antt =====
-- What `require_columns` promises (src/reconcile/parsers/base.py).
use retail_reconciliation_ag.Prelude.{
  String, List, [], ◌∷◌, filter, map, not, ◌&&◌, ◌||◌, contains, string_eq, ◌==◌, eq_of_test, ◌≡◌,
  ◌≢◌, ◌⊎◌, refl, arith, inl, inr, text, ◌∙◌,
}
use retail_reconciliation_ag.Parsers.Base.{
  parsed, parse_error, Frame, insert_text, sorted, missing_columns, missing_error, require_columns,
}

contains-insert_text :
    (s : String) (ts : List String) (a : String)
    → contains (insert_text s ts) a ≡ (a == s || contains ts a)
unfolding insert_text
contains-insert_text s [] a = refl
contains-insert_text s (t ∷ ts) a = ground (arith, contains-insert_text s ts a)

contains-sorted : (ss : List String) (a : String) → contains (sorted ss) a ≡ contains ss a
unfolding sorted
contains-sorted [] a = refl
contains-sorted (s ∷ ss) a =
    contains-insert_text s (sorted ss) a ∙ ground (arith, contains-sorted ss a)

contains-filter-not :
    (columns names : List String) (a : String)
    → contains (filter (λ name. not (contains columns name)) names) a
      ≡ (contains names a && not (contains columns a))
contains-filter-not columns [] a = refl
contains-filter-not columns (n ∷ names) a =
    ground (arith, contains-filter-not columns names a, eq_of_test a n)

contains-missing_columns :
    (columns required : List String) (a : String)
    → contains (missing_columns columns required) a
      ≡ (contains required a && not (contains columns a))
unfolding missing_columns
contains-missing_columns columns required a =
    contains-sorted (filter (λ name. not (contains columns name)) required) a
    ∙ contains-filter-not columns required a

abbrev pub missing_line : String → String
missing_line name = text ("missing column: " ∷ name ∷ [])

missing_error-cases :
    (file_label : String) (names : List String)
    → ((missing_error file_label names ≡ parsed tt) × (names ≡ []))
      ⊎ ((message : String) × (missing_error file_label names
            ≡ parse_error message (map missing_line names))
          × (names ≢ []))
missing_error-cases file_label [] = inl (refl, refl)
missing_error-cases file_label (name ∷ names) = inr (_, refl, λ e. ground arith)

-- `require_columns` computes names that are exactly those of the required columns that the table does
-- not have. Without such a name it returns; else it raises `ParseError` with an error for each of them.
pub require_columns-lem :
    (frame : Frame) (required : List String) (file_label : String)
    → (names : List String) × ((a : String)
        → contains names a ≡ (contains required a && not (contains frame.columns a)))
      × (((require_columns frame required file_label ≡ parsed tt) × (names ≡ []))
          ⊎ ((message : String) × (require_columns frame required file_label
                ≡ parse_error message (map missing_line names))
              × (names ≢ [])))
unfolding require_columns
require_columns-lem frame required file_label = (
  missing_columns frame.columns required,
  contains-missing_columns frame.columns required,
  missing_error-cases file_label (missing_columns frame.columns required),
)

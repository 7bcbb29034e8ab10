-- ===== src/Parsers/Base.antt =====
-- src/reconcile/parsers/base.py
use Prim.Native.Char.{Char, code}
use Prim.Native.String.{String}
use Prim.Native.String as S
use Prim.Native.Nat.{Ordering}
use retail_reconciliation_ag.Prelude.{
  ℕ, List, [], ◌∷◌, map, filter, Option, none, some, Bool, true, false, not, ◌||◌, contains,
  string_eq, text, join, if◌then◌else◌,
}
use retail_reconciliation_ag.Prelude.Dict.{Dict, get}
use retail_reconciliation_ag.Domain.Reading.{codes, is_space, to_lower, same_codes}

-- How the reading of a file ends: with its result, with `ParseError` and its fields, or with any other
-- exception.
pub data Parsed {ℓ} (A : Type ℓ) : Type ℓ where
  parsed : A → Parsed A
  parse_error : String → List String → Parsed A
  raised : Parsed A

abbrev pub then_parse {ℓ κ} : {A : Type ℓ} {B : Type κ} → Parsed A → (A → Parsed B) → Parsed B
then_parse (parsed a) f = f a
then_parse (parse_error message errors) f = parse_error message errors
then_parse raised f = raised

-- A path as a text, or the bytes of an upload.
pub data Source : Type 0 where
  path : String → Source
  bytes : List ℕ → Source

-- A table of texts, row by row.
pub record Frame : Type 0 where
  pub columns : List String
  pub rows : List (List String)

-- What pandas makes of a file: a table, `ValueError`, `OSError`, or another exception.
pub data Read : Type 0 where
  frame : Frame → Read
  bad_value bad_file : String → Read
  broken : Read

pub record Pandas : Type 0 where
  pub read_csv : Source → Read
  pub read_excel : Source → Read

-- `str.strip`
unfoldable pub strip_left : String → String
unfolding is_space
strip_left S.[] = S.[]
strip_left (S.◌∷◌ c s) = let rest = strip_left s in if is_space (code c) then rest else S.◌∷◌ c s

abbrev pub cons_unless_blank : Char → String → String
cons_unless_blank c S.[] = if is_space (code c) then S.[] else S.◌∷◌ c S.[]
cons_unless_blank c (S.◌∷◌ d s) = S.◌∷◌ c (S.◌∷◌ d s)

unfoldable pub strip_right : String → String
unfolding is_space
strip_right S.[] = S.[]
strip_right (S.◌∷◌ c s) = cons_unless_blank c (strip_right s)

unfoldable pub strip_text : String → String
unfolding strip_left strip_right
strip_text s = strip_right (strip_left s)

-- `name.lower().endswith(suffix)`, for a suffix of small letters.
abbrev pub ends_with : List ℕ → List ℕ → Bool
ends_with [] suffix = same_codes [] suffix
ends_with (c ∷ cs) suffix = let rest = ends_with cs suffix in same_codes (c ∷ cs) suffix || rest

abbrev pub lower_ends_with : String → String → Bool
lower_ends_with name suffix = ends_with (map to_lower (codes name)) (codes suffix)

-- The name that decides on the kind of the file.
abbrev pub name_of : Option String → Source → Option String
name_of (some name) source = some name
name_of none (path p) = some p
name_of none (bytes b) = none

-- `repr` of a text is a parameter.
unfoldable pub detect_is_csv : (String → String) → Option String → Parsed Bool
unfolding text
detect_is_csv show none =
    parse_error "Cannot determine file type: provide a .csv or .xlsx filename." []
detect_is_csv show (some name) =
    if lower_ends_with name ".csv"
    then parsed true
    else if lower_ends_with name ".xlsx"
        || lower_ends_with name ".xlsm"
        || lower_ends_with name ".xls"
    then parsed false
    else parse_error (text ("Unsupported file type: " ∷ show name ∷ ". Use .csv or .xlsx." ∷ [])) []

-- The handlers of `load_dataframe`, and the names of the columns.
unfoldable pub loaded : Read → Parsed Frame
unfolding text strip_text
loaded (frame f) = parsed (record f { columns = map strip_text f.columns })
loaded (bad_value e) = parse_error (text ("Could not read file: " ∷ e ∷ [])) []
loaded (bad_file e) = parse_error (text ("Could not open file: " ∷ e ∷ [])) []
loaded broken = raised

unfoldable pub load_dataframe : Pandas → (String → String) → Source → Option String → Parsed Frame
unfolding detect_is_csv loaded
load_dataframe pandas show source filename =
    then_parse (detect_is_csv show (name_of filename source))
      (λ is_csv. loaded (if is_csv then pandas.read_csv source else pandas.read_excel source))

-- `sorted(names)`
unfoldable pub insert_text : String → List String → List String
insert_text s [] = s ∷ []
insert_text s (t ∷ ts) =
    let rest = insert_text s ts in elim (S.compare t s) [ Ordering.lt ↦ t ∷ rest | _ ↦ s ∷ t ∷ ts ]

unfoldable pub sorted : List String → List String
unfolding insert_text
sorted [] = []
sorted (s ∷ ss) = insert_text s (sorted ss)

-- `required - present`, sorted.
unfoldable pub missing_columns : List String → List String → List String
unfolding sorted
missing_columns columns required = sorted (filter (λ name. not (contains columns name)) required)

abbrev pub missing_error : String → List String → Parsed (Unit {0})
missing_error file_label [] = parsed tt
missing_error file_label (name ∷ names) =
    parse_error
      (text (file_label ∷ " is missing required column(s): " ∷ join ", " (name ∷ names) ∷ "." ∷ []))
      (map (λ n. text ("missing column: " ∷ n ∷ [])) (name ∷ names))

unfoldable pub require_columns : Frame → List String → String → Parsed (Unit {0})
unfolding text join missing_columns
require_columns f required file_label =
    missing_error file_label (missing_columns f.columns required)

-- A cell that is there is never `None`.
abbrev pub or_none : String → Option String
or_none S.[] = none
or_none (S.◌∷◌ c s) = some (S.◌∷◌ c s)

unfoldable pub clean_cell : Option String → Option String
unfolding strip_text
clean_cell none = none
clean_cell (some value) = or_none (strip_text value)

-- A row by its columns, which are taken to differ.
abbrev pub row_of : List String → List String → Dict String String
row_of [] cells = []
row_of (column ∷ columns) [] = []
row_of (column ∷ columns) (cell ∷ cells) = (column, cell) ∷ row_of columns cells

abbrev pub add_field : String → Option String → Dict String String → Dict String String
add_field field none payload = payload
add_field field (some value) payload = (field, value) ∷ payload

-- `payload`
unfoldable pub payload_of : Dict String String → Dict String String → Dict String String
unfolding clean_cell get
payload_of [] row = []
payload_of ((column, field) ∷ field_map) row =
    add_field field (clean_cell (get row column)) (payload_of field_map row)

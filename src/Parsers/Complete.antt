-- ===== src/Parsers/Complete.antt =====
-- What `validate_rows` promises (src/reconcile/parsers/base.py).
use mathlib.Core.List.{mem-cons_self, mem-cons_of_mem}
use mathlib.Core.Path.{subst}
use retail_reconciliation_ag.Prelude.{
  ℕ, suc, ◌+◌, String, List, [], ◌∷◌, ◌++◌, map, length, false, Mem, All, All-imp, sym, ◌≡◌, ◌↔◌,
  refl, arith, Bool-cases, inl, inr, ap, text, repr, or_else, some,
}
use retail_reconciliation_ag.Prelude.Dict.{Dict}
use retail_reconciliation_ag.Parsers.Base.{parsed, parse_error, Frame}
use retail_reconciliation_ag.Parsers.Rows.{
  Issue, Validated, valid, invalid, crashed, error_line, Rows, collected, broke_off, add_row,
  validate_from, finish_rows, is_empty, payloads_of, validate_rows,
}

-- The line of an error, with the number that the row has in the spreadsheet.
line_lem :
    (position : ℕ) (issue : Issue)
    → error_line position issue
      ≡ text (
          "row "
          ∷ repr (position + 2)
          ∷ ": "
          ∷ or_else (some issue.location) "row"
          ∷ ": "
          ∷ issue.message
          ∷ [])
unfolding error_line
line_lem position issue = refl

abbrev errors_of : {A : Type 0} → Rows A → List String
errors_of (collected rows errors) = errors
errors_of broke_off = []

mem_right : {a : String} (xs ys : List String) → Mem a ys → Mem a (xs ++ ys)
mem_right [] ys m = m
mem_right (x ∷ xs) ys m = mem-cons_of_mem x (mem_right xs ys m)

All-mapped :
    (f : Issue → String) (is : List Issue) (es : List String)
    → All (λ i. Mem (f i) (map f is ++ es)) is
All-mapped f [] es = tt
All-mapped f (i ∷ is) es =
    (mem-cons_self, All-imp _ _ (λ j m. mem-cons_of_mem (f i) m) is (All-mapped f is es))

module _ {A : Type 0} (validate : Dict String String → Validated A) where
  -- What a row that is collected says of the rest.
  add_row-parsed :
      (n : ℕ) (v : Validated A) (rest : Rows A) (xs : List A)
      → add_row n v rest ≡ collected xs []
      → (y : A) × (ys : List A) × (v ≡ valid y) × (rest ≡ collected ys []) × (xs ≡ y ∷ ys)
  add_row-parsed n (valid a) (collected rows errors) xs h =
      (a, rows, refl, ground arith, ground arith)
  add_row-parsed n (invalid i is) (collected rows errors) xs h = absurd (ground arith)
  add_row-parsed n crashed (collected rows errors) xs h = absurd (ground arith)
  add_row-parsed n (valid a) broke_off xs h = absurd (ground arith)
  add_row-parsed n (invalid i is) broke_off xs h = absurd (ground arith)
  add_row-parsed n crashed broke_off xs h = absurd (ground arith)

  validate_from-valid :
      (n : ℕ) (payloads : List (Dict String String)) (xs : List A)
      → map validate payloads ≡ map valid xs
      → validate_from validate n payloads ≡ collected xs []
  unfolding validate_from
  validate_from-valid n [] [] h = refl
  validate_from-valid n [] (x ∷ xs) h = absurd (ground arith)
  validate_from-valid n (p ∷ ps) [] h = absurd (ground arith)
  validate_from-valid n (p ∷ ps) (x ∷ xs) h =
      let head : validate p ≡ valid x = ground arith in
      let tail : map validate ps ≡ map valid xs = ground arith in
      rw (head, validate_from-valid (suc n) ps xs tail) refl

  validate_from-parsed :
      (n : ℕ) (payloads : List (Dict String String)) (xs : List A)
      → validate_from validate n payloads ≡ collected xs []
      → map validate payloads ≡ map valid xs
  unfolding validate_from
  validate_from-parsed n [] xs h = ground arith
  validate_from-parsed n (p ∷ ps) xs h =
      let (y, ys, head, tail, same) =
        add_row-parsed n (validate p) (validate_from validate (suc n) ps) xs h in
      let ih : map validate ps ≡ map valid ys = validate_from-parsed (suc n) ps ys tail in
      rw (same, head, ih) refl

  -- What a row adds to the errors of the rest.
  add_row-errors :
      (n : ℕ) (v : Validated A) (rest : Rows A) (xs : List A) (errors : List String)
      → add_row n v rest ≡ collected xs errors
      → (own : List String) × (ys : List A) × (es : List String) × (rest ≡ collected ys es)
        × (errors ≡ own ++ es)
  add_row-errors n (valid a) (collected rows es) xs errors h = ([], rows, es, refl, ground arith)
  add_row-errors n (invalid i is) (collected rows es) xs errors h =
      (map (error_line n) (i ∷ is), rows, es, refl, sym (ap errors_of h))
  add_row-errors n crashed (collected rows es) xs errors h = absurd (ground arith)
  add_row-errors n (valid a) broke_off xs errors h = absurd (ground arith)
  add_row-errors n (invalid i is) broke_off xs errors h = absurd (ground arith)
  add_row-errors n crashed broke_off xs errors h = absurd (ground arith)

  add_row-own :
      (n : ℕ) (i : Issue) (is : List Issue) (rest : Rows A) (xs : List A) (errors : List String)
      → add_row n (invalid i is) rest ≡ collected xs errors
      → All (λ issue. Mem (error_line n issue) errors) (i ∷ is)
  add_row-own n i is (collected rows es) xs errors h =
      subst (λ lines. All (λ issue. Mem (error_line n issue) lines) (i ∷ is)) (ap errors_of h)
        (All-mapped (error_line n) (i ∷ is) es)
  add_row-own n i is broke_off xs errors h = absurd (ground arith)

  -- The lines of each row that is not valid are there.
  validate_from-lines :
      (n : ℕ) (before after : List (Dict String String)) (p : Dict String String)
      → (i : Issue) (is : List Issue) (xs : List A) (errors : List String) (position : ℕ)
      → position ≡ length before + n
      → validate p ≡ invalid i is
      → validate_from validate n (before ++ p ∷ after) ≡ collected xs errors
      → All (λ issue. Mem (error_line position issue) errors) (i ∷ is)
  unfolding validate_from
  validate_from-lines n [] after p i is xs errors position at h e =
      let here : position ≡ n = omega arith in
      subst (λ k. All (λ issue. Mem (error_line k issue) errors) (i ∷ is)) (sym here)
        (add_row-own n i is _ xs errors (rw h at e))
  validate_from-lines n (q ∷ before) after p i is xs errors position at h e =
      let (own, ys, es, rest, same) =
        add_row-errors n (validate q) (validate_from validate (suc n) (before ++ p ∷ after)) xs
          errors e in
      let found =
        validate_from-lines (suc n) before after p i is ys es position (omega arith) h rest in
      subst (λ lines. All (λ issue. Mem (error_line position issue) lines) (i ∷ is)) (sym same)
        (All-imp _ _ (λ issue m. mem_right own es m) (i ∷ is) found)

module _ {A : Type 0} (validate : Dict String String → Validated A) (frame : Frame)
    (file_label : String) (field_map : Dict String String) where
  finish_rows-parsed :
      (rows : Rows A) (xs : List A)
      → finish_rows file_label rows ≡ parsed xs
      → rows ≡ collected xs []
  unfolding finish_rows
  finish_rows-parsed (collected ys []) xs h = ground arith
  finish_rows-parsed (collected ys (e ∷ errors)) xs h = absurd (ground arith)
  finish_rows-parsed broke_off xs h = absurd (ground arith)

  finish_rows-errors :
      (rows : Rows A) (message : String) (errors : List String)
      → finish_rows file_label rows ≡ parse_error message errors
      → (xs : List A) × (rows ≡ collected xs errors)
  unfolding finish_rows
  finish_rows-errors (collected ys []) message errors h = absurd (ground arith)
  finish_rows-errors (collected ys (e ∷ es)) message errors h = (ys, ground arith)
  finish_rows-errors broke_off message errors h = absurd (ground arith)

  -- `validate_rows` returns instances exactly where the table is not empty and every row is valid; they
  -- are then those of all rows, in the order of the rows.
  pub validate_rows-parsed :
      (xs : List A)
      → (validate_rows frame validate file_label field_map ≡ parsed xs)
        ↔ ((is_empty frame ≡ false) × (map validate (payloads_of field_map frame) ≡ map valid xs))
  unfolding validate_rows
  validate_rows-parsed xs = elim (Bool-cases (is_empty frame)) [
    | inl nothing ↦ rw nothing ((λ h. absurd (ground arith)), (λ h. absurd (ground arith)))
    | inr filled ↦ rw filled (
      (λ h. (refl, validate_from-parsed validate 0 _ xs (finish_rows-parsed _ xs h))),
      (λ h.
          rw (validate_from-valid validate 0 (payloads_of field_map frame) xs h.1)
            (unfold finish_rows in refl)),
    )
  ]

  -- Where `validate_rows` raises `ParseError` for a table that is not empty, its errors have a line for
  -- every error of every row: the number that the row has in the spreadsheet, 2 for the first row, the
  -- field or else the word row, and the message.
  pub validate_rows-reports :
      (message : String) (errors : List String) (before after : List (Dict String String))
      → (payload : Dict String String) (i : Issue) (is : List Issue) → is_empty frame ≡ false
      → payloads_of field_map frame ≡ before ++ payload ∷ after
      → validate payload ≡ invalid i is
      → validate_rows frame validate file_label field_map ≡ parse_error message errors
      → All
          (λ issue.
            Mem
              (text (
                "row "
                ∷ repr (length before + 2)
                ∷ ": "
                ∷ or_else (some issue.location) "row"
                ∷ ": "
                ∷ issue.message
                ∷ []))
              errors)
          (i ∷ is)
  unfolding validate_rows
  validate_rows-reports message errors before after payload i is filled split failing raises =
      let (xs, rows) = finish_rows-errors _ message errors (rw (filled, split) at raises) in
      All-imp _ _ (λ issue m. subst (λ line. Mem line errors) (line_lem (length before) issue) m)
        (i ∷ is)
        (validate_from-lines validate 0 before after payload i is xs errors (length before)
          (omega arith) failing rows)

-- ===== src/Statement/RoundTrip.antt =====
-- What is written as CSV is read back.
use stead.Prelude.{
  ◌≡◌, refl, sym, ap, ◌∙◌, Bool, true, false, not, ◌&&◌, some_eq, List, [], ◌∷◌, ◌++◌, any, filter,
  map, if◌then◌else◌, Result, ok, ◌>>=◌, arith,
}
use stead.Statement.Text.{Text, is_empty, trim, join}
use stead.Statement.Csv.{
  quote, comma, newline, Scanner, initial, step, first, no_fields, run, is_blank, parse_csv_records,
  is_special, double_quotes, csv_escape, to_csv,
}
use mathlib.Core.List.{append_assoc, append-nil}

-- At the start of a field, in an open quote, and behind the field `f`.
abbrev at_field : List (List Text) → List Text → Scanner
at_field rs fs = record initial { records = rs; fields = fs }

abbrev in_quote : List (List Text) → List Text → Text → Scanner
in_quote rs fs a = record (at_field rs fs) { field = a; quoted = true }

abbrev in_plain : List (List Text) → List Text → Text → Scanner
in_plain rs fs a = record (at_field rs fs) { field = a }

abbrev behind : List (List Text) → List Text → Text → Scanner
behind rs fs f = record (at_field rs fs) { field = f; closed_quote = any is_special f }

abbrev unquoted : Text → Bool
unquoted rest = not (some_eq (first rest) quote)

-- The body of a quoted field, up to the closing quote.
run-double_quotes :
    (rs : List (List Text)) (fs : List Text) (a f rest : Text)
    → unquoted rest ≡ true
    → run (in_quote rs fs a) (double_quotes f ++ (quote ∷ rest))
      ≡ run (record (at_field rs fs) { field = a ++ f; closed_quote = true }) rest
unfolding run double_quotes step
run-double_quotes rs fs a [] rest h = simp append-nil (ground arith)
run-double_quotes rs fs a (c ∷ f) rest h =
    ground (arith, run-double_quotes rs fs (a ++ (c ∷ [])) f rest h, append_assoc a (c ∷ []) f)

-- A field that needs no quotes.
run-plain :
    (rs : List (List Text)) (fs : List Text) (a f rest : Text)
    → any is_special f ≡ false
    → run (in_plain rs fs a) (f ++ rest) ≡ run (in_plain rs fs (a ++ f)) rest
unfolding run step
run-plain rs fs a [] rest h = rw append-nil
run-plain rs fs a (c ∷ f) rest h =
    ground (arith, run-plain rs fs (a ++ (c ∷ [])) f rest, append_assoc a (c ∷ []) f)

run-csv_escape :
    (rs : List (List Text)) (fs : List Text) (f rest : Text)
    → unquoted rest ≡ true
    → run (at_field rs fs) (csv_escape f ++ rest) ≡ run (behind rs fs f) rest
unfolding run step csv_escape
run-csv_escape rs fs f rest h = ground (
  arith,
  run-plain rs fs [] f rest,
  run-double_quotes rs fs [] f rest h,
  append_assoc (quote ∷ double_quotes f) (quote ∷ []) rest,
)

end_of_line :
    (rs : List (List Text)) (fs : List Text) (f rest : Text)
    → run (behind rs fs f) (newline ∷ rest) ≡ run (at_field (rs ++ ((fs ++ (f ∷ [])) ∷ [])) []) rest
unfolding run step
end_of_line rs fs f rest = ground arith

end_of_field :
    (rs : List (List Text)) (fs : List Text) (f rest : Text)
    → run (behind rs fs f) (comma ∷ rest) ≡ run (at_field rs (fs ++ (f ∷ []))) rest
unfolding run step
end_of_field rs fs f rest = ground arith

run-line :
    (rs : List (List Text)) (fs : List Text) (f : Text) (gs : List Text) (rest : Text)
    → run (at_field rs fs) (join comma (map csv_escape (f ∷ gs)) ++ (newline ∷ rest))
      ≡ run (at_field (rs ++ ((fs ++ (f ∷ gs)) ∷ [])) []) rest
unfolding join
run-line rs fs f [] rest = run-csv_escape rs fs f (newline ∷ rest) refl ∙ end_of_line rs fs f rest
run-line rs fs f (g ∷ gs) rest =
    rw (append_assoc (csv_escape f) (comma ∷ join comma (map csv_escape (g ∷ gs))) (newline ∷ rest))
      (run-csv_escape rs fs f (comma ∷ (join comma (map csv_escape (g ∷ gs)) ++ (newline ∷ rest)))
          refl
        ∙ end_of_field rs fs f (join comma (map csv_escape (g ∷ gs)) ++ (newline ∷ rest))
        ∙ run-line rs (fs ++ (f ∷ [])) g gs rest
        ∙ ap (λ r. run (at_field (rs ++ (r ∷ [])) []) rest) (append_assoc fs (f ∷ []) (g ∷ gs)))

end_of_text :
    (rs : List (List Text)) (fs : List Text) (f : Text)
    → run (behind rs fs f) [] ≡ (
        if is_empty f && no_fields fs && no_fields []
        then ok rs
        else ok (rs ++ ((fs ++ (f ∷ [])) ∷ [])))
unfolding run
end_of_text rs fs f = ground arith

snoc : (fs : List Text) (f : Text) → no_fields (fs ++ (f ∷ [])) ≡ false
snoc [] f = refl
snoc (g ∷ fs) f = refl

run-last :
    (rs : List (List Text)) (fs : List Text) (f : Text) (gs : List Text)
    → run (at_field rs fs) (join comma (map csv_escape (f ∷ gs))) ≡ (
        if is_empty f && no_fields fs && no_fields gs
        then ok rs
        else ok (rs ++ ((fs ++ (f ∷ gs)) ∷ [])))
unfolding join
run-last rs fs f [] =
    ap (run (at_field rs fs)) (sym (append-nil (csv_escape f)))
    ∙ run-csv_escape rs fs f [] refl
    ∙ end_of_text rs fs f
run-last rs fs f (g ∷ gs) =
    run-csv_escape rs fs f (comma ∷ join comma (map csv_escape (g ∷ gs))) refl
    ∙ end_of_field rs fs f (join comma (map csv_escape (g ∷ gs)))
    ∙ run-last rs (fs ++ (f ∷ [])) g gs
    ∙ ground (arith, append_assoc fs (f ∷ []) (g ∷ gs), snoc fs f)

-- A record without fields is written like one with an empty field.
line_of : List Text → Text
line_of fields = join comma (map csv_escape fields)

-- What the parser makes of a written record is the record, or blank as the record is.
kept : List (List Text) → List (List Text)
kept rs = filter (λ r. not (is_blank r)) rs

kept_result : Result (List (List Text)) → Result (List (List Text))
kept_result r = do rs ← r; ok (kept rs)

kept-append : (rs ts : List (List Text)) → kept (rs ++ ts) ≡ kept rs ++ kept ts
unfolding kept
kept-append [] ts = refl
kept-append (r ∷ rs) ts = ground (arith, kept-append rs ts)

blank_record :
    (done : List (List Text)) (r : List Text) (ts : List (List Text))
    → is_blank r ≡ true
    → kept (done ++ (r ∷ ts)) ≡ kept (done ++ ts)
unfolding kept
blank_record [] r ts h = ground arith
blank_record (d ∷ done) r ts h = ground (arith, blank_record done r ts h)

nothing_left :
    (done : List (List Text)) → kept_result (run (at_field done []) []) ≡ ok (kept (done ++ []))
unfolding run kept_result
nothing_left done = rw append-nil refl

same_blank :
    (done ts : List (List Text)) → kept (done ++ (([] ∷ []) ∷ ts)) ≡ kept (done ++ ([] ∷ ts))
unfolding trim
same_blank done ts = blank_record done ([] ∷ []) ts refl ∙ sym (blank_record done [] ts refl)

last_record :
    (done : List (List Text)) (f : Text) (gs : List Text)
    → run (at_field done []) (line_of (f ∷ gs)) ≡ (
        if is_empty f && no_fields [] && no_fields gs
        then ok done
        else ok (done ++ (([] ++ (f ∷ gs)) ∷ [])))
    → kept_result (run (at_field done []) (line_of (f ∷ gs))) ≡ ok (kept (done ++ ((f ∷ gs) ∷ [])))
unfolding kept_result trim
last_record done [] [] e =
    ap kept_result e
    ∙ ap ok (ap kept (sym (append-nil done)) ∙ sym (blank_record done ([] ∷ []) [] refl))
last_record done [] (g ∷ gs) e = ap kept_result e
last_record done (c ∷ f) gs e = ap kept_result e

-- What the parser keeps of the records that are written.
reads_back :
    (done records : List (List Text))
    → kept_result (run (at_field done []) (to_csv records)) ≡ ok (kept (done ++ records))
unfolding to_csv join kept_result line_of
reads_back done [] = nothing_left done
reads_back done ([] ∷ []) = nothing_left done ∙ ap ok (sym (blank_record done [] [] refl))
reads_back done ((f ∷ gs) ∷ []) = last_record done f gs (run-last done [] f gs)
reads_back done ([] ∷ t ∷ rest) =
    ap kept_result (end_of_line done [] [] (to_csv (t ∷ rest)))
    ∙ reads_back (done ++ (([] ∷ []) ∷ [])) (t ∷ rest)
    ∙ ap ok (rw (append_assoc done (([] ∷ []) ∷ []) (t ∷ rest)) (same_blank done (t ∷ rest)))
reads_back done ((f ∷ gs) ∷ t ∷ rest) =
    ap kept_result (run-line done [] f gs (to_csv (t ∷ rest)))
    ∙ reads_back (done ++ ((f ∷ gs) ∷ [])) (t ∷ rest)
    ∙ ap (λ rs. ok (kept rs)) (append_assoc done ((f ∷ gs) ∷ []) (t ∷ rest))

-- What is written as CSV is read back, whatever characters the fields hold, but for the records in
-- which every field is blank.
pub parse_csv_records-to_csv :
    (records : List (List Text))
    → parse_csv_records (to_csv records) ≡ ok (filter (λ r. not (is_blank r)) records)
unfolding parse_csv_records kept_result kept
parse_csv_records-to_csv records = reads_back [] records

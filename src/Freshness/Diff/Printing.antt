-- ===== src/Freshness/Diff/Printing.antt =====
-- The printed form of changes and its parser in backend/freshness/diff.py.
use Prim.Native.Char.{Char, code}
use vectural.Prelude.{
  ◌≡◌, refl, ap, ◌∙◌, Bool, true, false, not, ◌&&◌, ◌||◌, String, none, some, List, [], ◌∷◌, ◌++◌,
  if◌then◌else◌, All, arith, leb, nat_beq,
}
use vectural.Prelude.Text.{strip, is_space, strip-nonempty, strip-first}
use vectural.Freshness.Diff.{
  added, modified, deleted, renamed, FileChange, is_break, is_tab, add_char, split_on, of_fields,
  of_line, of_lines, parse_name_status, letter_of, letter_at, change_of,
}

infixr 60 ◌+++◌
-- one text after the other
abbrev pub ◌+++◌ : String → String → String
String.[] +++ t = t
(String.◌∷◌ c s) +++ t = String.◌∷◌ c (s +++ t)

-- A character that git prints as it is; it quotes a path with any other, or with a quotation mark or
-- a backslash.
abbrev is_unquoted : Char → Bool
is_unquoted c =
    leb 32 (code c) && leb (code c) 126 && not (nat_beq (code c) 34) && not (nat_beq (code c) 92)

-- a path that git does not quote
abbrev is_clean : String → Bool
is_clean String.[] = true
is_clean (String.◌∷◌ c s) = is_unquoted c && is_clean s

abbrev newline : Char
newline = "\n"

abbrev tab : Char
tab = "\t"

abbrev is_score : String → Bool
is_score String.[] = true
is_score (String.◌∷◌ c s) = leb 48 (code c) && leb (code c) 57 && is_score s

-- A line of `git diff --name-status`: a letter and a path, or a letter with the score of similarity
-- and two paths. The other letters are T, U and X.
pub data GitChange : Type 0 where
  git_added git_modified git_deleted : String → GitChange
  git_renamed git_copied : String → String → String → GitChange
  git_other : Char → String → GitChange

line_of_one : Char → String → String
line_of_one c path = String.◌∷◌ c (String.◌∷◌ tab path)

line_of_two : Char → String → String → String → String
line_of_two c score old path = String.◌∷◌ c (score +++ String.◌∷◌ tab (old +++ String.◌∷◌ tab path))

unfoldable pub print_change : GitChange → String
unfolding line_of_one line_of_two
print_change (git_added path) = line_of_one "A" path
print_change (git_modified path) = line_of_one "M" path
print_change (git_deleted path) = line_of_one "D" path
print_change (git_renamed score old path) = line_of_two "R" score old path
print_change (git_copied score old path) = line_of_two "C" score old path
print_change (git_other c path) = line_of_one c path

abbrev pub is_printable : GitChange → Bool
is_printable (git_added path) = is_clean path
is_printable (git_modified path) = is_clean path
is_printable (git_deleted path) = is_clean path
is_printable (git_renamed score old path) = is_score score && (is_clean old && is_clean path)
is_printable (git_copied score old path) = is_score score && (is_clean old && is_clean path)
is_printable (git_other c path) =
    (nat_beq (code c) 84 || nat_beq (code c) 85 || nat_beq (code c) 88) && is_clean path

-- What a line means: a copy stands as a rename, and the other letters are skipped.
abbrev pub meaning : GitChange → List FileChange
meaning (git_added path) = record { status = added; path = path; old_path = none } ∷ []
meaning (git_modified path) = record { status = modified; path = path; old_path = none } ∷ []
meaning (git_deleted path) = record { status = deleted; path = path; old_path = none } ∷ []
meaning (git_renamed score old path) =
    record { status = renamed; path = path; old_path = some old } ∷ []
meaning (git_copied score old path) =
    record { status = renamed; path = path; old_path = some old } ∷ []
meaning (git_other c path) = []

abbrev pub meanings : List GitChange → List FileChange
meanings [] = []
meanings (c ∷ cs) = meaning c ++ meanings cs

unfoldable pub print_changes : List GitChange → String
unfolding print_change
print_changes [] = ""
print_changes (c ∷ cs) = print_change c +++ String.◌∷◌ newline (print_changes cs)

-- a text without separators is one part
no_sep : (Char → Bool) → String → Bool
no_sep sep String.[] = true
no_sep sep (String.◌∷◌ c s) = not (sep c) && no_sep sep s

split-one : (sep : Char → Bool) (s : String) → no_sep sep s ≡ true → split_on sep s ≡ s ∷ []
unfolding split_on add_char no_sep
split-one sep String.[] h = refl
split-one sep (String.◌∷◌ c s) h = ground (arith, h, split-one sep s)

split-sep :
    (sep : Char → Bool) (s t : String) (c : Char)
    → no_sep sep s ≡ true
    → sep c ≡ true
    → split_on sep (s +++ String.◌∷◌ c t) ≡ s ∷ split_on sep t
unfolding split_on add_char no_sep
split-sep sep String.[] t c h e = ground (arith, e)
split-sep sep (String.◌∷◌ d s) t c h e = ground (arith, h, split-sep sep s t c)

clean_breaks : (s : String) → is_clean s ≡ true → no_sep is_break s ≡ true
unfolding no_sep is_break
clean_breaks String.[] h = refl
clean_breaks (String.◌∷◌ c s) h = ground (arith, h, clean_breaks s)

clean_tabs : (s : String) → is_clean s ≡ true → no_sep is_tab s ≡ true
unfolding no_sep is_tab
clean_tabs String.[] h = refl
clean_tabs (String.◌∷◌ c s) h = ground (arith, h, clean_tabs s)

no_sep-append :
    (sep : Char → Bool) (s t : String) → no_sep sep (s +++ t) ≡ (no_sep sep s && no_sep sep t)
unfolding no_sep
no_sep-append sep String.[] t = refl
no_sep-append sep (String.◌∷◌ c s) t = ground (arith, no_sep-append sep s t)

score_unbroken : (s : String) → is_score s ≡ true → no_sep is_break s ≡ true
unfolding no_sep is_break
score_unbroken String.[] h = refl
score_unbroken (String.◌∷◌ c s) h = ground (arith, h, score_unbroken s)

score_untabbed : (s : String) → is_score s ≡ true → no_sep is_tab s ≡ true
unfolding no_sep is_tab
score_untabbed String.[] h = refl
score_untabbed (String.◌∷◌ c s) h = ground (arith, h, score_untabbed s)

not_blank :
    (c : Char) (s : String)
    → is_space c ≡ false
    → of_line (String.◌∷◌ c s) ≡ of_fields (split_on is_tab (String.◌∷◌ c s))
unfolding of_line
not_blank c s h = rw (strip-nonempty c s h, if◌then◌else◌) refl

is_tab-tab : is_tab tab ≡ true
unfolding is_tab
is_tab-tab = refl

-- the letter of a first field
letter_back :
    (c : Char) (s : String)
    → is_space c ≡ false
    → letter_of (strip (String.◌∷◌ c s)) ≡ letter_at (code c)
unfolding letter_of
letter_back c s h = ap letter_of (strip-first c s h).1

-- A line of one path.
one_path :
    (c : Char) (path : String)
    → is_space c ≡ false
    → is_tab c ≡ false
    → is_clean path ≡ true
    → of_line (line_of_one c path) ≡ change_of (letter_at (code c)) (path ∷ [])
unfolding line_of_one of_fields
one_path c path shown own clean =
    let first = String.◌∷◌ c String.[] in
    let alone : no_sep is_tab first ≡ true = unfold no_sep in ground (arith, own) in
    not_blank c (String.◌∷◌ tab path) shown
    ∙ ap of_fields (
        split-sep is_tab first path tab alone is_tab-tab
        ∙ ap (λ ss. first ∷ ss) (split-one is_tab path (clean_tabs path clean)))
    ∙ ap (λ l. change_of l (path ∷ [])) (letter_back c String.[] shown)

-- A line of two.
two_paths :
    (c : Char) (score old path : String)
    → is_space c ≡ false
    → is_tab c ≡ false
    → is_score score ≡ true
    → is_clean old ≡ true
    → is_clean path ≡ true
    → of_line (line_of_two c score old path) ≡ change_of (letter_at (code c)) (old ∷ path ∷ [])
unfolding line_of_two of_fields
two_paths c score old path shown own scored clean_old clean =
    let first = String.◌∷◌ c score in
    let alone : no_sep is_tab first ≡ true =
      unfold no_sep in ground (arith, own, score_untabbed score scored) in
    not_blank c (score +++ String.◌∷◌ tab (old +++ String.◌∷◌ tab path)) shown
    ∙ ap of_fields (
        split-sep is_tab first (old +++ String.◌∷◌ tab path) tab alone is_tab-tab
        ∙ ap (λ ss. first ∷ ss)
            (split-sep is_tab old path tab (clean_tabs old clean_old) is_tab-tab
              ∙ ap (λ ss. old ∷ ss) (split-one is_tab path (clean_tabs path clean))))
    ∙ ap (λ l. change_of l (old ∷ path ∷ [])) (letter_back c score shown)

line_back : (c : GitChange) → is_printable c ≡ true → of_line (print_change c) ≡ meaning c
unfolding print_change is_space is_tab change_of letter_at
line_back (git_added path) h = one_path "A" path refl refl h
line_back (git_modified path) h = one_path "M" path refl refl h
line_back (git_deleted path) h = one_path "D" path refl refl h
line_back (git_renamed score old path) h =
    two_paths "R" score old path refl refl (ground (arith, h)) (ground (arith, h))
      (ground (arith, h))
line_back (git_copied score old path) h =
    two_paths "C" score old path refl refl (ground (arith, h)) (ground (arith, h))
      (ground (arith, h))
line_back (git_other c path) h =
    one_path c path (ground (arith, h)) (ground (arith, h)) (ground (arith, h)) ∙ ground (arith, h)

one_unbroken :
    (c : Char) (path : String)
    → is_break c ≡ false
    → is_clean path ≡ true
    → no_sep is_break (line_of_one c path) ≡ true
unfolding line_of_one no_sep
one_unbroken c path own clean =
    let rest = clean_breaks path clean in unfold is_break in ground (arith, own, rest)

two_unbroken :
    (c : Char) (score old path : String)
    → is_break c ≡ false
    → is_score score ≡ true
    → is_clean old ≡ true
    → is_clean path ≡ true
    → no_sep is_break (line_of_two c score old path) ≡ true
unfolding line_of_two no_sep
two_unbroken c score old path own scored clean_old clean =
    let whole = no_sep-append is_break score (String.◌∷◌ tab (old +++ String.◌∷◌ tab path)) in
    let paths = no_sep-append is_break old (String.◌∷◌ tab path) in
    let a = score_unbroken score scored in
    let b = clean_breaks old clean_old in
    let d = clean_breaks path clean in unfold is_break in ground (arith, own, whole, paths, a, b, d)

line_unbroken : (c : GitChange) → is_printable c ≡ true → no_sep is_break (print_change c) ≡ true
unfolding print_change is_break
line_unbroken (git_added path) h = one_unbroken "A" path refl h
line_unbroken (git_modified path) h = one_unbroken "M" path refl h
line_unbroken (git_deleted path) h = one_unbroken "D" path refl h
line_unbroken (git_renamed score old path) h =
    two_unbroken "R" score old path refl (ground (arith, h)) (ground (arith, h)) (ground (arith, h))
line_unbroken (git_copied score old path) h =
    two_unbroken "C" score old path refl (ground (arith, h)) (ground (arith, h)) (ground (arith, h))
line_unbroken (git_other c path) h = one_unbroken c path (ground (arith, h)) (ground (arith, h))

-- Parsing lines of the documented form, whose paths have only characters that git prints unquoted and
-- whose scores are digits, gives what each line means, in order: an addition, a modification or a
-- deletion its path, a rename or a copy, whatever its score, a rename with both paths, and the
-- letters T, U and X nothing.
pub parse-print :
    (cs : List GitChange)
    → All (λ c. is_printable c ≡ true) cs
    → parse_name_status (print_changes cs) ≡ meanings cs
unfolding parse_name_status print_changes of_lines of_line split_on strip is_break
parse-print [] h = refl
parse-print (c ∷ cs) h =
    ap of_lines
      (split-sep is_break (print_change c) (print_changes cs) newline (line_unbroken c h.0) refl)
    ∙ ap (λ l. l ++ of_lines (split_on is_break (print_changes cs))) (line_back c h.0)
    ∙ ap (λ l. meaning c ++ l) (parse-print cs h.1)

-- ===== src/Freshness/Diff.antt =====
-- backend/freshness/diff.py: the lines of `git diff --name-status`. `str.splitlines` also ends a line
-- at a "\r\n" once, here twice, which adds an empty line, and empty lines are skipped.
pub mod Printing
use Prim.Native.Char.{Char, code}
use vectural.Prelude.{
  ℕ, Bool, true, false, ◌||◌, ◌&&◌, String, Option, none, some, List, [], ◌∷◌, ◌++◌, string_key,
  ◌==◌, nat_beq, leb, if◌then◌else◌,
}
use vectural.Prelude.Text.{strip}

pub data ChangeStatus : Type 0 where
  added modified deleted renamed : ChangeStatus

pub record FileChange : Type 0 where
  pub status : ChangeStatus
  pub path : String
  pub old_path : Option String

-- the line boundaries of `str.splitlines`
unfoldable pub is_break : Char → Bool
is_break c =
    leb 10 (code c) && leb (code c) 13
    || leb 28 (code c) && leb (code c) 30
    || nat_beq (code c) 133
    || nat_beq (code c) 8232
    || nat_beq (code c) 8233

unfoldable pub is_tab : Char → Bool
is_tab c = nat_beq (code c) 9

add_char : Char → List String → List String
add_char c [] = String.◌∷◌ c String.[] ∷ []
add_char c (s ∷ ss) = String.◌∷◌ c s ∷ ss

-- `s.split(sep)`, for separators of one character
unfoldable pub split_on : (Char → Bool) → String → List String
unfolding add_char
split_on sep String.[] = String.[] ∷ []
split_on sep (String.◌∷◌ c s) =
    let rest = split_on sep s in if sep c then String.[] ∷ rest else add_char c rest

-- `letter`, of a code that is stripped
pub data Letter : Type 0 where
  moves : Letter
  plain : ChangeStatus → Letter
  unknown : Letter

letter_at : ℕ → Letter
letter_at n =
    if nat_beq n 82 || nat_beq n 114 || nat_beq n 67 || nat_beq n 99
    then moves
    else if nat_beq n 65 || nat_beq n 97
    then plain added
    else if nat_beq n 77 || nat_beq n 109
    then plain modified
    else if nat_beq n 68 || nat_beq n 100
    then plain deleted
    else unknown

unfoldable pub letter_of : String → Letter
unfolding letter_at
letter_of String.[] = unknown
letter_of (String.◌∷◌ c s) = letter_at (code c)

-- The change of one line, by its letter and the fields after the first: renames and copies want two
-- paths, the others one.
unfoldable pub change_of : Letter → List String → List FileChange
change_of moves (old ∷ new ∷ rest) =
    record { status = renamed; path = new; old_path = some old } ∷ []
change_of (plain status) (path ∷ rest) =
    record { status = status; path = path; old_path = none } ∷ []
change_of _ _ = []

of_fields : List String → List FileChange
unfolding letter_of change_of
of_fields [] = []
of_fields (first ∷ fields) = change_of (letter_of (strip first)) fields

unfoldable pub of_line : String → List FileChange
unfolding of_fields
of_line line = if strip line == "" then [] else of_fields (split_on is_tab line)

of_lines : List String → List FileChange
unfolding of_line
of_lines [] = []
of_lines (line ∷ lines) = of_line line ++ of_lines lines

unfoldable pub parse_name_status : String → List FileChange
unfolding of_lines
parse_name_status output = of_lines (split_on is_break output)

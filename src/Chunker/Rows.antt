-- ===== src/Chunker/Rows.antt =====
-- backend/ingestion/chunker.py: the drafts in row space, and the rows that no definition covers.
-- A run of rows is a first row and a number of rows, so that "empty" needs no row -1.
pub mod Windows
pub mod Residue
use vectural.Prelude.{
  ℕ, zero, suc, ◌+◌, ◌-◌, Bool, true, false, not, ◌&&◌, ◌||◌, String, Option, none, some, List, [],
  ◌∷◌, ◌++◌, map, length, get_elem?, some_of, all_of, leb, ltb, nat_beq, if◌then◌else◌,
}

pub data ChunkKind : Type 0 where
  function class method module_kind : ChunkKind

-- `_Def`; `end_row` is inclusive
pub record Def : Type 0 where
  pub kind : ChunkKind
  pub start_row : ℕ
  pub end_row : ℕ
  pub symbol : Option String
  pub identifiers : List String

abbrev pub Span : Type 0
Span = ℕ × ℕ

abbrev pub span_of : Def → Span
span_of d = (d.start_row, d.end_row)

-- A line is its bytes; `bytes.strip` takes off ASCII white space.
abbrev pub Line : Type 0
Line = List ℕ

abbrev is_space_byte : ℕ → Bool
is_space_byte b = leb 9 b && leb b 13 || nat_beq b 32

blank_line : Option Line → Bool
blank_line none = true
blank_line (some line) = all_of is_space_byte line

-- `not lines[row].strip()`
unfoldable pub is_blank : List Line → ℕ → Bool
unfolding blank_line
is_blank lines row = blank_line (get_elem? lines row)

-- `covered[row]`: some span reaches the row
unfoldable pub is_covered : List Span → ℕ → Bool
is_covered spans row = some_of (λ s. leb s.0 row && leb row s.1) spans

unfoldable pub module_def : ℕ → ℕ → Def
module_def start_row end_row = record {
  kind = module_kind;
  start_row = start_row;
  end_row = end_row;
  symbol = none;
  identifiers = [];
}

-- the loop of `_window_module`, over the `count` rows from `row` on
unfoldable pub window_loop : ℕ → ℕ → ℕ → ℕ → List Def
unfolding module_def
window_loop window zero row count = []
window_loop window (suc fuel) row zero = []
window_loop window (suc fuel) row (suc count) =
    let size = if leb window (suc count) then window else suc count in
    module_def row (row + size - 1) ∷ window_loop window fuel (row + size) (suc count - size)

-- `_window_module`, for `count` rows, at least one
unfoldable pub window_module : ℕ → ℕ → ℕ → List Def
unfolding module_def window_loop
window_module start_row count window =
    if nat_beq window 0 || leb count window
    then module_def start_row (start_row + count - 1) ∷ []
    else window_loop window count start_row count

-- the two trimming loops: blank rows go from the front, then from the back
unfoldable pub trim_front : (ℕ → Bool) → ℕ → ℕ → ℕ × ℕ
trim_front blank start zero = (start, zero)
trim_front blank start (suc count) =
    let rest = trim_front blank (start + 1) count in
    if blank start then rest else (start, suc count)

unfoldable pub trim_back : (ℕ → Bool) → ℕ → ℕ → ℕ
trim_back blank start zero = zero
trim_back blank start (suc count) =
    let rest = trim_back blank start count in if blank (start + count) then rest else suc count

-- the trimmed run, windowed; a run of blank rows is dropped
unfoldable pub trimmed_windows : (ℕ → Bool) → ℕ → ℕ → ℕ → List Def
unfolding trim_front trim_back window_module
trimmed_windows blank window start count =
    let (start', count') = trim_front blank start count in
    let count'' = trim_back blank start' count' in
    if nat_beq count'' 0 then [] else window_module start' count'' window

-- how many of the `count` rows from `row` on are uncovered before a covered one
unfoldable pub run_length : (ℕ → Bool) → ℕ → ℕ → ℕ
run_length covered row zero = 0
run_length covered row (suc count) =
    let rest = run_length covered (row + 1) count in if covered row then 0 else suc rest

-- the loop of `_module_residue`, with `count` rows left from `row` on
unfoldable pub residue_loop : (ℕ → Bool) → (ℕ → Bool) → ℕ → ℕ → ℕ → ℕ → List Def
unfolding trimmed_windows run_length
residue_loop covered blank window zero row count = []
residue_loop covered blank window (suc fuel) row zero = []
residue_loop covered blank window (suc fuel) row (suc count) =
    let skip = residue_loop covered blank window fuel (row + 1) count in
    let size = run_length covered row (suc count) in
    let emit =
      trimmed_windows blank window row size
      ++ residue_loop covered blank window fuel (row + size) (suc count - size) in
    if covered row then skip else emit

-- `_module_residue`
unfoldable pub module_residue : List Line → List Def → List Span → ℕ → List Def
unfolding residue_loop
module_residue lines defs container_spans window =
    residue_loop (is_covered (map span_of defs ++ container_spans)) (is_blank lines) window
      (length lines) 0 (length lines)

-- `_whole_file_module`
unfoldable pub whole_file_module : List Line → ℕ → List Def
unfolding trimmed_windows
whole_file_module lines window = trimmed_windows (is_blank lines) window 0 (length lines)

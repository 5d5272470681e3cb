-- ===== src/Chunker/Rows/Residue.antt =====
-- `_module_residue` of backend/ingestion/chunker.py against the rows that no span covers.
use vectural.Prelude.{
  ℕ, zero, suc, ◌+◌, ◌-◌, ◌≤◌, ◌<◌, ◌≡◌, refl, sym, ◌∙◌, ap, Bool, true, false, not, ◌&&◌, List, [],
  ◌∷◌, ◌++◌, map, length, keep, arith, nat_beq, if◌then◌else◌, if_ind, append-nil, append_assoc,
  keep-append, nat_beq_zero,
}
use vectural.Chunker.Rows.{
  Line, Def, Span, span_of, is_blank, is_covered, trim_front, trim_back, trimmed_windows,
  run_length, residue_loop, module_residue, whole_file_module,
}
use vectural.Chunker.Rows.Windows.{
  rows, rows_of, all_rows, rows_cong, rows-append, window_module_tiles,
}

-- The rows that are not blank.
abbrev pub visible : (ℕ → Bool) → List ℕ → List ℕ
visible blank l = keep (λ r. not (blank r)) l

-- The rows that are neither blank nor covered.
abbrev pub bare : (ℕ → Bool) → (ℕ → Bool) → List ℕ → List ℕ
bare covered blank l = keep (λ r. not (blank r) && not (covered r)) l

all_rows-append : (a b : List Def) → all_rows (a ++ b) ≡ all_rows a ++ all_rows b
all_rows-append [] b = refl
all_rows-append (d ∷ a) b =
    ap (λ l. rows_of d ++ l) (all_rows-append a b)
    ∙ sym (append_assoc (rows_of d) (all_rows a) (all_rows b))

visible-trim_front :
    (blank : ℕ → Bool) (start count : ℕ)
    → visible blank (rows (trim_front blank start count).0 (trim_front blank start count).1)
      ≡ visible blank (rows start count)
unfolding trim_front
visible-trim_front blank start zero = refl
visible-trim_front blank start (suc count) =
    if_ind (λ (t : ℕ × ℕ). visible blank (rows t.0 t.1) ≡ visible blank (rows start (suc count)))
      (blank start) (λ e. visible-trim_front blank (start + 1) count ∙ rw e refl) (λ e. refl)

no_row : (blank : ℕ → Bool) (row : ℕ) → blank row ≡ true → visible blank (row ∷ []) ≡ []
no_row blank row e = rw e refl

visible_snoc :
    (blank : ℕ → Bool) (start count : ℕ)
    → blank (start + count) ≡ true
    → visible blank (rows start count) ≡ visible blank (rows start (suc count))
visible_snoc blank start count e = sym (
    ap (visible blank)
      (rows_cong {m = suc count} refl (omega arith) ∙ sym (rows-append start count 1))
    ∙ keep-append (λ r. not (blank r)) (rows start count) (rows (start + count) 1)
    ∙ ap (λ l. visible blank (rows start count) ++ l) (no_row blank (start + count) e)
    ∙ append-nil (visible blank (rows start count)))

visible-trim_back :
    (blank : ℕ → Bool) (start count : ℕ)
    → visible blank (rows start (trim_back blank start count)) ≡ visible blank (rows start count)
unfolding trim_back
visible-trim_back blank start zero = refl
visible-trim_back blank start (suc count) =
    if_ind (λ n. visible blank (rows start n) ≡ visible blank (rows start (suc count)))
      (blank (start + count))
      (λ e. visible-trim_back blank start count ∙ visible_snoc blank start count e) (λ e. refl)

-- Trimming and windowing a run of rows loses none that is not blank.
pub visible-trimmed :
    (blank : ℕ → Bool) (window start count : ℕ)
    → visible blank (all_rows (trimmed_windows blank window start count))
      ≡ visible blank (rows start count)
unfolding trimmed_windows
visible-trimmed blank window start count =
    let start' = (trim_front blank start count).0 in
    let count' = (trim_front blank start count).1 in
    let count'' = trim_back blank start' count' in
    let same = visible-trim_back blank start' count' ∙ visible-trim_front blank start count in
    if_ind (λ ds. visible blank (all_rows ds) ≡ visible blank (rows start count))
      (nat_beq count'' 0)
      (λ e. ap (λ n. visible blank (rows start' n)) (sym (nat_beq_zero count'' e)) ∙ same)
      (λ e. ap (visible blank) (window_module_tiles start' count'' window (ground arith)) ∙ same)

run_length-bounds : (covered : ℕ → Bool) (row count : ℕ) → run_length covered row count ≤ count
unfolding run_length
run_length-bounds covered row zero = omega arith
run_length-bounds covered row (suc count) =
    ground (arith, run_length-bounds covered (row + 1) count)

run_length-pos :
    (covered : ℕ → Bool) (row count : ℕ)
    → covered row ≡ false
    → 0 < run_length covered row (suc count)
unfolding run_length
run_length-pos covered row count e = rw e ground arith

covered_test : (b c : Bool) → c ≡ true → (not b && not c) ≡ false
covered_test true c e = refl
covered_test false c e = rw e refl

open_test : (b c : Bool) → c ≡ false → not b ≡ (not b && not c)
open_test true c e = refl
open_test false c e = rw e refl

bare_skip :
    (covered blank : ℕ → Bool) (row : ℕ) (l : List ℕ)
    → covered row ≡ true
    → bare covered blank l ≡ bare covered blank (row ∷ l)
bare_skip covered blank row l e = rw (covered_test (blank row) (covered row) e) refl

bare_next :
    (covered blank : ℕ → Bool) (row : ℕ) (l : List ℕ)
    → covered row ≡ false
    → visible blank l ≡ bare covered blank l
    → visible blank (row ∷ l) ≡ bare covered blank (row ∷ l)
bare_next covered blank row l e same =
    λ i. if open_test (blank row) (covered row) e i then row ∷ same i else same i

run_is_bare :
    (covered blank : ℕ → Bool) (row count : ℕ)
    → visible blank (rows row (run_length covered row count))
      ≡ bare covered blank (rows row (run_length covered row count))
unfolding run_length
run_is_bare covered blank row zero = refl
run_is_bare covered blank row (suc count) =
    if_ind (λ n. visible blank (rows row n) ≡ bare covered blank (rows row n)) (covered row)
      (λ e. refl)
      (λ e.
        bare_next covered blank row (rows (row + 1) (run_length covered (row + 1) count)) e
          (run_is_bare covered blank (row + 1) count))

run_rows :
    (covered blank : ℕ → Bool) (window fuel row count : ℕ) (later : List Def) (size : ℕ)
    → size ≤ count
    → visible blank (rows row size) ≡ bare covered blank (rows row size)
    → visible blank (all_rows later) ≡ bare covered blank (rows (row + size) (count - size))
    → visible blank (all_rows (trimmed_windows blank window row size ++ later))
      ≡ bare covered blank (rows row count)
run_rows covered blank window fuel row count later size h same e =
    ap (visible blank) (all_rows-append (trimmed_windows blank window row size) later)
    ∙ keep-append (λ r. not (blank r)) (all_rows (trimmed_windows blank window row size))
        (all_rows later)
    ∙ ap (λ l. l ++ visible blank (all_rows later)) (visible-trimmed blank window row size ∙ same)
    ∙ ap (λ l. bare covered blank (rows row size) ++ l) e
    ∙ sym (
        keep-append (λ r. not (blank r) && not (covered r)) (rows row size)
          (rows (row + size) (count - size)))
    ∙ ap (bare covered blank) (rows-append row size (count - size) ∙ rows_cong refl (omega arith))

residue_loop_rows :
    (covered blank : ℕ → Bool) (window fuel row count : ℕ)
    → count ≤ fuel
    → visible blank (all_rows (residue_loop covered blank window fuel row count))
      ≡ bare covered blank (rows row count)
unfolding residue_loop
residue_loop_rows covered blank window zero row zero h = refl
residue_loop_rows covered blank window zero row (suc count) h = absurd (omega arith)
residue_loop_rows covered blank window (suc fuel) row zero h = refl
residue_loop_rows covered blank window (suc fuel) row (suc count) h =
    let size = run_length covered row (suc count) in
    if_ind (λ ds. visible blank (all_rows ds) ≡ bare covered blank (rows row (suc count)))
      (covered row)
      (λ e.
        residue_loop_rows covered blank window fuel (row + 1) count (omega arith)
        ∙ bare_skip covered blank row (rows (row + 1) count) e)
      (λ e.
        let pos = run_length-pos covered row count e in
        run_rows covered blank window fuel row (suc count)
          (residue_loop covered blank window fuel (row + size) (suc count - size)) size
          (run_length-bounds covered row (suc count)) (run_is_bare covered blank row (suc count))
          (residue_loop_rows covered blank window fuel (row + size) (suc count - size)
            (omega arith)))

-- The rows that the residue drafts of a file span are, blank rows left out, exactly the rows of the
-- file that are neither blank nor covered by a definition or a container: each once, in order.
pub module_residue_rows :
    (lines : List Line) (defs : List Def) (container_spans : List Span) (window : ℕ)
    → visible (is_blank lines) (all_rows (module_residue lines defs container_spans window))
      ≡ bare
          (is_covered (map span_of defs ++ container_spans))
          (is_blank lines)
          (rows 0 (length lines))
unfolding module_residue
module_residue_rows lines defs container_spans window =
    residue_loop_rows (is_covered (map span_of defs ++ container_spans)) (is_blank lines) window
      (length lines) 0 (length lines) (omega arith)

-- The drafts of a file with no grammar span all its rows that are not blank, each once, in order.
pub whole_file_rows :
    (lines : List Line) (window : ℕ)
    → visible (is_blank lines) (all_rows (whole_file_module lines window))
      ≡ visible (is_blank lines) (rows 0 (length lines))
unfolding whole_file_module
whole_file_rows lines window = visible-trimmed (is_blank lines) window 0 (length lines)

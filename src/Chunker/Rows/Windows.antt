-- ===== src/Chunker/Rows/Windows.antt =====
-- `_window_module` of backend/ingestion/chunker.py cuts a run of rows into consecutive windows.
use vectural.Prelude.{
  ℕ, zero, suc, ◌+◌, ◌-◌, ◌≤◌, ◌<◌, ◌≡◌, refl, sym, ◌∙◌, ap, List, [], ◌∷◌, ◌++◌, length, All,
  arith, leb, nat_beq, ◌||◌, if◌then◌else◌, if_ind, append-nil,
}
use vectural.Chunker.Rows.{Def, module_def, window_loop, window_module}

-- The rows from `row` on, `count` of them.
abbrev pub rows : ℕ → ℕ → List ℕ
rows row zero = []
rows row (suc count) = row ∷ rows (row + 1) count

-- The rows that a draft spans, and those that the drafts of a list do, one after the other.
abbrev pub rows_of : Def → List ℕ
rows_of d = rows d.start_row (d.end_row + 1 - d.start_row)

abbrev pub all_rows : List Def → List ℕ
all_rows [] = []
all_rows (d ∷ ds) = rows_of d ++ all_rows ds

pub rows_cong : {row row' m m' : ℕ} → row ≡ row' → m ≡ m' → rows row m ≡ rows row' m'
rows_cong p q = λ i. rows (p i) (q i)

rows_suc : (row m n : ℕ) → m ≡ suc n → rows row m ≡ row ∷ rows (row + 1) n
rows_suc row m n e = ap (rows row) e

length-rows : (row count : ℕ) → length (rows row count) ≡ count
length-rows row zero = refl
length-rows row (suc count) = rw (length-rows (row + 1) count) refl

pub rows-append : (row m n : ℕ) → rows row m ++ rows (row + m) n ≡ rows row (m + n)
rows-append row zero n = rows_cong (omega arith) (omega arith)
rows-append row (suc m) n =
    ap (λ r. row ∷ (rows (row + 1) m ++ rows r n)) (omega arith)
    ∙ ap (λ l. row ∷ l) (rows-append (row + 1) m n)
    ∙ sym (rows_suc row (suc m + n) (m + n) (omega arith))

rows_of-module_def :
    (row size : ℕ) → 0 < size → rows_of (module_def row (row + size - 1)) ≡ rows row size
unfolding module_def
rows_of-module_def row size h = ap (rows row) (omega arith)

window_size : (window count : ℕ) → 0 < window → ℕ
window_size window count h = if leb window (suc count) then window else suc count

-- A window takes at least one row and at most what is left, and never more than its size.
window_size-bounds :
    (window count : ℕ) (h : 0 < window)
    → 0 < window_size window count h
      × window_size window count h ≤ suc count
      × window_size window count h ≤ window
unfolding window_size
window_size-bounds window count h = ground arith

tile :
    (row size count : ℕ) (later : List Def)
    → 0 < size
    → size ≤ count
    → all_rows later ≡ rows (row + size) (count - size)
    → all_rows (module_def row (row + size - 1) ∷ later) ≡ rows row count
tile row size count later pos h e =
    ap (λ l. l ++ all_rows later) (rows_of-module_def row size pos)
    ∙ ap (λ l. rows row size ++ l) e
    ∙ rows-append row size (count - size)
    ∙ ap (rows row) (omega arith)

window_loop_tiles :
    (window fuel row count : ℕ)
    → 0 < window
    → count ≤ fuel
    → all_rows (window_loop window fuel row count) ≡ rows row count
unfolding window_loop window_size
window_loop_tiles window zero row zero pos h = refl
window_loop_tiles window zero row (suc count) pos h = absurd (omega arith)
window_loop_tiles window (suc fuel) row zero pos h = refl
window_loop_tiles window (suc fuel) row (suc count) pos h =
    let (some_row, within, _) = window_size-bounds window count pos in
    let size = window_size window count pos in
    tile row size (suc count) (window_loop window fuel (row + size) (suc count - size)) some_row
      within (window_loop_tiles window fuel (row + size) (suc count - size) pos (omega arith))

small_window :
    (row size window : ℕ)
    → 0 < size
    → size ≤ window
    → length (rows_of (module_def row (row + size - 1))) ≤ window
small_window row size window h k = rw (rows_of-module_def row size h, length-rows row size) k

window_loop_sizes :
    (window fuel row count : ℕ)
    → 0 < window
    → All (λ d. length (rows_of d) ≤ window) (window_loop window fuel row count)
unfolding window_loop window_size
window_loop_sizes window zero row count pos = tt
window_loop_sizes window (suc fuel) row zero pos = tt
window_loop_sizes window (suc fuel) row (suc count) pos =
    let (some_row, _, small) = window_size-bounds window count pos in
    let size = window_size window count pos in
    (
      small_window row size window some_row small,
      window_loop_sizes window fuel (row + size) (suc count - size) pos,
    )

-- The drafts that `_window_module` makes of a run of rows cover each row of it exactly once, in
-- order.
pub window_module_tiles :
    (start_row count window : ℕ)
    → 0 < count
    → all_rows (window_module start_row count window) ≡ rows start_row count
unfolding window_module
window_module_tiles start_row count window h =
    if_ind (λ ds. all_rows ds ≡ rows start_row count) (nat_beq window 0 || leb count window)
      (λ _.
        append-nil (rows_of (module_def start_row (start_row + count - 1)))
        ∙ rows_of-module_def start_row count h)
      (λ e. window_loop_tiles window count start_row count (ground arith) (omega arith))

-- With a window size set, no draft of a run spans more rows than it.
pub window_module_sizes :
    (start_row count window : ℕ)
    → 0 < count
    → 0 < window
    → All (λ d. length (rows_of d) ≤ window) (window_module start_row count window)
unfolding window_module
window_module_sizes start_row count window h pos =
    if_ind (λ ds. All (λ d. length (rows_of d) ≤ window) ds) (nat_beq window 0 || leb count window)
      (λ e. (small_window start_row count window h (ground arith), tt))
      (λ e. window_loop_sizes window count start_row count pos)

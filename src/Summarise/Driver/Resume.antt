-- ===== src/Summarise/Driver/Resume.antt =====
-- What backend/summarise/driver.py says of a pass and of a resumed one: a file that the ledger
-- marks as summarised, with the same content and prompt, costs nothing.
use vectural.Prelude.{
  ◌≡◌, refl, sym, ap, ◌∙◌, true, false, Option, none, some, List, [], ◌∷◌, ◌++◌, map, All, all_of,
  arith, pair_key, string_key, ◌==◌, apart_sym, append-nil, append_assoc,
}
use vectural.Prelude.Float.{Floats}
use vectural.Llm.Failures.{Failure}
use vectural.Summarise.Ledger.{found_matches}
use vectural.Summarise.Driver.{
  was_skipped, FileToSummarise, key_of, FileResultRow, row_of, Deps, Books, Visit, Pass, hash,
  visited, is_current, visit, add_row, after, pass, start, summarise_files,
}
use vectural.Summarise.Driver.Spent.{after_ind}
use vectural.Summarise.Driver.Visits.{
  row_done, entry_of, Keeps, visit-Keeps, Settles, visit-current,
}

-- The files are of different paths.
abbrev pub AreKeyed : List FileToSummarise → Type 0
AreKeyed [] = Unit
AreKeyed (f ∷ fs) = All (λ g. (key_of f == key_of g) ≡ false) fs × AreKeyed fs

all_of-snoc :
    (rows : List FileResultRow) (r : FileResultRow)
    → all_of row_done (rows ++ r ∷ []) ≡ true
    → (all_of row_done rows ≡ true) × (row_done r ≡ true)
all_of-snoc [] r h = ground (arith, h)
all_of-snoc (q ∷ rows) r h = ground (arith, h, all_of-snoc rows r)

module _ (F : Floats) (W J S : Type 0) (d : Deps F W J S) where
  Extends : Pass F W J S → Option Failure × Pass F W J S → Type 0
  Extends p r = all_of row_done r.1.rows ≡ true → all_of row_done p.rows ≡ true

  Extends-refl :
      (p : Pass F W J S) (o : Option Failure) (b : Books F W J S) (w : W)
      → Extends p (o, record p { books = b; world = w })
  unfolding Extends
  Extends-refl p o b w h = h

  Extends-row :
      (f : FileToSummarise) (v : Visit F W J S) (p : Pass F W J S)
      (r : Option Failure × Pass F W J S)
      → Extends (add_row F W J S f v p) r
      → Extends p r
  unfolding Extends add_row
  Extends-row f v p r h k = (all_of-snoc p.rows (row_of f v.outcome v.tokens) (h k)).0

  pass-Extends : (fs : List FileToSummarise) (p : Pass F W J S) → Extends p (pass F W J S d fs p)
  unfolding pass
  pass-Extends [] p = Extends-refl p none p.books p.world
  pass-Extends (f ∷ fs) p =
      let v = visit F W J S d p.held p.books p.world f in
      let next = add_row F W J S f v p in
      after_ind F W J S d (Extends p) p v (pass F W J S d fs next) v.failure
        (λ _. Extends-row f v p (pass F W J S d fs next) (pass-Extends fs next))
        (λ e. Extends-refl p (some e) v.books v.world)

  Holds : FileToSummarise → Books F W J S → Option Failure × Pass F W J S → Type 0
  Holds g b r = entry_of F W J S d g r.1.books ≡ entry_of F W J S d g b

  Holds-same : (g : FileToSummarise) (p : Pass F W J S) → Holds g p.books (none, p)
  unfolding Holds
  Holds-same g p = refl

  Holds-visit :
      (g : FileToSummarise) (b : Books F W J S) (v : Visit F W J S) (p : Pass F W J S)
      (o : Option Failure)
      → Keeps F W J S d g b v
      → Holds g b (o, record p { books = v.books; world = v.world })
  unfolding Holds Keeps
  Holds-visit g b v p o h = h

  Holds-later :
      (f g : FileToSummarise) (b : Books F W J S) (v : Visit F W J S) (p : Pass F W J S)
      (r : Option Failure × Pass F W J S)
      → Keeps F W J S d g b v
      → Holds g (add_row F W J S f v p).books r
      → Holds g b r
  unfolding Holds Keeps add_row
  Holds-later f g b v p r h k = k ∙ h

  -- A pass leaves the ledger's row of a file that is not among its own.
  pass-Holds :
      (g : FileToSummarise) (fs : List FileToSummarise) (p : Pass F W J S)
      → All (λ f. (key_of g == key_of f) ≡ false) fs
      → Holds g p.books (pass F W J S d fs p)
  unfolding pass
  pass-Holds g [] p h = Holds-same g p
  pass-Holds g (f ∷ fs) p h =
      let v = visit F W J S d p.held p.books p.world f in
      let next = add_row F W J S f v p in
      let kept =
        visit-Keeps F W J S d p.held p.books p.world f g (apart_sym (key_of g) (key_of f) h.0) in
      after_ind F W J S d (Holds g p.books) p v (pass F W J S d fs next) v.failure
        (λ _. Holds-later f g p.books v p (pass F W J S d fs next) kept (pass-Holds g fs next h.1))
        (λ e. Holds-visit g p.books v p (some e) kept)

  -- What the ledger says, after a pass with no failure whose rows are all done, of its files.
  Finishes : List FileToSummarise → Option Failure × Pass F W J S → Type 0
  Finishes fs r =
      r.0 ≡ none
      → all_of row_done r.1.rows ≡ true
      → All (λ f. is_current F W J S d r.1.books.ledger f ≡ true) fs

  Finishes-nil : (r : Option Failure × Pass F W J S) → Finishes [] r
  unfolding Finishes
  Finishes-nil r h k = tt

  Finishes-failed :
      (fs : List FileToSummarise) (e : Failure) (p : Pass F W J S) → Finishes fs (some e, p)
  unfolding Finishes
  Finishes-failed fs e p h k = ground (arith, h)

  Finishes-cons :
      (f : FileToSummarise) (fs : List FileToSummarise) (v : Visit F W J S) (p : Pass F W J S)
      (r : Option Failure × Pass F W J S)
      → v.failure ≡ none
      → Settles F W J S d f v
      → Holds f (add_row F W J S f v p).books r
      → Extends (add_row F W J S f v p) r
      → Finishes fs r
      → Finishes (f ∷ fs) r
  unfolding Finishes Extends Settles Holds add_row is_current entry_of row_of
  Finishes-cons f fs v p r clean settled held extends later h k =
      let row = (all_of-snoc p.rows (row_of f v.outcome v.tokens) (extends k)).1 in
      (ap (found_matches (hash F W J S d f) d.prompt_version) held ∙ settled clean row, later h k)

  pass-Finishes :
      (fs : List FileToSummarise) (p : Pass F W J S)
      → AreKeyed fs
      → Finishes fs (pass F W J S d fs p)
  unfolding pass
  pass-Finishes [] p h = Finishes-nil (none, p)
  pass-Finishes (f ∷ fs) p h =
      let v = visit F W J S d p.held p.books p.world f in
      let next = add_row F W J S f v p in
      after_ind F W J S d (Finishes (f ∷ fs)) p v (pass F W J S d fs next) v.failure
        (λ clean.
          Finishes-cons f fs v p (pass F W J S d fs next) clean
            (visit-current F W J S d p.held p.books p.world f) (pass-Holds f fs next h.0)
            (pass-Extends fs next) (pass-Finishes fs next h.1))
        (λ e. Finishes-failed (f ∷ fs) e (record p { books = v.books; world = v.world }))

  -- the row of a file that was skipped
  abbrev pub skipped : FileToSummarise → FileResultRow
  skipped f = row_of f was_skipped 0

  visit-skip :
      (b : Books F W J S) (w : W) (f : FileToSummarise)
      → is_current F W J S d b.ledger f ≡ true
      → visit F W J S d false b w f ≡ visited F W J S was_skipped 0 false b w
  unfolding visit
  visit-skip b w f h = rw h refl

  with_rows : List FileResultRow → Books F W J S → W → Pass F W J S
  with_rows rows b w = record { rows = rows; tokens_spent = 0; held = false; books = b; world = w }

  pass-skip :
      (fs : List FileToSummarise) (rows : List FileResultRow) (b : Books F W J S) (w : W)
      → All (λ f. is_current F W J S d b.ledger f ≡ true) fs
      → pass F W J S d fs (with_rows rows b w) ≡ (none, with_rows (rows ++ map skipped fs) b w)
  unfolding pass with_rows add_row after row_of
  pass-skip [] rows b w h = ap (λ l. (none, with_rows l b w)) (sym (append-nil rows))
  pass-skip (f ∷ fs) rows b w h =
      let p = with_rows rows b w in
      ap (λ v. after F W J S p v (pass F W J S d fs (add_row F W J S f v p)) v.failure)
        (visit-skip b w f h.0)
      ∙ pass-skip fs (rows ++ skipped f ∷ []) b w h.1
      ∙ ap (λ l. (none, with_rows l b w)) (append_assoc rows (skipped f ∷ []) (map skipped fs))

  -- Running `summarise_files` again over the same files, after a run in which no exception escaped and
  -- every file was summarised or skipped, calls nothing and spends nothing: each file is skipped, and
  -- the stores and the world stay as they are. The files are of different paths; the second run may
  -- start from any world.
  pub summarise_again :
      (files : List FileToSummarise) (b : Books F W J S) (w w' : W)
      → AreKeyed files
      → (summarise_files F W J S d files b w).0 ≡ none
      → all_of row_done (summarise_files F W J S d files b w).1.rows ≡ true
      → summarise_files F W J S d files (summarise_files F W J S d files b w).1.books w' ≡ (
        none,
        record (start F W J S (summarise_files F W J S d files b w).1.books w') {
          rows = map skipped files;
        },
      )
  unfolding summarise_files with_rows Finishes
  summarise_again files b w w' keyed clean done =
      pass-skip files [] (pass F W J S d files (start F W J S b w)).1.books w'
        (pass-Finishes files (start F W J S b w) keyed clean done)

-- ===== src/Summarise/Driver/Spent.antt =====
-- What the report of backend/summarise/driver.py says was spent.
use vectural.Prelude.{
  ◌+◌, ◌≡◌, refl, Option, none, some, List, [], ◌∷◌, sum_of, sum_of-append, arith, pair_key,
  string_key,
}
use vectural.Prelude.Float.{Floats}
use vectural.Llm.Failures.{Failure}
use vectural.Summarise.Driver.{
  FileToSummarise, row_of, Deps, Books, Visit, Pass, visit, add_row, after, pass, start,
  summarise_files,
}

module _ (F : Floats) (W J S : Type 0) (d : Deps F W J S) where
  -- What the rest of a pass comes to, after a visit.
  pub after_ind {κ} :
      (P : Option Failure × Pass F W J S → Type κ) (p : Pass F W J S) (v : Visit F W J S)
      (rest : Option Failure × Pass F W J S) (o : Option Failure)
      → (o ≡ none → P rest)
      → ((e : Failure) → P (some e, record p { books = v.books; world = v.world }))
      → P (after F W J S p v rest o)
  unfolding after
  after_ind P p v rest none h k = h refl
  after_ind P p v rest (some e) h k = k e

  Spends : Pass F W J S → Option Failure × Pass F W J S → Type 0
  Spends p r =
      sum_of (λ row. row.tokens) r.1.rows + p.tokens_spent
      ≡ sum_of (λ row. row.tokens) p.rows + r.1.tokens_spent

  Spends-row :
      (f : FileToSummarise) (v : Visit F W J S) (p : Pass F W J S)
      (r : Option Failure × Pass F W J S)
      → Spends (add_row F W J S f v p) r
      → Spends p r
  unfolding Spends add_row row_of
  Spends-row f v p r h =
      omega (arith, h, sum_of-append (λ row. row.tokens) p.rows (row_of f v.outcome v.tokens ∷ []))

  Spends-stop :
      (p : Pass F W J S) (o : Option Failure) (b : Books F W J S) (w : W)
      → Spends p (o, record p { books = b; world = w })
  unfolding Spends
  Spends-stop p o b w = refl

  pass-Spends : (fs : List FileToSummarise) (p : Pass F W J S) → Spends p (pass F W J S d fs p)
  unfolding pass
  pass-Spends [] p = Spends-stop p none p.books p.world
  pass-Spends (f ∷ fs) p =
      let v = visit F W J S d p.held p.books p.world f in
      let next = add_row F W J S f v p in
      after_ind (Spends p) p v (pass F W J S d fs next) v.failure
        (λ _. Spends-row f v p (pass F W J S d fs next) (pass-Spends fs next))
        (λ e. Spends-stop p (some e) v.books v.world)

  -- The report's `tokens_spent` is the sum of its rows' tokens, however the pass ends.
  pub summarise_files-spent :
      (files : List FileToSummarise) (b : Books F W J S) (w : W)
      → (summarise_files F W J S d files b w).1.tokens_spent
        ≡ sum_of (λ row. row.tokens) (summarise_files F W J S d files b w).1.rows
  unfolding summarise_files Spends
  summarise_files-spent files b w = omega (arith, pass-Spends files (start F W J S b w))

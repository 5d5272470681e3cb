-- ===== src/Citations/Gate.antt =====
-- The gate of backend/answer/citations.py: what its `ok` says of the markers of an answer.
use vectural.Prelude.{
  ℕ, ◌+◌, ◌≡◌, refl, ap, ◌∙◌, Bool, true, false, not, ◌&&◌, ◌||◌, String, Option, none, some, List,
  [], ◌∷◌, some_of, all_of, if◌then◌else◌,
}
use vectural.Prelude.Float.{Floats}
use vectural.Citations.{
  SearchHit, Citation, looks_like_citation, extract_markers, find_hit, is_empty, resolve_one,
  resolve_loop, resolve_citations,
}

module _ (F : Floats) where
  abbrev is_found : Option (SearchHit F) → Bool
  is_found none = false
  is_found (some h) = true

  -- some retrieved chunk answers the marker
  abbrev pub resolves : List (SearchHit F) → String → Bool
  resolves retrieved marker = is_found (find_hit F retrieved marker)

  kept_bad :
      (b : Bool) (m : String) (l : List String)
      → is_empty F (if b then m ∷ l else l) ≡ (not b && is_empty F l)
  kept_bad true m l = refl
  kept_bad false m l = refl

  one-gate :
      (m : String) (o : Option (SearchHit F)) (n : ℕ) (rest : ℕ → List (Citation F) × List String)
      (found fine : Bool)
      → ((k : ℕ) → (not (is_empty F (rest k).0) ≡ found) × (is_empty F (rest k).1 ≡ fine))
      → (not (is_empty F (resolve_one F n m o rest).0) ≡ (is_found o || found))
        × (is_empty F (resolve_one F n m o rest).1
            ≡ ((is_found o || not (looks_like_citation m)) && fine))
  unfolding resolve_one
  one-gate m none n rest found fine h = (
    (h n).0,
    kept_bad (looks_like_citation m) m (rest n).1
        ∙ ap (λ b. not (looks_like_citation m) && b) (h n).1,
  )
  one-gate m (some hit) n rest found fine h = (refl, (h (n + 1)).1)

  loop-gate :
      (retrieved : List (SearchHit F)) (markers : List String) (n : ℕ)
      → (not (is_empty F (resolve_loop F retrieved markers n).0)
          ≡ some_of (resolves retrieved) markers)
        × (is_empty F (resolve_loop F retrieved markers n).1
            ≡ all_of (λ m. resolves retrieved m || not (looks_like_citation m)) markers)
  unfolding resolve_loop
  loop-gate retrieved [] n = (refl, refl)
  loop-gate retrieved (m ∷ ms) n =
      one-gate m (find_hit F retrieved m) n (λ k. resolve_loop F retrieved ms k)
        (some_of (resolves retrieved) ms)
        (all_of (λ m. resolves retrieved m || not (looks_like_citation m)) ms)
        (λ k. loop-gate retrieved ms k)

  -- An answer passes exactly when some marker of it resolves to a retrieved chunk, and every marker
  -- that looks like a citation does.
  pub resolve_citations_ok :
      (markers_of : String → List String) (text : String) (retrieved : List (SearchHit F))
      → (resolve_citations F markers_of text retrieved).ok ≡ (
          some_of (resolves retrieved) (extract_markers markers_of text)
          && all_of
              (λ m. resolves retrieved m || not (looks_like_citation m))
              (extract_markers markers_of text))
  unfolding resolve_citations
  resolve_citations_ok markers_of text retrieved =
      let gate = loop-gate retrieved (extract_markers markers_of text) 0 in
      λ i. gate.0 i && gate.1 i

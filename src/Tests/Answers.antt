-- ===== src/Tests/Answers.antt =====
-- Runs of the citation gate on one retrieved chunk.
use vectural.Prelude.{◌≡◌, String, List, [], ◌∷◌, some_of, all_of, ◌&&◌, ◌||◌, not}
use vectural.Citations.{SearchHit, looks_like_citation, extract_markers, resolve_citations}
use vectural.Citations.Gate.{resolves, resolve_citations_ok}
use vectural.Tests.Tenths.{tenths}

abbrev hits : List (SearchHit tenths)
hits =
    record {
      chunk_id = "payments:payments/pay.py:1-20:ef64c105";
      service = "payments";
      path = "payments/pay.py";
      score = 12;
    }
    ∷ []

abbrev brackets : String → List String
brackets text = "ef64c105" ∷ "chunk_id" ∷ []

resolve_citations_ok_example :
    (resolve_citations tenths brackets "Paid [ef64c105], see [chunk_id]." hits).ok ≡ (
      some_of (resolves tenths hits) (extract_markers brackets "Paid [ef64c105], see [chunk_id].")
      && all_of
          (λ m. resolves tenths hits m || not (looks_like_citation m))
          (extract_markers brackets "Paid [ef64c105], see [chunk_id]."))
resolve_citations_ok_example =
    resolve_citations_ok tenths brackets "Paid [ef64c105], see [chunk_id]." hits

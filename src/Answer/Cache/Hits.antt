-- ===== src/Answer/Cache/Hits.antt =====
-- The look-up of backend/answer/cache.py.
use vectural.Prelude.{
  ◌≡◌, refl, true, ◌&&◌, String, Option, none, some, List, [], ◌∷◌, ◌++◌, string_key, option_key,
  ==_refl, if_ind, arith,
}
use vectural.Prelude.Float.{Floats}
use vectural.Domain.{Persona, Depth, persona_key, depth_key}
use vectural.Answer.Models.{Answer}
use vectural.Answer.Cache.{Likeness, Entry, serves, best_entry, cache_get, cache_put}

module _ (F : Floats) (L : Likeness F) (commit : String) (persona : Persona) (depth : Depth)
    (model : Option String) where
  IsHit : Option (Answer F) → Type 0
  IsHit o = (a : Answer F) × (o ≡ some a)

  -- Once there is a best answer, there is one at the end.
  best-IsHit :
      (query : L.Vector) (es : List (Entry F L)) (sim : F.Float) (a : Answer F)
      → IsHit (best_entry F L query commit persona depth model es sim (some a))
  unfolding best_entry IsHit
  best-IsHit query [] sim a = (a, refl)
  best-IsHit query (e ∷ es) sim a =
      if_ind IsHit
        (serves F L e commit persona depth model && F.le sim (L.cosine query e.embedding))
        (λ h. best-IsHit query es (L.cosine query e.embedding) e.answer)
        (λ h. best-IsHit query es sim a)

  last-IsHit :
      (query : L.Vector) (es : List (Entry F L)) (e : Entry F L) (sim : F.Float)
      → serves F L e commit persona depth model ≡ true
      → F.le sim (L.cosine query e.embedding) ≡ true
      → IsHit (best_entry F L query commit persona depth model (es ++ e ∷ []) sim none)
  unfolding best_entry
  last-IsHit query [] e sim ours like =
      if_ind IsHit
        (serves F L e commit persona depth model && F.le sim (L.cosine query e.embedding))
        (λ h. best-IsHit query [] (L.cosine query e.embedding) e.answer)
        (λ h. absurd (ground (arith, h, ours, like)))
  last-IsHit query (d ∷ es) e sim ours like =
      if_ind IsHit
        (serves F L d commit persona depth model && F.le sim (L.cosine query d.embedding))
        (λ h. best-IsHit query (es ++ e ∷ []) (L.cosine query d.embedding) d.answer)
        (λ h. last-IsHit query es e sim ours like)

  -- What was put is found by the same question, or something as like.
  pub get-put :
      (question : String) (answer : Answer F) (es : List (Entry F L))
      → F.le L.threshold (L.cosine (L.embed question) (L.embed question)) ≡ true
      → (a : Answer F) × (cache_get F L question commit persona depth model
            (cache_put F L question commit persona answer depth model es)
          ≡ some a)
  unfolding cache_get cache_put IsHit serves
  get-put question answer es like =
      last-IsHit (L.embed question) es
        (record {
          embedding = L.embed question;
          commit_sha = commit;
          persona = persona;
          depth = depth;
          model = model;
          answer = answer;
        })
        L.threshold (ground (arith, ==_refl commit, ==_refl persona, ==_refl depth, ==_refl model))
        like

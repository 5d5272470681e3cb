-- ===== src/Answer/Cache.antt =====
-- backend/answer/cache.py: the cache of answers by the likeness of their questions. `embed` and
-- `cosine` stand for the embedder and backend/embedding/base.py.
pub mod Hits
use vectural.Prelude.{
  Bool, true, false, not, ◌&&◌, ◌≡◌, String, Option, none, some, List, [], ◌∷◌, ◌++◌, keep, Key,
  string_key, option_key, ◌==◌, if◌then◌else◌,
}
use vectural.Prelude.Float.{Floats}
use vectural.Domain.{Persona, Depth, persona_key, depth_key}
use vectural.Answer.Models.{Answer}

-- What the cache uses of an embedder.
pub record Likeness (F : Floats) : Type 1 where
  pub Vector : Type 0
  pub embed : String → Vector
  pub cosine : Vector → Vector → F.Float
  pub threshold : F.Float

module _ (F : Floats) (L : Likeness F) where
  pub record Entry : Type 0 where
    pub embedding : L.Vector
    pub commit_sha : String
    pub persona : Persona
    pub depth : Depth
    pub model : Option String
    pub answer : Answer F

  -- neither stale, nor for another persona, depth or model
  unfoldable pub serves : Entry → String → Persona → Depth → Option String → Bool
  serves e commit_sha persona depth model =
      e.commit_sha == commit_sha && e.persona == persona && e.depth == depth && e.model == model

  -- the loop of `get`, with the best found before
  unfoldable pub best_entry :
      L.Vector
      → String
      → Persona
      → Depth
      → Option String
      → List Entry
      → F.Float
      → Option (Answer F)
      → Option (Answer F)
  unfolding serves
  best_entry query commit persona depth model [] best_sim best = best
  best_entry query commit persona depth model (e ∷ es) best_sim best =
      let sim = L.cosine query e.embedding in
      let skip = best_entry query commit persona depth model es best_sim best in
      let better = best_entry query commit persona depth model es sim (some e.answer) in
      if serves e commit persona depth model && F.le best_sim sim then better else skip

  unfoldable pub cache_get :
      String → String → Persona → Depth → Option String → List Entry → Option (Answer F)
  unfolding best_entry
  cache_get question commit persona depth model entries =
      best_entry (L.embed question) commit persona depth model entries L.threshold none

  unfoldable pub cache_put :
      String → String → Persona → Answer F → Depth → Option String → List Entry → List Entry
  cache_put question commit persona answer depth model entries =
      entries
      ++ record {
        embedding = L.embed question;
        commit_sha = commit;
        persona = persona;
        depth = depth;
        model = model;
        answer = answer;
      }
        ∷ []

  unfoldable pub invalidate_commit : String → List Entry → List Entry
  invalidate_commit commit entries = keep (λ e. not (e.commit_sha == commit)) entries

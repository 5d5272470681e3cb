-- ===== src/Freshness/Reindex/Steps/Changes.antt =====
-- What the changes of a diff in backend/freshness/reindex.py do to the rows of one service.
use vectural.Prelude.{
  ◌≡◌, inl, inr, refl, ap, ◌∙◌, Bool, not, ◌&&◌, ◌||◌, String, Option, none, some, List, [], ◌∷◌,
  some_of, string_key, pair_key, arith,
}
use vectural.Prelude.Dict
use vectural.Summarise.Ledger.{FileLedger}
use vectural.Freshness.Diff.{ChangeStatus, FileChange, added, modified, deleted, renamed}
use vectural.Freshness.Reindex.{
  Estate, Stores, has_hash, delete_file, upsert_file, rename_file, carried, apply_change,
  apply_changes,
}
use vectural.Freshness.Reindex.Steps.{
  owned_by, recorded, gone_of, outdated, by_status, concerns, IsStep, unchanged, IsStep-same,
  delete_file-IsStep,
}
use vectural.Freshness.Reindex.Steps.Upserts.{upsert_file-IsStep}

module _ (S B Ch : Type 0) (e : Estate S B Ch) (service : String) where
  IsKept : FileLedger → FileLedger → Type 0
  IsKept before after =
      (path : String) → Dict.get (service, path) after ≡ Dict.get (service, path) before

  recorded_kept :
      (there : Option B) (path : String) (before after : FileLedger)
      → IsKept before after
      → recorded S B Ch e service there path after ≡ recorded S B Ch e service there path before
  unfolding recorded IsKept
  recorded_kept none path before after kept = refl
  recorded_kept (some source) path before after kept =
      ap (has_hash (e.content_hash source)) (kept path)

  outdated_kept :
      (path : String) (before after : FileLedger)
      → IsKept before after
      → outdated S B Ch e service after path ≡ outdated S B Ch e service before path
  unfolding outdated
  outdated_kept path before after kept =
      ap (λ b. owned_by S B Ch e service (e.service_for_path path) && not b)
        (recorded_kept (e.file path) path before after kept)

  IsStep-then :
      (s t u : Stores S B Ch) (first second second' : Bool)
      → IsStep S B Ch e service s t first
      → IsStep S B Ch e service t u second
      → (IsKept s.ledger t.ledger → second ≡ second')
      → IsStep S B Ch e service s u (first || second')
  unfolding IsStep IsKept
  IsStep-then s t u first second second' a (inl there) same = inl there
  IsStep-then s t u first second second' (inl before) (inr (absent, kept, calm)) same =
      absurd (ground (arith, before, absent))
  IsStep-then s t u first second second' (inr (absent, kept, calm)) (inr (_, kept', calm')) same =
      let moved = same kept in
      inr (absent, (λ path. kept' path ∙ kept path), ground (arith, calm, calm', moved))

  rename_file-IsStep :
      (old new : String) (s : Stores S B Ch)
      → IsStep S B Ch e service s
          (rename_file S B Ch e old new s)
          (gone_of S B Ch e service old || outdated S B Ch e service s.ledger new)
  unfolding rename_file
  rename_file-IsStep old new s =
      let t = delete_file S B Ch e old s in
      let carry = carried S B Ch e (e.service_for_path old) old s.ledger in
      let u = upsert_file S B Ch e new carry t in
      IsStep-same S B Ch e service s u (rename_file S B Ch e old new s)
        (gone_of S B Ch e service old || outdated S B Ch e service s.ledger new) refl refl
        (IsStep-then s t u (gone_of S B Ch e service old) (outdated S B Ch e service t.ledger new)
          (outdated S B Ch e service s.ledger new) (delete_file-IsStep S B Ch e service old s)
          (upsert_file-IsStep S B Ch e service new carry t) (outdated_kept new s.ledger t.ledger))

  apply-IsStep :
      (status : ChangeStatus) (path : String) (old : Option String) (s : Stores S B Ch)
      → IsStep S B Ch e service s
          (apply_change S B Ch e (record { status = status; path = path; old_path = old }) s)
          (by_status S B Ch e service s.ledger status path old)
  unfolding apply_change by_status
  apply-IsStep added path old s = upsert_file-IsStep S B Ch e service path none s
  apply-IsStep modified path old s = upsert_file-IsStep S B Ch e service path none s
  apply-IsStep deleted path old s = delete_file-IsStep S B Ch e service path s
  apply-IsStep renamed path none s = unchanged S B Ch e service s
  apply-IsStep renamed path (some old) s = rename_file-IsStep old path s

  by_status_kept :
      (status : ChangeStatus) (path : String) (old : Option String) (before after : FileLedger)
      → IsKept before after
      → by_status S B Ch e service after status path old
        ≡ by_status S B Ch e service before status path old
  unfolding by_status
  by_status_kept added path old before after kept = outdated_kept path before after kept
  by_status_kept modified path old before after kept = outdated_kept path before after kept
  by_status_kept deleted path old before after kept = refl
  by_status_kept renamed path none before after kept = refl
  by_status_kept renamed path (some old) before after kept =
      ap (λ b. gone_of S B Ch e service old || b) (outdated_kept path before after kept)

  some_kept :
      (cs : List FileChange) (before after : FileLedger)
      → IsKept before after
      → some_of (concerns S B Ch e service after) cs ≡ some_of (concerns S B Ch e service before) cs
  unfolding concerns
  some_kept [] before after kept = refl
  some_kept (c ∷ cs) before after kept =
      let here = by_status_kept c.status c.path c.old_path before after kept in
      ground (arith, here, some_kept cs before after kept)

  pub apply_changes-IsStep :
      (cs : List FileChange) (s : Stores S B Ch)
      → IsStep S B Ch e service s
          (apply_changes S B Ch e cs s)
          (some_of (concerns S B Ch e service s.ledger) cs)
  unfolding apply_changes concerns
  apply_changes-IsStep [] s = unchanged S B Ch e service s
  apply_changes-IsStep (c ∷ cs) s =
      let t = apply_change S B Ch e c s in
      IsStep-then s t (apply_changes S B Ch e cs t) (concerns S B Ch e service s.ledger c)
        (some_of (concerns S B Ch e service t.ledger) cs)
        (some_of (concerns S B Ch e service s.ledger) cs)
        (apply-IsStep c.status c.path c.old_path s) (apply_changes-IsStep cs t)
        (some_kept cs s.ledger t.ledger)

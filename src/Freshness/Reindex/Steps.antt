-- ===== src/Freshness/Reindex/Steps.antt =====
-- What the steps of backend/freshness/reindex.py do to the rows of one service, and when they record
-- it as affected.
pub mod Upserts
pub mod Changes
use vectural.Prelude.{
  ◌≡◌, ◌⊎◌, inl, inr, refl, sym, ap, ◌∙◌, subst, Bool, true, false, not, ◌&&◌, ◌||◌, String, Option,
  none, some, List, [], ◌∷◌, ◌++◌, contains, contains-append, some_of, string_key, pair_key, ◌==◌,
  if◌then◌else◌, arith, Bool-cases, if_ind,
}
use vectural.Prelude.Dict
use vectural.Summarise.Ledger.{FileLedger, FileLedgerEntry, upsert_entry, delete_entry}
use vectural.Freshness.Diff.{ChangeStatus, FileChange, added, modified, deleted, renamed}
use vectural.Freshness.Reindex.{
  Estate, Stores, add_once, has_hash, can_carry, delete_owned, delete_file, settle_ledger, replace,
  upsert_owned, upsert_for, upsert_file, rename_file, carried, apply_change, apply_changes,
}

contains-add_once :
    (x y : String) (xs : List String) → contains x (add_once y xs) ≡ (contains x xs || x == y)
unfolding add_once
contains-add_once x y xs = ground (arith, contains-append x xs (y ∷ []), same_place)
  where
    same_place : (x == y) ≡ true → contains x xs ≡ contains y xs
    same_place e = ap (λ z. contains z xs) ((string_key.same_iff x y).0 e)

module _ (S B Ch : Type 0) (e : Estate S B Ch) (service : String) where
  unfoldable pub affected_in : Stores S B Ch → Bool
  affected_in s = contains service s.result.affected_services

  owned_by : Option String → Bool
  owned_by none = false
  owned_by (some owner) = owner == service

  -- whether the ledger has the hash of what is on disk
  recorded : Option B → String → FileLedger → Bool
  recorded none path ledger = false
  recorded (some source) path ledger =
      has_hash (e.content_hash source) (Dict.get (service, path) ledger)

  -- A file of the service that is gone, or whose row is not that of its content.
  gone_of : String → Bool
  unfolding owned_by
  gone_of path = owned_by (e.service_for_path path)

  pub outdated : FileLedger → String → Bool
  unfolding owned_by recorded
  outdated ledger path =
      owned_by (e.service_for_path path) && not (recorded (e.file path) path ledger)

  by_status : FileLedger → ChangeStatus → String → Option String → Bool
  unfolding gone_of outdated
  by_status ledger added path old = outdated ledger path
  by_status ledger modified path old = outdated ledger path
  by_status ledger deleted path old = gone_of path
  by_status ledger renamed path none = false
  by_status ledger renamed path (some old) = gone_of old || outdated ledger path

  -- whether a change of the diff is one of a file of the service that the ledger does not have
  unfoldable pub concerns : FileLedger → FileChange → Bool
  unfolding by_status
  concerns ledger c = by_status ledger c.status c.path c.old_path

  -- From `s` to `t` the service became affected; or it is not affected, its rows are as they were and
  -- nothing that was done concerns it.
  unfoldable pub IsStep : Stores S B Ch → Stores S B Ch → Bool → Type 0
  unfolding affected_in
  IsStep s t concerned =
      (affected_in t ≡ true)
      ⊎ ((affected_in s ≡ false)
          × ((path : String)
              → Dict.get (service, path) t.ledger ≡ Dict.get (service, path) s.ledger)
          × (concerned ≡ false))

  IsStep-if :
      (s t : Stores S B Ch) (concerned : Bool)
      → (affected_in t ≡ false → affected_in s ≡ false)
      → (affected_in t ≡ false
          → (path : String) → Dict.get (service, path) t.ledger ≡ Dict.get (service, path) s.ledger)
      → (affected_in t ≡ false → concerned ≡ false)
      → IsStep s t concerned
  unfolding IsStep
  IsStep-if s t concerned before rows calm = elim (Bool-cases (affected_in t)) [
    | inl there ↦ inl there
    | inr absent ↦ inr (before absent, rows absent, calm absent)
  ]

  unchanged : (s : Stores S B Ch) → IsStep s s false
  unchanged s = IsStep-if s s false (λ h. h) (λ h path. refl) (λ h. refl)

  -- What is written for one owner, who is recorded as affected.
  for_owner :
      (owner : String) (s t : Stores S B Ch) (concerned : Bool)
      → t.result.affected_services ≡ add_once owner s.result.affected_services
      → ((owner == service) ≡ false
          → (path : String) → Dict.get (service, path) t.ledger ≡ Dict.get (service, path) s.ledger)
      → ((owner == service) ≡ false → concerned ≡ false)
      → IsStep s t concerned
  unfolding affected_in
  for_owner owner s t concerned now rows calm =
      let whole : contains service t.result.affected_services
          ≡ (contains service s.result.affected_services || service == owner) =
        ap (contains service) now ∙ contains-add_once service owner s.result.affected_services in
      let same = string_key.same_iff owner service in
      let back = string_key.same_iff service owner in
      let other : contains service t.result.affected_services ≡ false → (owner == service) ≡ false =
        λ h. ground (arith, h, whole, same, back) in
      IsStep-if s t concerned (λ h. ground (arith, h, whole)) (λ h. rows (other h))
        (λ h. calm (other h))

  delete_owned-IsStep :
      (path : String) (owner : Option String) (s : Stores S B Ch)
      → IsStep s (delete_owned S B Ch e path owner s) (owned_by owner)
  unfolding delete_owned owned_by
  delete_owned-IsStep path none s = unchanged s
  delete_owned-IsStep path (some owner) s =
      for_owner owner s (delete_owned S B Ch e path (some owner) s) (owner == service) refl
        (λ other p.
          (let removed = Dict.get-remove (owner, path) (service, p) s.ledger in
            unfold delete_entry in ground (arith, other, removed)))
        (λ other. other)

  -- Only the affected services and the ledger count.
  IsStep-same :
      (s t t' : Stores S B Ch) (concerned : Bool)
      → t'.result.affected_services ≡ t.result.affected_services
      → t'.ledger ≡ t.ledger
      → IsStep s t concerned
      → IsStep s t' concerned
  unfolding IsStep affected_in
  IsStep-same s t t' concerned now rows (inl there) = inl (ap (contains service) now ∙ there)
  IsStep-same s t t' concerned now rows (inr (absent, kept, calm)) =
      inr (absent, (λ path. ap (Dict.get (service, path)) rows ∙ kept path), calm)

  delete_file-IsStep :
      (path : String) (s : Stores S B Ch) → IsStep s (delete_file S B Ch e path s) (gone_of path)
  unfolding delete_file gone_of
  delete_file-IsStep path s =
      let t = delete_owned S B Ch e path (e.service_for_path path) s in
      IsStep-same s t (delete_file S B Ch e path s) (gone_of path) refl refl
        (delete_owned-IsStep path (e.service_for_path path) s)

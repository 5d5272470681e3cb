-- ===== src/Freshness/Reindex/Steps/Upserts.antt =====
-- What taking up a file in backend/freshness/reindex.py does to the rows of one service.
use vectural.Prelude.{
  ◌≡◌, inl, inr, refl, sym, ap, ◌∙◌, subst, Bool, true, false, not, ◌&&◌, String, Option, none,
  some, [], ◌∷◌, ◌++◌, string_key, pair_key, ◌==◌, if◌then◌else◌, arith, Bool-cases, if_ind,
}
use vectural.Prelude.Dict
use vectural.Summarise.Ledger.{FileLedger, FileLedgerEntry, upsert_entry}
use vectural.Freshness.Reindex.{
  Estate, Stores, add_once, has_hash, can_carry, delete_file, settle_ledger, replace, upsert_owned,
  upsert_for, upsert_file,
}
use vectural.Freshness.Reindex.Steps.{
  owned_by, recorded, gone_of, outdated, IsStep, unchanged, for_owner, IsStep-same,
  delete_file-IsStep,
}

module _ (S B Ch : Type 0) (e : Estate S B Ch) (service : String) where
  -- settling writes one row, of its owner
  settled-affected :
      (owner path new_hash : String) (carry : Option FileLedgerEntry) (b : Bool) (s : Stores S B Ch)
      → (settle_ledger S B Ch e owner path new_hash carry b s).result.affected_services
        ≡ s.result.affected_services
  unfolding settle_ledger
  settled-affected owner path new_hash (some old) true s = refl
  settled-affected owner path new_hash (some old) false s = refl
  settled-affected owner path new_hash none b s = refl

  settled-rows :
      (owner path new_hash : String) (carry : Option FileLedgerEntry) (b : Bool) (s : Stores S B Ch)
      (p : String)
      → (owner == service) ≡ false
      → Dict.get (service, p) (settle_ledger S B Ch e owner path new_hash carry b s).ledger
        ≡ Dict.get (service, p) s.ledger
  unfolding settle_ledger upsert_entry
  settled-rows owner path new_hash (some old) true s p other =
      Dict.get-set (owner, path) (service, p) _ s.ledger ∙ rw (other, if◌then◌else◌) refl
  settled-rows owner path new_hash (some old) false s p other =
      Dict.get-set (owner, path) (service, p) _ s.ledger ∙ rw (other, if◌then◌else◌) refl
  settled-rows owner path new_hash none b s p other =
      Dict.get-set (owner, path) (service, p) _ s.ledger ∙ rw (other, if◌then◌else◌) refl

  replaced-affected :
      (owner path : String) (source : B) (s : Stores S B Ch)
      → (replace S B Ch e owner path source s).result.affected_services
        ≡ add_once owner s.result.affected_services
  unfolding replace
  replaced-affected owner path source s = refl

  replaced-rows :
      (owner path : String) (source : B) (s : Stores S B Ch) (p : String)
      → Dict.get (service, p) (replace S B Ch e owner path source s).ledger
        ≡ Dict.get (service, p) s.ledger
  unfolding replace
  replaced-rows owner path source s p = refl

  outdated_by : Option String → Option B → String → FileLedger → Bool
  unfolding owned_by recorded
  outdated_by found there path ledger =
      owned_by S B Ch e service found && not (recorded S B Ch e service there path ledger)

  skipped : String → Stores S B Ch → Stores S B Ch
  skipped path s = record s {
    result = record s.result { skipped_unchanged = s.result.skipped_unchanged ++ path ∷ [] };
  }

  skipped_calm :
      (owner path new_hash : String) (indexed : Bool) (s : Stores S B Ch)
      → (has_hash new_hash (Dict.get (owner, path) s.ledger) && indexed) ≡ true
      → (owner == service && not (has_hash new_hash (Dict.get (service, path) s.ledger))) ≡ false
  skipped_calm owner path new_hash indexed s h = elim (Bool-cases (owner == service)) [
    | inl same ↦
        (let moved =
            ap (λ o. has_hash new_hash (Dict.get (o, path) s.ledger))
              ((string_key.same_iff owner service).0 same) in
          ground (arith, h, moved))
    | inr other ↦ ground (arith, other)
  ]

  upsert_owned-IsStep :
      (owner path : String) (carry : Option FileLedgerEntry) (there : Option B) (s : Stores S B Ch)
      → e.service_for_path path ≡ some owner
      → IsStep S B Ch e service s
          (upsert_owned S B Ch e owner path carry there s)
          (outdated_by (some owner) there path s.ledger)
  unfolding upsert_owned outdated_by recorded owned_by gone_of skipped
  upsert_owned-IsStep owner path carry none s known =
      subst (IsStep S B Ch e service s (delete_file S B Ch e path s))
        (ap (owned_by S B Ch e service) known ∙ ground arith)
        (delete_file-IsStep S B Ch e service path s)
  upsert_owned-IsStep owner path carry (some source) s known =
      let new_hash = e.content_hash source in
      let concerned = outdated_by (some owner) (some source) path s.ledger in
      if_ind (λ (t : Stores S B Ch). IsStep S B Ch e service s t concerned)
        (has_hash new_hash (Dict.get (owner, path) s.ledger) && e.is_indexed owner path s.search)
        (λ h.
          subst (IsStep S B Ch e service s (skipped path s))
            (sym (skipped_calm owner path new_hash (e.is_indexed owner path s.search) s h))
            (IsStep-same S B Ch e service s s (skipped path s) false refl refl
              (unchanged S B Ch e service s)))
        (λ h.
          for_owner S B Ch e service owner s
            (settle_ledger S B Ch e owner path new_hash carry (can_carry carry new_hash)
              (replace S B Ch e owner path source s))
            concerned
            (settled-affected owner path new_hash carry (can_carry carry new_hash)
                (replace S B Ch e owner path source s)
              ∙ replaced-affected owner path source s)
            (λ other p.
              settled-rows owner path new_hash carry (can_carry carry new_hash)
                (replace S B Ch e owner path source s) p other
              ∙ replaced-rows owner path source s p)
            (λ other. ground (arith, other)))

  upsert_for-IsStep :
      (found : Option String) (path : String) (carry : Option FileLedgerEntry) (there : Option B)
      (s : Stores S B Ch)
      → e.service_for_path path ≡ found
      → IsStep S B Ch e service s
          (upsert_for S B Ch e found path carry there s)
          (outdated_by found there path s.ledger)
  unfolding upsert_for outdated_by owned_by
  upsert_for-IsStep none path carry there s known =
      IsStep-same S B Ch e service s s (upsert_for S B Ch e none path carry there s) false refl refl
        (unchanged S B Ch e service s)
  upsert_for-IsStep (some owner) path carry there s known =
      upsert_owned-IsStep owner path carry there s known

  pub upsert_file-IsStep :
      (path : String) (carry : Option FileLedgerEntry) (s : Stores S B Ch)
      → IsStep S B Ch e service s
          (upsert_file S B Ch e path carry s)
          (outdated S B Ch e service s.ledger path)
  unfolding upsert_file outdated outdated_by
  upsert_file-IsStep path carry s =
      upsert_for-IsStep (e.service_for_path path) path carry (e.file path) s refl

-- ===== src/Freshness/Reindex/Cascade.antt =====
-- What a diff leaves behind, for backend/freshness/reindex.py with backend/freshness/state.py and
-- backend/flows/service.py: stale marks, narratives that are not served, and a ledger that has the
-- hash of what is on disk.
use vectural.Prelude.{
  ◌≡◌, ◌⊎◌, inl, inr, refl, sym, ap, ◌∙◌, subst, Bool, true, false, ◌&&◌, String, Option, none,
  some, List, [], ◌∷◌, All, contains, contains-more, some_of, some_of-intro, string_key, pair_key,
  ==_refl, if_ind, arith, Bool-cases,
}
use vectural.Prelude.Dict
use vectural.Summarise.Ledger.{FileLedgerEntry, upsert_entry}
use vectural.Flows.Models.{FlowStore, FlowNarrative, touches}
use vectural.Flows.Service.{invalidate_on_change, evidence_for}
use vectural.Flows.Service.Invalidation.{IsKeyed, evidence-invalidate}
use vectural.Freshness.{FreshnessState, mark_stale, is_stale}
use vectural.Freshness.Diff.{FileChange}
use vectural.Freshness.Reindex.{
  Estate, Stores, no_result, has_hash, can_carry, settle_ledger, replace, upsert_owned, upsert_for,
  upsert_file, apply_changes, mark_affected, flag_flows, reindex,
}
use vectural.Freshness.Reindex.Steps.{IsStep, affected_in, concerns}
use vectural.Freshness.Reindex.Steps.Changes.{apply_changes-IsStep}

none_touched : (services : List String) → some_of (λ s. contains s []) services ≡ false
none_touched [] = refl
none_touched (s ∷ ss) = none_touched ss

touch_none : (ns : List FlowNarrative) → All (λ n. touches [] n ≡ false) ns
touch_none [] = tt
touch_none (n ∷ ns) = (none_touched n.services, touch_none ns)

-- what is served after the flows of some services were flagged
unserved :
    (S B Ch : Type 0) (e : Estate S B Ch) (affected : List String) (store : FlowStore)
    (anchors : List String)
    → IsKeyed store
    → (store' : FlowStore) × ((flag_flows S B Ch e affected (some store)).1 ≡ some store')
      × All (λ n. touches affected n ≡ false) (evidence_for anchors store')
unfolding flag_flows
unserved S B Ch e [] store anchors keyed = (store, refl, touch_none (evidence_for anchors store))
unserved S B Ch e (a ∷ as_) store anchors keyed = (
  (invalidate_on_change (a ∷ as_) e.now store).1,
  refl,
  (evidence-invalidate (a ∷ as_) e.now store anchors keyed).1,
)

-- An affected service is named by no narrative that touches none of the affected.
unnamed :
    (affected : List String) (service : String) (ns : List FlowNarrative)
    → contains service affected ≡ true
    → All (λ n. touches affected n ≡ false) ns
    → All (λ n. contains service n.services ≡ false) ns
unnamed affected service [] there h = tt
unnamed affected service (n ∷ ns) there h = (
  elim (Bool-cases (contains service n.services)) [
    | inl named ↦
        (let touched = some_of-intro (λ s. contains s affected) service n.services named there in
          absurd (ground (arith, h.0, touched)))
    | inr absent ↦ absent
  ],
  unnamed affected service ns there h.1,
)

module _ (S B Ch : Type 0) (e : Estate S B Ch) where
  -- After a diff was applied, each service either is stale, and named by no approved narrative that is
  -- served as evidence, whatever services are asked about; or it has the ledger rows that it had, and
  -- no change of the diff concerns it: no file of it was deleted or renamed away, and each file of it
  -- that was added, modified or renamed to is on disk with the hash of its row. The narratives stand
  -- under their own ids.
  pub reindex_cascade :
      (changes : List FileChange) (f : FreshnessState) (store : FlowStore) (s : Stores S B Ch)
      (anchors : List String) (service : String)
      → IsKeyed store
      → let out = reindex S B Ch e changes (some f) (some store) s in
        (f' : FreshnessState) × (store' : FlowStore) × (out.freshness ≡ some f')
        × (out.flows ≡ some store')
        × (((is_stale service f' ≡ true)
              × All (λ n. contains service n.services ≡ false) (evidence_for anchors store'))
            ⊎ (((path : String)
                  → Dict.get (service, path) out.stores.ledger ≡ Dict.get (service, path) s.ledger)
                × (some_of (concerns S B Ch e service s.ledger) changes ≡ false)))
  unfolding reindex mark_affected IsStep affected_in mark_stale is_stale
  reindex_cascade changes f store s anchors service keyed =
      let start = record s { result = no_result } in
      let affected = (apply_changes S B Ch e changes start).result.affected_services in
      let (store', same, served) = unserved S B Ch e affected store anchors keyed in
      (
        mark_stale affected f,
        store',
        refl,
        same,
        elim (apply_changes-IsStep S B Ch e service changes start) [
          | inl there ↦ inl (
            contains-more service affected f.stale there,
            unnamed affected service (evidence_for anchors store') there served,
          )
          | inr calm ↦ inr (calm.1, calm.2)
        ],
      )

  settled-hash :
      (owner path new_hash : String) (carry : Option FileLedgerEntry) (b : Bool) (s : Stores S B Ch)
      → can_carry carry new_hash ≡ b
      → has_hash new_hash
          (Dict.get (owner, path) (settle_ledger S B Ch e owner path new_hash carry b s).ledger)
        ≡ true
  unfolding settle_ledger can_carry upsert_entry
  settled-hash owner path new_hash (some old) true s h =
      ap (has_hash new_hash) (Dict.get-set_self (owner, path) _ s.ledger) ∙ ground (arith, h)
  settled-hash owner path new_hash (some old) false s h =
      ap (has_hash new_hash) (Dict.get-set_self (owner, path) _ s.ledger) ∙ ==_refl new_hash
  settled-hash owner path new_hash none b s h =
      ap (has_hash new_hash) (Dict.get-set_self (owner, path) _ s.ledger) ∙ ==_refl new_hash

  owned-hash :
      (owner path : String) (carry : Option FileLedgerEntry) (source : B) (s : Stores S B Ch)
      → has_hash
          (e.content_hash source)
          (Dict.get (owner, path) (upsert_owned S B Ch e owner path carry (some source) s).ledger)
        ≡ true
  unfolding upsert_owned
  owned-hash owner path carry source s =
      let new_hash = e.content_hash source in
      if_ind (λ (t : Stores S B Ch). has_hash new_hash (Dict.get (owner, path) t.ledger) ≡ true)
        (has_hash new_hash (Dict.get (owner, path) s.ledger) && e.is_indexed owner path s.search)
        (λ h. ground (arith, h))
        (λ h.
          settled-hash owner path new_hash carry (can_carry carry new_hash)
            (replace S B Ch e owner path source s) refl)

  -- Once a file that the estate owns and the disk has was taken up, whether as unchanged, with a
  -- summary that it carries over from its old path, or to be summarised again, its ledger row has the
  -- hash of its content.
  pub upsert_file-hash :
      (path owner : String) (carry : Option FileLedgerEntry) (source : B) (s : Stores S B Ch)
      → e.service_for_path path ≡ some owner
      → e.file path ≡ some source
      → has_hash
          (e.content_hash source)
          (Dict.get (owner, path) (upsert_file S B Ch e path carry s).ledger)
        ≡ true
  unfolding upsert_file upsert_for
  upsert_file-hash path owner carry source s owned there =
      subst
        (λ (t : Option String × Option B).
          has_hash (e.content_hash source)
            (Dict.get (owner, path) (upsert_for S B Ch e t.0 path carry t.1 s).ledger)
          ≡ true)
        (λ i. (sym owned i, sym there i)) (owned-hash owner path carry source s)

-- ===== src/Freshness/Reconcile/Sweep.antt =====
-- What a sweep leaves in the index and in the ledger, for backend/freshness/reconcile.py.
use vectural.Prelude.{
  ◌≡◌, refl, ap, ◌∙◌, Bool, not, ◌&&◌, String, none, List, [], ◌∷◌, map, keep, contains, string_key,
  pair_key, ◌==◌, if◌then◌else◌, if_ind, Key, arith, Bool-cases, inl, inr,
}
use vectural.Prelude.Text.{str_le}
use vectural.Prelude.Dict
use vectural.Prelude.Sort
use vectural.Prelude.Sort.{contains-sorted}
use vectural.Graph.Store.{GraphStore, file_keys}
use vectural.Retrieval.{SearchIndex, indexed_files}
use vectural.Retrieval.Statistics.{IsExact}
use vectural.Retrieval.Deletion.{indexed_files-delete_by_file, delete_by_file-IsExact}
use vectural.Summarise.Ledger.{FileLedger, delete_entry}
use vectural.Freshness.Reconcile.{
  Reconciled, no_report, pair_le, remove_orphan, sweep_index, sweep_graph, reconcile,
}

==_comm {ℓ} : {A : Type ℓ} ⦃e : Key A⦄ (a b : A) → (a == b) ≡ (b == a)
==_comm ⦃e⦄ a b =
    let there = e.same_iff a b in let back = e.same_iff b a in ground (arith, there, back)

module _ (V : Type 0) (on_disk : List (String × String)) where
  -- the state after one file of the loop
  sweep_one : String × String → Reconciled V → Reconciled V
  sweep_one f r = if contains f on_disk then r else remove_orphan V on_disk f.0 f.1 r

  -- whether a file is the one at hand, and is not on disk
  is_orphan : String × String → String × String → Bool
  is_orphan key f = key == f && not (contains key on_disk)

  orphan_lem : (key f : String × String) → is_orphan key f ≡ (key == f && not (contains f on_disk))
  unfolding is_orphan
  orphan_lem key f = elim (Bool-cases (key == f)) [
    | inl same ↦ ap (λ k. key == f && not (contains k on_disk)) ((pair_key.same_iff key f).0 same)
    | inr other ↦ rw (other, ◌&&◌) refl
  ]

  sweep_one-search :
      (f : String × String) (r : Reconciled V) (key : String × String)
      → IsExact V r.search
      → contains key (indexed_files V (sweep_one f r).search)
        ≡ (contains key (indexed_files V r.search) && not (is_orphan key f))
  unfolding sweep_one remove_orphan
  sweep_one-search f r key x = elim (Bool-cases (contains f on_disk)) [
    | inl here ↦ ground (arith, here, orphan_lem key f)
    | inr gone ↦
        (let left = indexed_files-delete_by_file V f.0 f.1 r.search key x in
          ground (arith, gone, orphan_lem key f, left))
  ]

  sweep_one-IsExact :
      (f : String × String) (r : Reconciled V)
      → IsExact V r.search
      → IsExact V (sweep_one f r).search
  unfolding sweep_one remove_orphan
  sweep_one-IsExact f r x =
      if_ind (λ (t : Reconciled V). IsExact V t.search) (contains f on_disk) (λ here. x)
        (λ gone. delete_by_file-IsExact V f.0 f.1 r.search x)

  sweep_one-ledger :
      (f : String × String) (r : Reconciled V) (key : String × String)
      → Dict.get key (sweep_one f r).ledger
        ≡ (if is_orphan key f then none else Dict.get key r.ledger)
  unfolding sweep_one remove_orphan delete_entry
  sweep_one-ledger f r key = elim (Bool-cases (contains f on_disk)) [
    | inl here ↦ ground (arith, here, orphan_lem key f)
    | inr gone ↦
        ground (arith, gone, orphan_lem key f, ==_comm f key, Dict.get-remove f key r.ledger)
  ]

  is_orphan_in : List (String × String) → String × String → Bool
  is_orphan_in files key = contains key files && not (contains key on_disk)

  loop-search :
      (files : List (String × String)) (r : Reconciled V) (key : String × String)
      → IsExact V r.search
      → contains key (indexed_files V (sweep_index V on_disk files r).search)
        ≡ (contains key (indexed_files V r.search) && not (is_orphan_in files key))
  unfolding sweep_index is_orphan_in sweep_one
  loop-search [] r key x = ground arith
  loop-search (f ∷ files) r key x =
      loop-search files (sweep_one f r) key (sweep_one-IsExact f r x)
      ∙ (let one = sweep_one-search f r key x in unfold is_orphan in ground (arith, one))

  loop-ledger :
      (files : List (String × String)) (r : Reconciled V) (key : String × String)
      → Dict.get key (sweep_index V on_disk files r).ledger
        ≡ (if is_orphan_in files key then none else Dict.get key r.ledger)
  unfolding sweep_index is_orphan_in sweep_one
  loop-ledger [] r key = refl
  loop-ledger (f ∷ files) r key =
      loop-ledger files (sweep_one f r) key
      ∙ (let one = sweep_one-ledger f r key in unfold is_orphan in ground (arith, one))

  graph_kept-search :
      (paths : List String) (r : Reconciled V) → (sweep_graph V on_disk paths r).search ≡ r.search
  unfolding sweep_graph
  graph_kept-search [] r = refl
  graph_kept-search (p ∷ paths) r = graph_kept-search paths _

  graph_kept-ledger :
      (paths : List String) (r : Reconciled V) → (sweep_graph V on_disk paths r).ledger ≡ r.ledger
  unfolding sweep_graph
  graph_kept-ledger [] r = refl
  graph_kept-ledger (p ∷ paths) r = graph_kept-ledger paths _

  -- For an index whose statistics are those of its documents, as every history of it leaves it: after
  -- a sweep the index lists exactly the files that it listed and that are on disk, and the ledger has exactly the
  -- rows that it had, less those of the files that were indexed and are no longer on disk.
  pub reconcile_converges :
      (index : SearchIndex V) (graph : GraphStore) (ledger : FileLedger) (key : String × String)
      → IsExact V index
      → let out = reconcile V on_disk index graph ledger in
        let before = contains key (indexed_files V index) in
        (contains key (indexed_files V out.search) ≡ (before && contains key on_disk))
        × (Dict.get key out.ledger
            ≡ (if before && not (contains key on_disk) then none else Dict.get key ledger))
  unfolding reconcile is_orphan_in
  reconcile_converges index graph ledger key exact =
      let start : Reconciled V = record {
        search = index;
        graph = graph;
        ledger = ledger;
        report = no_report;
      } in
      let files = Sort.sorted pair_le (indexed_files V index) in
      let same = contains-sorted pair_le key (indexed_files V index) in
      let swept = loop-search files start key exact in
      let rows = loop-ledger files start key in
      let after = sweep_index V on_disk files start in
      let alone = Sort.sorted str_le (
        keep (λ path. not (contains path (map (λ (f : String × String). f.1) on_disk)))
          (file_keys after.graph)) in
      (
        ap (λ s. contains key (indexed_files V s)) (graph_kept-search alone after)
            ∙ swept
            ∙ ground (arith, same),
        ap (Dict.get key) (graph_kept-ledger alone after) ∙ rows ∙ ground (arith, same),
      )

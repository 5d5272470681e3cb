-- ===== src/Freshness/Reconcile.antt =====
-- backend/freshness/reconcile.py: what is indexed and no longer on disk is deleted. `V` is the
-- vectors of the search index; what the walk of the estate finds, as services and paths, is
-- `on_disk`.
pub mod Sweep
use vectural.Prelude.{
  ℕ, ◌+◌, Bool, true, false, not, String, List, [], ◌∷◌, ◌++◌, map, keep, contains, string_key,
  pair_key, ◌==◌, if◌then◌else◌,
}
use vectural.Prelude.Text.{str_le}
use vectural.Prelude.Sort
use vectural.Graph.Store.{GraphStore, delete_file, file_keys}
use vectural.Retrieval.{SearchIndex, delete_by_file, indexed_files}
use vectural.Summarise.Ledger.{FileLedger, delete_entry}
use vectural.Freshness.Reindex.{add_once}

pub record ReconcileReport : Type 0 where
  pub orphan_files : List String
  pub chunks_deleted : ℕ
  pub nodes_deleted : ℕ

abbrev pub no_report : ReconcileReport
no_report = record { orphan_files = []; chunks_deleted = 0; nodes_deleted = 0 }

-- the order of pairs of strings
abbrev pub pair_le : String × String → String × String → Bool
pair_le (a, b) (c, d) = if a == c then str_le b d else str_le a c

module _ (V : Type 0) where
  pub record Reconciled : Type 0 where
    pub search : SearchIndex V
    pub graph : GraphStore
    pub ledger : FileLedger
    pub report : ReconcileReport

  module _ (on_disk : List (String × String)) where
    unfoldable pub remove_orphan : String → String → Reconciled → Reconciled
    remove_orphan service path r =
        let (chunks, search) = delete_by_file V service path r.search in
        let (nodes, graph) = delete_file path r.graph in
        record {
          search = search;
          graph = graph;
          ledger = delete_entry service path r.ledger;
          report = record {
            orphan_files = r.report.orphan_files ++ path ∷ [];
            chunks_deleted = r.report.chunks_deleted + chunks;
            nodes_deleted = r.report.nodes_deleted + nodes;
          };
        }

    -- the loop over the indexed files
    unfoldable pub sweep_index : List (String × String) → Reconciled → Reconciled
    unfolding remove_orphan
    sweep_index [] r = r
    sweep_index ((service, path) ∷ files) r =
        sweep_index files
          (if contains (service, path) on_disk then r else remove_orphan service path r)

    -- the loop over the files of the graph alone
    unfoldable pub sweep_graph : List String → Reconciled → Reconciled
    unfolding add_once
    sweep_graph [] r = r
    sweep_graph (path ∷ paths) r =
        let (nodes, graph) = delete_file path r.graph in
        sweep_graph paths (record r {
          graph = graph;
          report = record r.report {
            nodes_deleted = r.report.nodes_deleted + nodes;
            orphan_files = add_once path r.report.orphan_files;
          };
        })

    unfoldable pub reconcile : SearchIndex V → GraphStore → FileLedger → Reconciled
    unfolding sweep_index sweep_graph
    reconcile search graph ledger =
        let swept =
          sweep_index (Sort.sorted pair_le (indexed_files V search))
            (record { search = search; graph = graph; ledger = ledger; report = no_report }) in
        let on_disk_paths = map (λ (f : String × String). f.1) on_disk in
        sweep_graph
          (Sort.sorted str_le
            (keep (λ path. not (contains path on_disk_paths)) (file_keys swept.graph)))
          swept

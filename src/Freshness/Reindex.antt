-- ===== src/Freshness/Reindex.antt =====
-- backend/freshness/reindex.py: a diff applied to the index, the graph and the ledger. `S` is the
-- search index, `B` the bytes of a file; the manifest, the disk, ingestion and the search index are
-- the interface `Estate`.
pub mod Cascade
pub mod Steps
use vectural.Prelude.{
  ℕ, Bool, true, false, ◌&&◌, String, Option, none, some, List, [], ◌∷◌, ◌++◌, contains, string_key,
  pair_key, ◌==◌, if◌then◌else◌,
}
use vectural.Prelude.Text.{join}
use vectural.Prelude.Dict
use vectural.Domain.Graph.{GraphDelta}
use vectural.Graph.Store.{GraphStore, upsert_nodes, upsert_edges}
use vectural.Graph.Store
use vectural.Summarise.Ledger.{
  FileLedger, FileLedgerEntry, pending, upsert_entry, delete_entry, is_summarised,
}
use vectural.Flows.Models.{FlowStore}
use vectural.Flows.Service.{invalidate_on_change}
use vectural.Freshness.{FreshnessState, mark_stale}
use vectural.Freshness.Diff.{FileChange, added, modified, deleted, renamed}

pub record ReindexResult : Type 0 where
  pub reindexed : List String
  pub deleted : List String
  pub renamed : List String
  pub skipped_unchanged : List String
  pub skipped_unmanifested : List String
  pub carried_forward : List String
  pub resummarise : List (String × String)
  pub affected_services : List String
  pub flows_flagged : List String

abbrev pub no_result : ReindexResult
no_result = record {
  reindexed = [];
  deleted = [];
  renamed = [];
  skipped_unchanged = [];
  skipped_unmanifested = [];
  carried_forward = [];
  resummarise = [];
  affected_services = [];
  flows_flagged = [];
}

-- adding to a set, or to a list that holds each once
unfoldable pub add_once : String → List String → List String
add_once x xs = if contains x xs then xs else xs ++ x ∷ []

-- `_can_carry`
unfoldable pub can_carry : Option FileLedgerEntry → String → Bool
unfolding is_summarised
can_carry none new_hash = false
can_carry (some e) new_hash = is_summarised e.status && e.content_hash == new_hash

abbrev pub has_hash : String → Option FileLedgerEntry → Bool
has_hash h none = false
has_hash h (some e) = e.content_hash == h

module _ (S B Ch : Type 0) where
  pub record Estate : Type 0 where
    -- the name of the service that owns a path
    pub service_for_path : String → Option String
    -- the bytes of a file, if there is one
    pub file : String → Option B
    pub content_hash : B → String
    -- the chunks and the graph of a file, by its service and path
    pub ingest_file : B → String → String → List Ch × GraphDelta
    pub delete_by_file : String → String → S → S
    pub index : List Ch → S → S
    pub is_indexed : String → String → S → Bool
    pub prompt_version : String
    pub now : ℕ

  pub record Stores : Type 0 where
    pub search : S
    pub graph : GraphStore
    pub ledger : FileLedger
    pub result : ReindexResult

  module _ (e : Estate) where
    delete_owned : String → Option String → Stores → Stores
    unfolding add_once
    delete_owned path none s = s
    delete_owned path (some owner) s = record s {
      search = e.delete_by_file owner path s.search;
      ledger = delete_entry owner path s.ledger;
      result = record s.result { affected_services = add_once owner s.result.affected_services };
    }

    unfoldable pub delete_file : String → Stores → Stores
    unfolding delete_owned add_once
    delete_file path s =
        let t = delete_owned path (e.service_for_path path) s in
        record t {
          graph = (Store.delete_file path t.graph).1;
          result = record t.result { deleted = add_once path t.result.deleted };
        }

    -- the ledger row after a file was indexed again
    settle_ledger : String → String → String → Option FileLedgerEntry → Bool → Stores → Stores
    settle_ledger owner path new_hash (some old) true s = record s {
      ledger =
          upsert_entry (record old { service = owner; path = path; updated_at = e.now }) s.ledger;
      result = record s.result { carried_forward = s.result.carried_forward ++ path ∷ [] };
    }
    settle_ledger owner path new_hash carry _ s = record s {
      ledger =
          upsert_entry
            (record {
              service = owner;
              path = path;
              content_hash = new_hash;
              prompt_version = e.prompt_version;
              tier = 0;
              status = pending;
              updated_at = e.now;
            })
            s.ledger;
      result = record s.result { resummarise = s.result.resummarise ++ (owner, path) ∷ [] };
    }

    -- A file's chunks and nodes are replaced.
    replace : String → String → B → Stores → Stores
    unfolding add_once
    replace owner path source s =
        let (chunks, delta) = e.ingest_file source owner path in
        record s {
          search = e.index chunks (e.delete_by_file owner path s.search);
          graph =
              upsert_edges delta.edges
                (upsert_nodes delta.nodes (Store.delete_file path s.graph).1);
          result = record s.result {
            affected_services = add_once owner s.result.affected_services;
            reindexed = s.result.reindexed ++ path ∷ [];
          };
        }

    upsert_owned : String → String → Option FileLedgerEntry → Option B → Stores → Stores
    unfolding settle_ledger replace delete_file
    upsert_owned owner path carry none s = delete_file path s
    upsert_owned owner path carry (some source) s =
        let new_hash = e.content_hash source in
        let skip = record s {
          result = record s.result { skipped_unchanged = s.result.skipped_unchanged ++ path ∷ [] };
        } in
        let again =
          settle_ledger owner path new_hash carry (can_carry carry new_hash)
            (replace owner path source s) in
        if has_hash new_hash (Dict.get (owner, path) s.ledger) && e.is_indexed owner path s.search
        then skip
        else again

    -- by the owner of the path
    upsert_for : Option String → String → Option FileLedgerEntry → Option B → Stores → Stores
    unfolding upsert_owned
    upsert_for none path carry there s = record s {
      result = record s.result {
        skipped_unmanifested = s.result.skipped_unmanifested ++ path ∷ [];
      };
    }
    upsert_for (some owner) path carry there s = upsert_owned owner path carry there s

    unfoldable pub upsert_file : String → Option FileLedgerEntry → Stores → Stores
    unfolding upsert_for
    upsert_file path carry s = upsert_for (e.service_for_path path) path carry (e.file path) s

    carried : Option String → String → FileLedger → Option FileLedgerEntry
    carried none path ledger = none
    carried (some owner) path ledger = Dict.get (owner, path) ledger

    unfoldable pub rename_file : String → String → Stores → Stores
    unfolding carried delete_file upsert_file
    rename_file old_path new_path s =
        let carry = carried (e.service_for_path old_path) old_path s.ledger in
        let t = upsert_file new_path carry (delete_file old_path s) in
        record t {
          result = record t.result {
            renamed = t.result.renamed ++ join "" (old_path ∷ " -> " ∷ new_path ∷ []) ∷ [];
          };
        }

    unfoldable pub apply_change : FileChange → Stores → Stores
    unfolding upsert_file delete_file rename_file
    apply_change c s = elim c.status [
      | added ↦ upsert_file c.path none s
      | modified ↦ upsert_file c.path none s
      | deleted ↦ delete_file c.path s
      | renamed ↦ elim c.old_path [ none ↦ s | some old ↦ rename_file old c.path s ]
    ]

    unfoldable pub apply_changes : List FileChange → Stores → Stores
    unfolding apply_change
    apply_changes [] s = s
    apply_changes (c ∷ cs) s = apply_changes cs (apply_change c s)

    mark_affected : List String → Option FreshnessState → Option FreshnessState
    mark_affected affected none = none
    mark_affected affected (some f) = some (mark_stale affected f)

    flag_flows : List String → Option FlowStore → List String × Option FlowStore
    flag_flows [] flows = ([], flows)
    flag_flows (a ∷ as_) none = ([], none)
    flag_flows (a ∷ as_) (some store) =
        let (ids, store') = invalidate_on_change (a ∷ as_) e.now store in (ids, some store')

    pub record Reindexed : Type 0 where
      pub stores : Stores
      pub freshness : Option FreshnessState
      pub flows : Option FlowStore

    -- `reindex`; a run starts from an empty result
    unfoldable pub reindex :
        List FileChange → Option FreshnessState → Option FlowStore → Stores → Reindexed
    unfolding apply_changes mark_affected flag_flows
    reindex changes freshness flows s =
        let t = apply_changes changes (record s { result = no_result }) in
        let affected = t.result.affected_services in
        let (flagged, flows') = flag_flows affected flows in
        record {
          stores = record t { result = record t.result { flows_flagged = flagged } };
          freshness = mark_affected affected freshness;
          flows = flows';
        }

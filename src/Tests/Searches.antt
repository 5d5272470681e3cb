-- ===== src/Tests/Searches.antt =====
-- Runs of the in-memory search index and of the sweep over it.
use vectural.Prelude.Dict
use vectural.Prelude.Text.{join}
use vectural.Prelude.Sort
use vectural.Graph.Store.{empty, file_keys, delete_file}
use vectural.Freshness.Reconcile.{reconcile}
use vectural.Freshness.Reconcile.Sweep.{reconcile_converges}
use vectural.Prelude.{
  ◌≡◌, refl, true, false, not, ◌&&◌, contains, string_key, pair_key, if◌then◌else◌, List, Option,
  none, String, [], ◌∷◌,
}
use vectural.Chunker.Rows.{ChunkKind}
use vectural.Chunker.Emit.{Chunk}
use vectural.Retrieval.{SearchIndex, empty_index, indexed_files, index_chunks, delete_by_file}
use vectural.Retrieval.Statistics.{
  IsExact, IndexChange, chunks_indexed, file_deleted, index_after, index_after-IsExact,
}

abbrev chunk : String → String → Chunk
chunk id path = record {
  chunk_id = id;
  service = "payments";
  path = path;
  kind = ChunkKind.function;
  span = (1, 2);
  content = "pay";
  identifiers = "refund" ∷ [];
  symbol = none;
  commit_sha = "abc";
  content_hash = "h";
}

abbrev tokens_of : String → List String
tokens_of s = s ∷ "pay" ∷ []

abbrev no_vector : Chunk → String → Option String
no_vector c s = none

abbrev history : List (IndexChange String tokens_of no_vector)
history =
    chunks_indexed (chunk "1" "a.py" ∷ chunk "2" "b.py" ∷ chunk "1" "c.py" ∷ [])
    ∷ file_deleted "payments" "d.py"
    ∷ []

abbrev index : SearchIndex String
index = index_after String tokens_of no_vector history (empty_index String)

index_after-IsExact_example : IsExact String index
index_after-IsExact_example = index_after-IsExact String tokens_of no_vector history

abbrev files_on_disk : List (String × String)
files_on_disk = ("payments", "c.py") ∷ []

abbrev gone : String × String
gone = ("payments", "b.py")

reconcile_converges_example :
    let out = reconcile String files_on_disk index empty [] in
    let before = contains gone (indexed_files String index) in
    (contains gone (indexed_files String out.search) ≡ (before && contains gone files_on_disk))
    × (Dict.get gone out.ledger
        ≡ (if before && not (contains gone files_on_disk) then none else Dict.get gone []))
reconcile_converges_example =
    reconcile_converges String files_on_disk index empty [] gone
      (index_after-IsExact String tokens_of no_vector history)

-- The file was indexed and is not any more.
sweep_run :
    (contains gone (indexed_files String index) ≡ true)
    × (contains gone (indexed_files String (reconcile String files_on_disk index empty []).search)
        ≡ false)
unfolding index_after reconcile index_chunks indexed_files delete_by_file join Dict.get Dict.set
    Dict.remove Sort.sorted file_keys delete_file
sweep_run = (refl, refl)

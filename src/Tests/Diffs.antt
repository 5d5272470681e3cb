-- ===== src/Tests/Diffs.antt =====
-- Runs of the diff parser and of the reindexer, on an estate of one service.
use vectural.Prelude.{
  ◌≡◌, ◌⊎◌, refl, contains, some_of, false, contains, true, false, String, none, some, List, [],
  ◌∷◌, All, arith, string_key, pair_key,
}
use vectural.Prelude.Dict
use vectural.Prelude.Dict.{IsDistinct}
use vectural.Graph.Store.{empty}
use vectural.Flows.Models.{approved, FlowNarrative, FlowStore}
use vectural.Flows.Service.{evidence_for}
use vectural.Flows.Service.Invalidation.{IsKeyed}
use vectural.Freshness.{FreshnessState, is_stale}
use vectural.Freshness.Diff.{
  FileChange, modified, deleted, renamed, is_tab, is_break, parse_name_status,
}
use vectural.Freshness.Diff.Printing.{
  GitChange, git_renamed, git_copied, git_modified, git_other, git_deleted, meanings, print_changes,
  parse-print,
}
use vectural.Freshness.Reindex.{Estate, Stores, no_result, has_hash, upsert_file, reindex}
use vectural.Freshness.Reindex.Steps.{concerns}
use vectural.Freshness.Reindex.Cascade.{reindex_cascade, upsert_file-hash}

abbrev changes : List FileChange
changes =
    record { status = renamed; path = "b.py"; old_path = some "a.py" }
    ∷ record { status = modified; path = "c.py"; old_path = none }
    ∷ record { status = deleted; path = "d.py"; old_path = none }
    ∷ []

abbrev lines : List GitChange
lines =
    git_renamed "096" "a.py" "b.py"
    ∷ git_copied "075" "b.py" "e.py"
    ∷ git_modified "c d.py"
    ∷ git_other "T" "f"
    ∷ git_deleted "d.py"
    ∷ []

parse-print_example : parse_name_status (print_changes lines) ≡ meanings lines
unfolding is_tab is_break
parse-print_example = parse-print lines (refl, (refl, (refl, (refl, (refl, tt)))))

-- The index is the list of the files in it; a file's bytes are its path.
abbrev estate : Estate (List String) String String
estate = record {
  service_for_path = λ path. some "payments";
  file = λ path. some path;
  content_hash = λ source. source;
  ingest_file = λ source owner path. (path ∷ [], record { nodes = []; edges = [] });
  delete_by_file = λ owner path index. index;
  index = λ chunks index. index;
  is_indexed = λ owner path index. false;
  prompt_version = "v1";
  now = 7;
}

abbrev start : Stores (List String) String String
start = record { search = []; graph = empty; ledger = []; result = no_result }

abbrev refund : FlowNarrative
refund = record {
  id = "flow-1";
  title = "Refund";
  services = "payments" ∷ "ledger" ∷ [];
  trigger = "POST /refund";
  signature = "payments>ledger";
  text = "A refund.";
  summary = "Refund";
  prompt_version = "flow-v0";
  content_hash = "old";
  status = approved;
  review_reason = none;
  last_approved_text = some "A refund.";
  last_approved_by = some "ana";
  last_approved_at = some 1;
  updated_at = 1;
}

abbrev flows : FlowStore
flows = ("flow-1", refund) ∷ []

own_key : (k : String) (n : FlowNarrative) → Dict.get k flows ≡ some n → n.id ≡ k
unfolding Dict.get
own_key k n e = ground (arith, e, string_key.same_iff "flow-1" k)

one_flow : IsDistinct flows
unfolding Dict.get
one_flow = (refl, tt)

flows_keyed : IsKeyed flows
flows_keyed = record { own_id = own_key; distinct = one_flow }

abbrev fresh_marks : FreshnessState
fresh_marks = record { stale = [] }

upsert_file-hash_example :
    has_hash "a.py" (
      Dict.get
        ("payments", "a.py")
        (upsert_file (List String) String String estate "a.py" none start).ledger)
    ≡ true
upsert_file-hash_example =
    upsert_file-hash (List String) String String estate "a.py" "payments" none "a.py" start refl
      refl

reindex_cascade_example :
    let out =
      reindex (List String) String String estate changes (some fresh_marks) (some flows) start in
    (f' : FreshnessState) × (store' : FlowStore) × (out.freshness ≡ some f')
    × (out.flows ≡ some store')
    × (((is_stale "payments" f' ≡ true)
          × All (λ n. contains "payments" n.services ≡ false) (evidence_for ("ledger" ∷ []) store'))
        ⊎ (((path : String)
              → Dict.get ("payments", path) out.stores.ledger
                ≡ Dict.get ("payments", path) start.ledger)
            × (some_of (concerns (List String) String String estate "payments" start.ledger) changes
                ≡ false)))
reindex_cascade_example =
    reindex_cascade (List String) String String estate changes fresh_marks flows start
      ("ledger" ∷ []) "payments" flows_keyed

-- The diff concerns the service.
diff_concerns :
    some_of (concerns (List String) String String estate "payments" start.ledger) changes ≡ true
unfolding concerns
diff_concerns = refl

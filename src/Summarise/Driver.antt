-- ===== src/Summarise/Driver.antt =====
-- backend/summarise/driver.py: one pass over the files of a service. `S` is `FileSummary`, whose
-- validation is a parameter, and `W` the router's world. An exception that nothing catches ends
-- the pass as `failure`, with the stores as they are then.
pub mod Visits
pub mod Spent
pub mod Resume
use Prim.Native.String.{◌++◌ as ◌+++◌}
use vectural.Prelude.{
  ℕ, zero, suc, ◌+◌, Bool, true, false, not, ◌&&◌, String, Option, none, some, List, [], ◌∷◌, ◌++◌,
  Key, string_key, nat_key, pair_key, ◌==◌, ltb, if◌then◌else◌,
}
use vectural.Prelude.Float.{Floats}
use vectural.Prelude.Dict
use vectural.Prelude.Dict.{Dict}
use vectural.Domain.{Persona, file_summary}
use vectural.Llm.Base.{total_tokens}
use vectural.Llm.Failures.{
  Failure, quota_exhausted, content, transient, value_error, fatal, Result, ok, raised,
}
use vectural.Llm.Catalog.{Catalog}
use vectural.Llm.Router.{Router, Payload, RoutedResponse, route}
use vectural.Quota.Ledger.{QuotaPool}
use vectural.Quota.Governor.{request_indexing_budget}
use vectural.Summarise.Ledger.{
  FileLedgerEntry, FileLedger, DeadLetterEntry, summarised, dead_lettered, found_matches,
  upsert_entry, estimate_tier1_cost, estimate_prompt_tokens, render_tier1_prompt,
}

pub data SummariseOutcome : Type 0 where
  was_summarised was_skipped was_dead_lettered was_held : SummariseOutcome

pub record FileToSummarise : Type 0 where
  pub service : String
  pub path : String
  pub content : String
  pub content_hash : Option String

abbrev pub key_of : FileToSummarise → String × String
key_of f = (f.service, f.path)

pub record FileResultRow : Type 0 where
  pub service : String
  pub path : String
  pub outcome : SummariseOutcome
  pub tokens : ℕ

unfoldable pub row_of : FileToSummarise → SummariseOutcome → ℕ → FileResultRow
row_of f outcome tokens = record {
  service = f.service;
  path = f.path;
  outcome = outcome;
  tokens = tokens;
}

module _ (F : Floats) (W J S : Type 0) where
  pub record SummaryRecord : Type 0 where
    pub text : String
    pub data_of : S
    pub content_hash : String
    pub prompt_version : String
    pub updated_at : ℕ

  -- The arguments of `summarise_files` that no file changes; `now` and `today` are one moment.
  pub record Deps : Type 0 where
    pub router : Router F W J
    pub catalog : Catalog
    pub pool_of : W → QuotaPool F
    pub sha : String → String
    pub validate : Option J → Option S
    pub purpose : S → String
    pub now : ℕ
    pub today : ℕ
    pub persona : Option Persona
    pub prompt_version : String
    pub max_input_tokens : ℕ

  -- The stores: those that are given, and the report's summaries. Tier-1 records are kept under
  -- the tier and the file's key.
  pub record Books : Type 0 where
    pub ledger : FileLedger
    pub dead_letters : List DeadLetterEntry
    pub summary_store : Option (Dict (ℕ × String) SummaryRecord)
    pub summaries : Dict String S

  -- `FileToSummarise.hash`
  unfoldable pub hash : Deps → FileToSummarise → String
  hash d f = elim f.content_hash [
    | none ↦ d.sha f.content
    | some h ↦ if h == "" then d.sha f.content else h
  ]

  -- `_dead_letter`
  unfoldable pub dead_letter : Deps → FileToSummarise → String → String → Books → Books
  dead_letter d f kind h b = record b {
    dead_letters =
        b.dead_letters
        ++ record { service = f.service; path = f.path; kind = kind; at = d.now } ∷ [];
    ledger =
        upsert_entry
          (record {
            service = f.service;
            path = f.path;
            content_hash = h;
            prompt_version = d.prompt_version;
            tier = 0;
            status = dead_lettered;
            updated_at = d.now;
          })
          b.ledger;
  }

  unfoldable pub store_summary : Deps → String → String → S → Books → Books
  store_summary d key h s b =
      let r : SummaryRecord = record {
        text = d.purpose s;
        data_of = s;
        content_hash = h;
        prompt_version = d.prompt_version;
        updated_at = d.now;
      } in
      record b {
        summaries = Dict.set key s b.summaries;
        summary_store = elim b.summary_store [
          | none ↦ none
          | some store ↦ some (Dict.set (1, key) r store)
        ];
      }

  -- the success of `_summarise_one`
  unfoldable pub record_summary : Deps → FileToSummarise → String → S → Books → Books
  unfolding store_summary
  record_summary d f h s b =
      let stored = store_summary d (f.service +++ ":" +++ f.path) h s b in
      record stored {
        ledger =
            upsert_entry
              (record {
                service = f.service;
                path = f.path;
                content_hash = h;
                prompt_version = d.prompt_version;
                tier = 1;
                status = summarised;
                updated_at = d.now;
              })
              stored.ledger;
      }

  -- What a file leads to; a `failure` ends the pass before a row is written.
  pub record Visit : Type 0 where
    pub failure : Option Failure
    pub outcome : SummariseOutcome
    pub tokens : ℕ
    pub held : Bool
    pub books : Books
    pub world : W

  abbrev pub visited : SummariseOutcome → ℕ → Bool → Books → W → Visit
  visited outcome tokens held b w = record {
    failure = none;
    outcome = outcome;
    tokens = tokens;
    held = held;
    books = b;
    world = w;
  }

  unfoldable pub accept : Deps → FileToSummarise → String → ℕ → Books → W → Option S → Visit
  accept d f h tokens b w none =
      visited was_dead_lettered tokens false (dead_letter d f "schema_mismatch" h b) w
  accept d f h tokens b w (some s) =
      visited was_summarised tokens false (record_summary d f h s b) w

  -- the handlers of `_summarise_one`, and what follows them
  unfoldable pub finish :
      Deps → FileToSummarise → String → Books → W → Result (RoutedResponse J) → Visit
  unfolding accept
  finish d f h b w (ok response) =
      accept d f h (total_tokens response.usage) b w (d.validate response.parsed)
  finish d f h b w (raised (content kind)) =
      visited was_dead_lettered 0 false (dead_letter d f kind h b) w
  finish d f h b w (raised quota_exhausted) = visited was_held 0 false b w
  finish d f h b w (raised transient) = record (visited was_held 0 false b w) {
    failure = some transient;
  }
  finish d f h b w (raised value_error) = record (visited was_held 0 false b w) {
    failure = some value_error;
  }
  finish d f h b w (raised fatal) = record (visited was_held 0 false b w) { failure = some fatal }

  abbrev prompt_payload : String → Payload
  prompt_payload prompt = record {
    prompt = some prompt;
    system = none;
    max_tokens = none;
    model_override_id = none;
  }

  -- `0 < max_input_tokens < estimated`
  unfoldable pub is_oversized : Deps → FileToSummarise → Bool
  is_oversized d f =
      ltb 0 d.max_input_tokens
      && ltb d.max_input_tokens (estimate_prompt_tokens (render_tier1_prompt f.path f.content))

  unfoldable pub routed : Deps → FileToSummarise → W → Result (RoutedResponse J) × W
  routed d f w =
      route F W J d.router d.catalog file_summary d.prompt_version
        (prompt_payload (render_tier1_prompt f.path f.content)) d.persona w

  unfoldable pub summarise_one : Deps → FileToSummarise → String → Books → W → Visit
  unfolding finish is_oversized routed
  summarise_one d f h b w =
      let (answer, w') = routed d f w in
      if is_oversized d f
      then visited was_dead_lettered 0 false (dead_letter d f "oversized_file" h b) w
      else finish d f h b w' answer

  -- the ledger says that the file needs no call
  unfoldable pub is_current : Deps → FileLedger → FileToSummarise → Bool
  is_current d ledger f = found_matches (hash d f) d.prompt_version (Dict.get (key_of f) ledger)

  -- the governor's answer for a file
  unfoldable pub is_funded : Deps → W → FileToSummarise → Bool
  is_funded d w f =
      let decision =
        request_indexing_budget F (d.pool_of w) (estimate_tier1_cost f.content) d.today in
      decision.proceed

  -- the body of the loop of `summarise_files`, up to the row
  unfoldable pub visit : Deps → Bool → Books → W → FileToSummarise → Visit
  unfolding summarise_one is_current is_funded
  visit d held b w f =
      let call = summarise_one d f (hash d f) b w in
      if held
      then visited was_held 0 true b w
      else if is_current d b.ledger f
      then visited was_skipped 0 false b w
      else if not (is_funded d w f)
      then visited was_held 0 true b w
      else call

  -- The state of the loop; `rows` and `tokens_spent` are the report's.
  pub record Pass : Type 0 where
    pub rows : List FileResultRow
    pub tokens_spent : ℕ
    pub held : Bool
    pub books : Books
    pub world : W

  unfoldable pub add_row : FileToSummarise → Visit → Pass → Pass
  add_row f v p = record {
    rows = p.rows ++ row_of f v.outcome v.tokens ∷ [];
    tokens_spent = p.tokens_spent + v.tokens;
    held = v.held;
    books = v.books;
    world = v.world;
  }

  unfoldable pub after :
      Pass → Visit → Option Failure × Pass → Option Failure → Option Failure × Pass
  after p v rest none = rest
  after p v rest (some e) = (some e, record p { books = v.books; world = v.world })

  unfoldable pub pass : Deps → List FileToSummarise → Pass → Option Failure × Pass
  unfolding visit add_row after
  pass d [] p = (none, p)
  pass d (f ∷ fs) p =
      let v = visit d p.held p.books p.world f in
      let rest = pass d fs (add_row f v p) in after p v rest v.failure

  abbrev pub start : Books → W → Pass
  start b w = record { rows = []; tokens_spent = 0; held = false; books = b; world = w }

  unfoldable pub summarise_files : Deps → List FileToSummarise → Books → W → Option Failure × Pass
  unfolding pass
  summarise_files d files b w = pass d files (start b w)

-- ===== src/Tests/Summaries.antt =====
-- Runs of the summariser over two files.
use vectural.Prelude.{
  ℕ, ◌≡◌, refl, true, String, Option, none, some, List, [], ◌∷◌, map, sum_of, all_of,
}
use vectural.Prelude.Dict
use vectural.Prelude.Text.{is_space}
use vectural.Llm.Base.{total_tokens}
use vectural.Llm.Failures.{Failure, should_retry}
use vectural.Llm.Catalog.{initial, find, task_uses_json}
use vectural.Llm.Router.{route}
use vectural.Quota.Ledger.{
  indexing_available, cumulative_indexing_allowance, weekly_tranche, indexing_budget, week_index,
  record_usage,
}
use vectural.Quota.Governor.{request_indexing_budget}
use vectural.Summarise.Ledger.{
  found_matches, upsert_entry, estimate_tier1_cost, estimate_prompt_tokens, render_tier1_prompt,
}
use vectural.Summarise.Driver.{
  FileToSummarise, Deps, Books, Pass, summarise_files, record_summary, row_of, start,
}
use vectural.Summarise.Driver.Visits.{row_done}
use vectural.Summarise.Driver.Spent.{summarise_files-spent}
use vectural.Summarise.Driver.Resume.{skipped, summarise_again}
use vectural.Tests.Tenths.{tenths}
use vectural.Tests.ModelCalls.{World, router, fresh}

abbrev pay : FileToSummarise
pay = record {
  service = "payments";
  path = "payments/pay.py";
  content = "def pay(): ...";
  content_hash = none;
}

abbrev book : FileToSummarise
book = record {
  service = "ledger";
  path = "ledger/book.py";
  content = "x = 1";
  content_hash = some "abc";
}

abbrev files : List FileToSummarise
files = pay ∷ book ∷ []

abbrev deps : Deps tenths World ℕ String
deps = record {
  router = router;
  catalog = initial;
  pool_of = λ w. record (w.0.pool) { period_start = 100 };
  sha = λ s. s;
  validate = λ j. some "A purpose.";
  purpose = λ s. s;
  now = 7;
  today = 107;
  persona = none;
  prompt_version = "file-v1";
  max_input_tokens = 96000;
}

abbrev books : Books tenths World ℕ String
books = record { ledger = []; dead_letters = []; summary_store = none; summaries = [] }

abbrev first : Option Failure × Pass tenths World ℕ String
first = summarise_files tenths World ℕ String deps files books fresh

clean : first.0 ≡ none
unfolding summarise_files found_matches Dict.get request_indexing_budget estimate_tier1_cost
    is_space indexing_available cumulative_indexing_allowance weekly_tranche indexing_budget
    week_index estimate_prompt_tokens render_tier1_prompt route find should_retry task_uses_json
    record_summary total_tokens upsert_entry Dict.set record_usage row_of
clean = refl

done : all_of row_done first.1.rows ≡ true
unfolding summarise_files found_matches Dict.get request_indexing_budget estimate_tier1_cost
    is_space indexing_available cumulative_indexing_allowance weekly_tranche indexing_budget
    week_index estimate_prompt_tokens render_tier1_prompt route find should_retry task_uses_json
    record_summary total_tokens upsert_entry Dict.set record_usage row_of
done = refl

summarise_again_example : summarise_files tenths World ℕ String deps files first.1.books fresh ≡ (
  none,
  record (start tenths World ℕ String first.1.books fresh) {
    rows = map (skipped tenths World ℕ String deps) files;
  },
)
summarise_again_example =
    summarise_again tenths World ℕ String deps files books fresh fresh ((refl, tt), (tt, tt)) clean
      done

summarise_files-spent_example : first.1.tokens_spent ≡ sum_of (λ row. row.tokens) first.1.rows
summarise_files-spent_example = summarise_files-spent tenths World ℕ String deps files books fresh

-- ===== src/Summarise/Ledger.antt =====
-- backend/persistence/file_ledger.py and dead_letter.py, and the estimates of
-- backend/summarise/tiers.py.
use Prim.Native.String.{◌++◌ as ◌+++◌}
use vectural.Prelude.{
  ℕ, suc, ◌+◌, ◌/◌, Bool, true, false, ◌&&◌, String, Option, none, some, string_key, pair_key, ◌==◌,
  nat_beq, if◌then◌else◌,
}
use vectural.Prelude.Text.{is_space}
use vectural.Prelude.Dict
use vectural.Prelude.Dict.{Dict}

pub data FileStatus : Type 0 where
  pending summarised dead_lettered : FileStatus

pub record FileLedgerEntry : Type 0 where
  pub service : String
  pub path : String
  pub content_hash : String
  pub prompt_version : String
  pub tier : ℕ
  pub status : FileStatus
  pub updated_at : ℕ

unfoldable pub is_summarised : FileStatus → Bool
is_summarised pending = false
is_summarised summarised = true
is_summarised dead_lettered = false

unfoldable pub matches : String → String → FileLedgerEntry → Bool
unfolding is_summarised
matches hash version e =
    is_summarised e.status && e.content_hash == hash && e.prompt_version == version

-- `existing is not None and existing.matches(h, prompt_version)`
unfoldable pub found_matches : String → String → Option FileLedgerEntry → Bool
unfolding matches
found_matches hash version none = false
found_matches hash version (some e) = matches hash version e

abbrev pub FileLedger : Type 0
FileLedger = Dict (String × String) FileLedgerEntry

-- `InMemoryFileLedger.upsert`
unfoldable pub upsert_entry : FileLedgerEntry → FileLedger → FileLedger
upsert_entry e ledger = Dict.set (e.service, e.path) e ledger

-- `InMemoryFileLedger.delete`
unfoldable pub delete_entry : String → String → FileLedger → FileLedger
delete_entry service path ledger = Dict.remove (service, path) ledger

-- A dead letter; the text of its `detail` is left out.
pub record DeadLetterEntry : Type 0 where
  pub service : String
  pub path : String
  pub kind : String
  pub at : ℕ

-- `len(s)`
str_length : String → ℕ
str_length String.[] = 0
str_length (String.◌∷◌ c s) = suc (str_length s)

-- `len(s.split())`, after a character that is white space or not
words_after : Bool → String → ℕ
words_after spaced String.[] = 0
words_after spaced (String.◌∷◌ c s) =
    let more = words_after (is_space c) s in
    if is_space c then more else if spaced then suc more else more

unfoldable pub estimate_tier1_cost : String → ℕ
unfolding words_after
estimate_tier1_cost content =
    let words = words_after true content in (if nat_beq words 0 then 1 else words) + 120 + 40

unfoldable pub render_tier1_prompt : String → String → String
render_tier1_prompt path content =
    "Summarise this source file as JSON with keys "
    +++ "purpose, key_operations, business_concepts, external_calls.\n" +++ "# file: " +++ path
    +++ "\n" +++ content

-- `math.ceil(len(prompt) / 3.0)`, for a length that a float holds
unfoldable pub estimate_prompt_tokens : String → ℕ
unfolding str_length
estimate_prompt_tokens prompt = (str_length prompt + 2) / 3

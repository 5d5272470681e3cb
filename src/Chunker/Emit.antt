-- ===== src/Chunker/Emit.antt =====
-- `chunk_source` of backend/ingestion/chunker.py. The parser, the hash and the decoding of bytes are
-- parameters: `parse` gives the tree's root, `sha` the first 16 hexadecimal digits of SHA-256.
use vectural.Prelude.{
  ℕ, zero, suc, ◌+◌, ◌-◌, Bool, false, ◌&&◌, ◌||◌, String, Option, none, some, List, [], ◌∷◌, ◌++◌,
  take, drop, contains, nat_key, pair_key, string_key, ◌==◌, leb, ltb, nat_beq, if◌then◌else◌,
}
use vectural.Prelude.Sort.{sorted}
use vectural.Prelude.Text.{strip, join}
use vectural.Chunker.Rows.{ChunkKind, Def, Line, Span, span_of, module_residue, whole_file_module}
use vectural.Chunker.Tree.{Node, LanguageSpec, collect}

-- What `chunk_source` calls outside of the file.
pub record Host : Type 0 where
  pub parse : List ℕ → Node
  pub decode : List ℕ → String
  pub sha : String → String
  pub decimal : ℕ → String

-- `Chunk`; `language` and `doc_type` are set from the arguments alone
pub record Chunk : Type 0 where
  pub chunk_id : String
  pub service : String
  pub path : String
  pub kind : ChunkKind
  pub span : Span
  pub content : String
  pub identifiers : List String
  pub symbol : Option String
  pub commit_sha : String
  pub content_hash : String

-- What `chunk_source` is told of the file.
pub record FileInfo : Type 0 where
  pub service : String
  pub path : String
  pub commit_sha : String

-- `source.split(b"\n")`
add_to_first : ℕ → List Line → List Line
add_to_first b [] = (b ∷ []) ∷ []
add_to_first b (l ∷ ls) = (b ∷ l) ∷ ls

unfoldable pub split_lines : List ℕ → List Line
unfolding add_to_first
split_lines [] = [] ∷ []
split_lines (b ∷ bs) =
    let rest = split_lines bs in if nat_beq b 10 then [] ∷ rest else add_to_first b rest

-- `b"\n".join(lines)`
unfoldable pub join_lines : List Line → List ℕ
join_lines [] = []
join_lines (l ∷ []) = l
join_lines (l ∷ m ∷ ls) = l ++ 10 ∷ join_lines (m ∷ ls)

-- The slice of `_slice_lines`; taking past the end stops at it, as its `min` does.
unfoldable pub slice_lines : List Line → ℕ → ℕ → List ℕ
unfolding join_lines
slice_lines lines start_row end_row =
    join_lines (take (end_row + 1 - start_row) (drop start_row lines))

-- `s[:n]`
unfoldable pub take_chars : ℕ → String → String
take_chars zero s = ""
take_chars (suc n) String.[] = ""
take_chars (suc n) (String.◌∷◌ c s) = String.◌∷◌ c (take_chars n s)

unfoldable pub build_chunk : Host → FileInfo → String → Def → Chunk
unfolding take_chars
build_chunk host file content d =
    let content_hash = host.sha content in
    let span_text =
      join "" (host.decimal (d.start_row + 1) ∷ "-" ∷ host.decimal (d.end_row + 1) ∷ []) in
    record {
      chunk_id = join ":" (file.service ∷ file.path ∷ span_text ∷ take_chars 8 content_hash ∷ []);
      service = file.service;
      path = file.path;
      kind = d.kind;
      span = (d.start_row + 1, d.end_row + 1);
      content = content;
      identifiers = d.identifiers;
      symbol = d.symbol;
      commit_sha = file.commit_sha;
      content_hash = content_hash;
    }

-- the loop over the drafts
unfoldable pub emit : Host → FileInfo → List Line → List Span → List Def → List Chunk
unfolding build_chunk slice_lines
emit host file lines seen_spans [] = []
emit host file lines seen_spans (d ∷ drafts) =
    let content = host.decode (slice_lines lines d.start_row d.end_row) in
    let same = emit host file lines seen_spans drafts in
    let others = emit host file lines (span_of d ∷ seen_spans) drafts in
    if contains (span_of d) seen_spans
    then same
    else if strip content == ""
    then others
    else build_chunk host file content d ∷ others

-- `(d.start_row, d.end_row)` in the order of tuples
unfoldable pub no_later : Def → Def → Bool
no_later a b =
    ltb a.start_row b.start_row || nat_beq a.start_row b.start_row && leb a.end_row b.end_row

-- the drafts of `chunk_source`, before the loop
unfoldable pub drafts_of : Host → Option LanguageSpec → List ℕ → ℕ → List Def
drafts_of host none source window = whole_file_module (split_lines source) window
drafts_of host (some spec) source window =
    let (defs, containers) = collect spec false [] (host.parse source) in
    sorted no_later (defs ++ module_residue (split_lines source) defs containers window)

unfoldable pub chunk_source : Host → FileInfo → Option LanguageSpec → List ℕ → ℕ → List Chunk
unfolding drafts_of emit
chunk_source host file spec source window =
    emit host file (split_lines source) [] (drafts_of host spec source window)

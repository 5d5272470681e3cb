-- ===== src/Retrieval.antt =====
-- backend/retrieval/inmemory.py: the documents of the in-memory index and the statistics that its
-- ranking reads. `V` is the vectors; the tokenizer and the choice of a document's vector are
-- parameters, and the ranking itself is not here.
pub mod Statistics
pub mod Deletion
use vectural.Prelude.{
  ℕ, zero, suc, ◌+◌, ◌-◌, Bool, true, false, ◌&&◌, String, Option, none, some, List, [], ◌∷◌, ◌++◌,
  map, keep, length, string_key, ◌==◌, leb, if◌then◌else◌,
}
use vectural.Prelude.Text.{join}
use vectural.Prelude.Dict
use vectural.Prelude.Dict.{Dict}
use vectural.Chunker.Emit.{Chunk}

-- `collections.Counter` on the terms of a text, which is also how terms enter the frequencies
unfoldable pub add_terms : List String → Dict String ℕ → Dict String ℕ
add_terms [] df = df
add_terms (t ∷ ts) df = add_terms ts (Dict.set t (Dict.get_or t 0 df + 1) df)

unfoldable pub drop_term : String → Dict String ℕ → Dict String ℕ
drop_term t df =
    let n = Dict.get_or t 0 df in if leb n 1 then Dict.remove t df else Dict.set t (n - 1) df

unfoldable pub drop_terms : List String → Dict String ℕ → Dict String ℕ
unfolding drop_term
drop_terms [] df = df
drop_terms (t ∷ ts) df = drop_terms ts (drop_term t df)

total : List ℕ → ℕ
total [] = 0
total (n ∷ ns) = n + total ns

symbol_part : Option String → List String
symbol_part none = []
symbol_part (some s) = if s == "" then [] else s ∷ []

searchable_text : Chunk → String
unfolding symbol_part
searchable_text c = join "\n" (c.content ∷ join " " c.identifiers ∷ symbol_part c.symbol)

module _ (V : Type 0) where
  pub record Doc : Type 0 where
    pub chunk : Chunk
    pub tokens : Dict String ℕ
    pub length : ℕ
    pub vector : Option V

  pub record SearchIndex : Type 0 where
    pub docs : Dict String Doc
    pub df : Dict String ℕ
    pub total_length : ℕ

  abbrev pub empty_index : SearchIndex
  empty_index = record { docs = []; df = []; total_length = 0 }

  -- `_remove`, of a document that is there
  unfoldable pub remove_found : String → Option Doc → SearchIndex → SearchIndex
  remove_found id none s = s
  remove_found id (some doc) s = record {
    docs = Dict.remove id s.docs;
    df = drop_terms (Dict.keys doc.tokens) s.df;
    total_length = s.total_length - doc.length;
  }

  unfoldable pub remove_doc : String → SearchIndex → SearchIndex
  unfolding remove_found
  remove_doc id s = remove_found id (Dict.get id s.docs) s

  unfoldable pub remove_docs : List String → SearchIndex → SearchIndex
  unfolding remove_doc
  remove_docs [] s = s
  remove_docs (id ∷ ids) s = remove_docs ids (remove_doc id s)

  -- the ids of the documents that pass a test
  ids_of : (Chunk → Bool) → SearchIndex → List String
  ids_of test s = Dict.keys (keep (λ (p : String × Doc). test p.1.chunk) s.docs)

  -- how many documents went, and the index without them
  unfoldable pub delete_where : (Chunk → Bool) → SearchIndex → ℕ × SearchIndex
  unfolding remove_docs ids_of
  delete_where test s = let ids = ids_of test s in (length ids, remove_docs ids s)

  unfoldable pub delete_by_file : String → String → SearchIndex → ℕ × SearchIndex
  unfolding delete_where
  delete_by_file service path s = delete_where (λ c. c.service == service && c.path == path) s

  unfoldable pub delete_service : String → SearchIndex → ℕ × SearchIndex
  unfolding delete_where
  delete_service service s = delete_where (λ c. c.service == service) s

  unfoldable pub indexed_files : SearchIndex → List (String × String)
  indexed_files s = map (λ (d : Doc). (d.chunk.service, d.chunk.path)) (Dict.values s.docs)

  -- `docs[id] = doc`, with its terms and its length
  unfoldable pub put_doc : String → Doc → SearchIndex → SearchIndex
  put_doc id doc s = record {
    docs = Dict.set id doc s.docs;
    df = add_terms (Dict.keys doc.tokens) s.df;
    total_length = s.total_length + doc.length;
  }

  module _ (code_tokens : String → List String) (vector_of : Chunk → String → Option V) where
    doc_of : Chunk → Doc
    unfolding searchable_text total add_terms
    doc_of c =
        let tokens = add_terms (code_tokens (searchable_text c)) [] in
        record {
          chunk = c;
          tokens = tokens;
          length = total (Dict.values tokens);
          vector = vector_of c (searchable_text c);
        }

    -- A chunk whose id is there takes the place of the document.
    unfoldable pub index_chunks : List Chunk → SearchIndex → SearchIndex
    unfolding remove_doc put_doc doc_of
    index_chunks [] s = s
    index_chunks (c ∷ cs) s =
        index_chunks cs (put_doc c.chunk_id (doc_of c) (remove_doc c.chunk_id s))

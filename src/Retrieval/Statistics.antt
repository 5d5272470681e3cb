-- ===== src/Retrieval/Statistics.antt =====
-- The term frequencies and the total length that backend/retrieval/inmemory.py keeps beside its
-- documents.
use vectural.Prelude.{
  ℕ, ◌+◌, ◌-◌, ◌≡◌, refl, ap, ◌∙◌, sym, ◌&&◌, String, Option, none, some, List, [], ◌∷◌, string_key,
  ◌==◌, if◌then◌else◌, arith, Bool-cases, inl, inr,
}
use vectural.Prelude.Dict
use vectural.Prelude.Dict.{Dict, IsDistinct}
use vectural.Chunker.Emit.{Chunk}
use vectural.Retrieval.{
  add_terms, drop_term, drop_terms, Doc, SearchIndex, empty_index, remove_found, remove_doc,
  remove_docs, delete_by_file, delete_service, delete_where, put_doc, index_chunks, doc_of, ids_of,
}

-- how often a term stands in a list
abbrev pub occurrences : String → List String → ℕ
occurrences t [] = 0
occurrences t (x ∷ xs) = (if x == t then 1 else 0) + occurrences t xs

abbrev pub frequency : String → Dict String ℕ → ℕ
frequency t df = Dict.get_or t 0 df

frequency-add_terms :
    (t : String) (ts : List String) (df : Dict String ℕ)
    → frequency t (add_terms ts df) ≡ frequency t df + occurrences t ts
unfolding add_terms
frequency-add_terms t [] df = omega arith
frequency-add_terms t (x ∷ ts) df =
    frequency-add_terms t ts (Dict.set x (Dict.get_or x 0 df + 1) df)
    ∙ ground (arith, Dict.get-set x t (Dict.get_or x 0 df + 1) df, string_key.same_iff x t)

frequency-drop_term :
    (t x : String) (df : Dict String ℕ)
    → frequency t (drop_term x df) ≡ frequency t df - (if x == t then 1 else 0)
unfolding drop_term
frequency-drop_term t x df = ground (
  arith,
  Dict.get-set x t (Dict.get_or x 0 df - 1) df,
  Dict.get-remove x t df,
  string_key.same_iff x t,
)

frequency-drop_terms :
    (t : String) (ts : List String) (df : Dict String ℕ)
    → frequency t (drop_terms ts df) ≡ frequency t df - occurrences t ts
unfolding drop_terms
frequency-drop_terms t [] df = omega arith
frequency-drop_terms t (x ∷ ts) df =
    frequency-drop_terms t ts (drop_term x df) ∙ ground (arith, frequency-drop_term t x df)

module _ {D : Type 0} where
  abbrev pub sum_of : (D → ℕ) → Dict String D → ℕ
  sum_of f [] = 0
  sum_of f ((k, d) ∷ docs) = f d + sum_of f docs

  sum-set :
      (f : D → ℕ) (k : String) (v : D) (docs : Dict String D)
      → Dict.get k docs ≡ none
      → sum_of f (Dict.set k v docs) ≡ sum_of f docs + f v
  unfolding Dict.set Dict.get
  sum-set f k v [] h = omega arith
  sum-set f k v ((j, w) ∷ docs) h = ground (arith, h, sum-set f k v docs)

  sum-remove_absent :
      (f : D → ℕ) (k : String) (docs : Dict String D)
      → Dict.get k docs ≡ none
      → sum_of f (Dict.remove k docs) ≡ sum_of f docs
  unfolding Dict.remove Dict.get
  sum-remove_absent f k [] h = refl
  sum-remove_absent f k ((j, w) ∷ docs) h = ground (arith, h, sum-remove_absent f k docs)

  sum-remove :
      (f : D → ℕ) (k : String) (v : D) (docs : Dict String D)
      → IsDistinct docs
      → Dict.get k docs ≡ some v
      → sum_of f docs ≡ f v + sum_of f (Dict.remove k docs)
  unfolding Dict.remove Dict.get
  sum-remove f k v [] h e = cc
  sum-remove f k v ((j, w) ∷ docs) h e = elim (Bool-cases (j == k)) [
    | inl same ↦
        (let alike = (string_key.same_iff j k).0 same in
          let rest = sum-remove_absent f k docs (Dict.get-congr docs j k h.0 alike) in
          ground (arith, same, e, rest))
    | inr other ↦ ground (arith, other, e, sum-remove f k v docs h.1)
  ]

  remove-IsDistinct :
      (k : String) (docs : Dict String D) → IsDistinct docs → IsDistinct (Dict.remove k docs)
  unfolding Dict.remove Dict.get
  remove-IsDistinct k [] h = tt
  remove-IsDistinct k ((j, w) ∷ docs) h = elim (Bool-cases (j == k)) [
    | inl same ↦ rw (same, IsDistinct) (remove-IsDistinct k docs h.1)
    | inr other ↦
        rw (other, IsDistinct)
          (ground (arith, h.0, Dict.get-remove k j docs), remove-IsDistinct k docs h.1)
  ]

module _ (V : Type 0) where
  -- how often a term stands among those of a document
  abbrev pub terms : String → Doc V → ℕ
  terms t doc = occurrences t (Dict.keys doc.tokens)

  -- The statistics are those of the documents.
  pub record IsExact (s : SearchIndex V) : Type 0 where
    pub distinct : IsDistinct s.docs
    pub frequencies : (t : String) → frequency t s.df ≡ sum_of (terms t) s.docs
    pub lengths : s.total_length ≡ sum_of (λ (d : Doc V). d.length) s.docs

  remove_found-IsExact :
      (id : String) (found : Option (Doc V)) (s : SearchIndex V)
      → Dict.get id s.docs ≡ found
      → IsExact s
      → IsExact (remove_found V id found s)
  unfolding remove_found
  remove_found-IsExact id none s e x = x
  remove_found-IsExact id (some doc) s e x = record {
    distinct = remove-IsDistinct id s.docs x.distinct;
    frequencies = λ t.
        frequency-drop_terms t (Dict.keys doc.tokens) s.df
        ∙ (let before = x.frequencies t in
            let split = sum-remove (terms t) id doc s.docs x.distinct e in
            ground (arith, before, split));
    lengths =
        (let before = x.lengths in
          let split = sum-remove (λ (d : Doc V). d.length) id doc s.docs x.distinct e in
          ground (arith, before, split));
  }

  remove_doc-IsExact : (id : String) (s : SearchIndex V) → IsExact s → IsExact (remove_doc V id s)
  unfolding remove_doc
  remove_doc-IsExact id s x = remove_found-IsExact id (Dict.get id s.docs) s refl x

  pub remove_docs-IsExact :
      (ids : List String) (s : SearchIndex V) → IsExact s → IsExact (remove_docs V ids s)
  unfolding remove_docs
  remove_docs-IsExact [] s x = x
  remove_docs-IsExact (id ∷ ids) s x = remove_docs-IsExact ids _ (remove_doc-IsExact id s x)

  found-removed :
      (id : String) (found : Option (Doc V)) (s : SearchIndex V)
      → Dict.get id s.docs ≡ found
      → Dict.get id (remove_found V id found s).docs ≡ none
  unfolding remove_found
  found-removed id none s e = e
  found-removed id (some doc) s e =
      ground (arith, Dict.get-remove id id s.docs, string_key.same_iff id id)

  put_doc-IsExact :
      (id : String) (doc : Doc V) (s : SearchIndex V)
      → Dict.get id s.docs ≡ none
      → IsExact s
      → IsExact (put_doc V id doc s)
  unfolding put_doc
  put_doc-IsExact id doc s absent x = record {
    distinct = Dict.set-IsDistinct id doc s.docs x.distinct;
    frequencies = λ t.
        frequency-add_terms t (Dict.keys doc.tokens) s.df
        ∙ ap (λ n. n + occurrences t (Dict.keys doc.tokens)) (x.frequencies t)
        ∙ sym (sum-set (terms t) id doc s.docs absent);
    lengths =
        ap (λ n. n + doc.length) x.lengths
        ∙ sym (sum-set (λ (d : Doc V). d.length) id doc s.docs absent);
  }

  module _ (code_tokens : String → List String) (vector_of : Chunk → String → Option V) where
    index_chunks-IsExact :
        (cs : List Chunk) (s : SearchIndex V)
        → IsExact s
        → IsExact (index_chunks V code_tokens vector_of cs s)
    unfolding index_chunks remove_doc
    index_chunks-IsExact [] s x = x
    index_chunks-IsExact (c ∷ cs) s x = index_chunks-IsExact cs _ (
        put_doc-IsExact c.chunk_id (doc_of V code_tokens vector_of c) (remove_doc V c.chunk_id s)
          (found-removed c.chunk_id (Dict.get c.chunk_id s.docs) s refl)
          (remove_doc-IsExact c.chunk_id s x))

    -- what is done to an index
    pub data IndexChange : Type 0 where
      chunks_indexed : List Chunk → IndexChange
      file_deleted : String → String → IndexChange
      service_deleted : String → IndexChange

    unfoldable pub index_after : List IndexChange → SearchIndex V → SearchIndex V
    index_after [] s = s
    index_after (chunks_indexed cs ∷ changes) s =
        index_after changes (index_chunks V code_tokens vector_of cs s)
    index_after (file_deleted service path ∷ changes) s =
        index_after changes (delete_by_file V service path s).1
    index_after (service_deleted service ∷ changes) s =
        index_after changes (delete_service V service s).1

    changed-IsExact :
        (changes : List IndexChange) (s : SearchIndex V)
        → IsExact s
        → IsExact (index_after changes s)
    unfolding index_after delete_by_file delete_service delete_where
    changed-IsExact [] s x = x
    changed-IsExact (chunks_indexed cs ∷ changes) s x =
        changed-IsExact changes _ (index_chunks-IsExact cs s x)
    changed-IsExact (file_deleted service path ∷ changes) s x =
        changed-IsExact changes (delete_by_file V service path s).1
          (remove_docs-IsExact (ids_of V (λ c. c.service == service && c.path == path) s) s x)
    changed-IsExact (service_deleted service ∷ changes) s x =
        changed-IsExact changes (delete_service V service s).1
          (remove_docs-IsExact (ids_of V (λ c. c.service == service) s) s x)

    -- However chunks were indexed, again under their ids or not, and files and services deleted, in
    -- whatever order: no id has two documents, the frequency of each term is how often it stands
    -- among the terms of the documents that are there, and the total length is the sum of theirs.
    pub index_after-IsExact :
        (changes : List IndexChange) → IsExact (index_after changes (empty_index V))
    unfolding index_after Dict.get
    index_after-IsExact changes =
        changed-IsExact changes (empty_index V)
          (record { distinct = tt; frequencies = λ t. refl; lengths = refl })

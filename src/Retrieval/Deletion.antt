-- ===== src/Retrieval/Deletion.antt =====
-- What deleting a file takes from the listing of backend/retrieval/inmemory.py.
use vectural.Prelude.{
  ◌≡◌, refl, sym, ap, ◌∙◌, Bool, true, false, not, ◌&&◌, String, Option, none, some, List, [], ◌∷◌,
  map, keep, contains, string_key, pair_key, ◌==◌, All, if◌then◌else◌, arith, Bool-cases, inl, inr,
}
use vectural.Prelude.Dict
use vectural.Prelude.Dict.{Dict, IsDistinct}
use vectural.Retrieval.{
  Doc, SearchIndex, remove_found, remove_doc, remove_docs, ids_of, delete_where, delete_by_file,
  indexed_files,
}
use vectural.Retrieval.Statistics.{IsExact, remove_docs-IsExact}

All-both :
    {A : Type 0} (P Q R : A → Type 0) (xs : List A)
    → ((x : A) → P x → Q x → R x)
    → All P xs
    → All Q xs
    → All R xs
All-both P Q R [] f h k = tt
All-both P Q R (x ∷ xs) f h k = (f x h.0 k.0, All-both P Q R xs f h.1 k.1)

module _ {D : Type 0} where
  remove_each : List String → Dict String D → Dict String D
  remove_each [] docs = docs
  remove_each (id ∷ ids) docs = remove_each ids (Dict.remove id docs)

  remove-absent :
      (id : String) (docs : Dict String D) → Dict.get id docs ≡ none → Dict.remove id docs ≡ docs
  unfolding Dict.get Dict.remove
  remove-absent id [] h = refl
  remove-absent id ((j, d) ∷ docs) h = ground (arith, h, remove-absent id docs)

  remove_each-cons :
      (ids : List String) (k : String) (d : D) (docs : Dict String D)
      → remove_each ids ((k, d) ∷ docs)
        ≡ (if contains k ids then remove_each ids docs else (k, d) ∷ remove_each ids docs)
  unfolding remove_each Dict.remove
  remove_each-cons [] k d docs = refl
  remove_each-cons (id ∷ ids) k d docs = elim (Bool-cases (k == id)) [
    | inl same ↦ rw (same, if◌then◌else◌) refl
    | inr other ↦ rw (other, if◌then◌else◌) (remove_each-cons ids k d (Dict.remove id docs))
  ]

  keys_apart :
      (k : String) (docs : Dict String D)
      → Dict.get k docs ≡ none
      → All (λ p. (p.0 == k) ≡ false) docs
  unfolding Dict.get
  keys_apart k [] h = tt
  keys_apart k ((j, d) ∷ docs) h = (ground (arith, h), keys_apart k docs (ground (arith, h)))

  module _ (test : D → Bool) where
    ids_passing : Dict String D → List String
    ids_passing docs = Dict.keys (keep (λ (p : String × D). test p.1) docs)

    absent_passing :
        (k : String) (docs : Dict String D)
        → Dict.get k docs ≡ none
        → contains k (ids_passing docs) ≡ false
    unfolding Dict.get ids_passing
    absent_passing k [] h = refl
    absent_passing k ((j, d) ∷ docs) h =
        ground (arith, h, absent_passing k docs, string_key.same_iff j k, string_key.same_iff k j)

    -- The ids that pass are those of the documents that pass.
    ids_exact :
        (docs : Dict String D)
        → IsDistinct docs
        → All (λ p. contains p.0 (ids_passing docs) ≡ test p.1) docs
    unfolding ids_passing
    ids_exact [] h = tt
    ids_exact ((k, d) ∷ docs) h = (
      (let absent = absent_passing k docs h.0 in
          unfold ids_passing in ground (arith, absent, string_key.same_iff k k)),
      All-both (λ p. (p.0 == k) ≡ false) (λ p. contains p.0 (ids_passing docs) ≡ test p.1) _ docs
          (λ p apart e. ground (arith, apart, e)) (keys_apart k docs h.0) (ids_exact docs h.1),
    )

same_as : (key f g : String × String) → (key == f) ≡ true → (key == g) ≡ (f == g)
same_as key f g e = ap (λ x. x == g) ((pair_key.same_iff key f).0 e)

each_none : {D : Type 0} (ids : List String) → remove_each {D = D} ids [] ≡ []
unfolding remove_each Dict.remove
each_none [] = refl
each_none (id ∷ ids) = each_none ids

module _ (V : Type 0) where
  docs-remove_found :
      (id : String) (found : Option (Doc V)) (s : SearchIndex V)
      → Dict.get id s.docs ≡ found
      → (remove_found V id found s).docs ≡ Dict.remove id s.docs
  unfolding remove_found
  docs-remove_found id none s e = sym (remove-absent id s.docs e)
  docs-remove_found id (some doc) s e = refl

  docs-remove_docs :
      (ids : List String) (s : SearchIndex V) → (remove_docs V ids s).docs ≡ remove_each ids s.docs
  unfolding remove_docs remove_doc remove_each
  docs-remove_docs [] s = refl
  docs-remove_docs (id ∷ ids) s =
      docs-remove_docs ids (remove_doc V id s)
      ∙ ap (remove_each ids) (docs-remove_found id (Dict.get id s.docs) s refl)

  file_of : Doc V → String × String
  file_of d = (d.chunk.service, d.chunk.path)

  files_left :
      (service path : String) (key : String × String) (ids : List String)
      (docs : Dict String (Doc V))
      → All (λ p. contains p.0 ids ≡ (p.1.chunk.service == service && p.1.chunk.path == path)) docs
      → contains key (map file_of (Dict.values (remove_each ids docs)))
        ≡ (not (key == (service, path)) && contains key (map file_of (Dict.values docs)))
  unfolding remove_each file_of
  files_left service path key ids [] h =
      ap (λ docs. contains key (map file_of (Dict.values docs))) (each_none ids) ∙ ground arith
  files_left service path key ids ((k, d) ∷ docs) h =
      ap (λ ds. contains key (map file_of (Dict.values ds))) (remove_each-cons ids k d docs)
      ∙ (let rest = files_left service path key ids docs h.1 in
          let here = h.0 in
          elim (Bool-cases (contains k ids)) [
            | inl goes ↦
                (let same =
                    (pair_key.same_iff (file_of d) (service, path)).0
                      (unfold file_of in sym here ∙ goes) in
                  let alike = ap (λ f. key == f) same in
                  rw (goes, if◌then◌else◌) (unfold file_of in ground (arith, rest, alike)))
            | inr stays ↦
                rw (stays, if◌then◌else◌)
                  (let apart = sym here ∙ stays in
                    unfold file_of in
                    ground (
                      arith,
                      rest,
                      apart,
                      same_as key (d.chunk.service, d.chunk.path) (service, path),
                    ))
          ])

  -- Deleting a file takes it from the listing of the index, and nothing else.
  pub indexed_files-delete_by_file :
      (service path : String) (s : SearchIndex V) (key : String × String)
      → IsExact V s
      → contains key (indexed_files V (delete_by_file V service path s).1)
        ≡ (not (key == (service, path)) && contains key (indexed_files V s))
  unfolding delete_by_file delete_where indexed_files ids_of ids_passing file_of
  indexed_files-delete_by_file service path s key x =
      let test : Doc V → Bool = λ d. d.chunk.service == service && d.chunk.path == path in
      let ids = ids_passing test s.docs in
      ap (λ docs. contains key (map file_of (Dict.values docs))) (docs-remove_docs ids s)
      ∙ files_left service path key ids s.docs (ids_exact test s.docs x.distinct)

  pub delete_by_file-IsExact :
      (service path : String) (s : SearchIndex V)
      → IsExact V s
      → IsExact V (delete_by_file V service path s).1
  unfolding delete_by_file delete_where
  delete_by_file-IsExact service path s x =
      remove_docs-IsExact V (ids_of V (λ c. c.service == service && c.path == path) s) s x

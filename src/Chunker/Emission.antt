-- ===== src/Chunker/Emission.antt =====
-- `chunk_source` of backend/ingestion/chunker.py: what its chunks are, whatever the parser gives.
use vectural.Prelude.{
  ℕ, ◌+◌, ◌-◌, ◌≡◌, ◌≢◌, refl, sym, ap, ◌∙◌, Bool, true, false, ◌||◌, String, Option, List, [], ◌∷◌,
  All, All-mono, arith, contains, pair_key, nat_key, string_key, ==_refl, ◌==◌, if_ind,
}
use vectural.Prelude.Text.{strip}
use vectural.Chunker.Rows.{Def, Line, Span, span_of}
use vectural.Chunker.Tree.{LanguageSpec}
use vectural.Chunker.Emit.{
  Host, Chunk, FileInfo, split_lines, slice_lines, build_chunk, emit, drafts_of, chunk_source,
}

-- No two chunks have the same span.
abbrev pub AreApart : List Chunk → Type 0
AreApart [] = Unit
AreApart (c ∷ cs) = All (λ d. d.span ≢ c.span) cs × AreApart cs

-- The rows of a chunk, counted from 0 again.
abbrev rows_span : Chunk → Span
rows_span c = (c.span.0 - 1, c.span.1 - 1)

abbrev IsFresh : List Span → Chunk → Type 0
IsFresh seen c = contains (rows_span c) seen ≡ false

shift_back : (n : ℕ) → n + 1 - 1 ≡ n
shift_back n = omega arith

rows_span-build_chunk :
    (host : Host) (file : FileInfo) (content : String) (d : Def)
    → rows_span (build_chunk host file content d) ≡ span_of d
unfolding build_chunk
rows_span-build_chunk host file content d = λ i. (shift_back d.start_row i, shift_back d.end_row i)

or_false : (b c : Bool) → (b || c) ≡ false → (b ≡ false) × (c ≡ false)
or_false true c h = ground (arith, h)
or_false false c h = (refl, h)

eq_apart : (a b : Span) → (a == b) ≡ false → a ≢ b
eq_apart a b h e =
    let t : (a == b) ≡ true = ap (λ c. a == c) (sym e) ∙ ==_refl a in
    let bad : true ≡ false = sym t ∙ h in ground arith

contains_cons :
    (a b : Span) (seen : List Span)
    → contains a (b ∷ seen) ≡ false
    → contains a seen ≡ false × a ≢ b
contains_cons a b seen h =
    let (head, rest) = or_false (a == b) (contains a seen) h in (rest, λ e. eq_apart a b head e)

emit-IsFresh :
    (host : Host) (file : FileInfo) (lines : List Line) (seen : List Span) (drafts : List Def)
    → All (IsFresh seen) (emit host file lines seen drafts)
unfolding emit
emit-IsFresh host file lines seen [] = tt
emit-IsFresh host file lines seen (d ∷ drafts) =
    let content = host.decode (slice_lines lines d.start_row d.end_row) in
    let same = emit-IsFresh host file lines seen drafts in
    let wider = emit-IsFresh host file lines (span_of d ∷ seen) drafts in
    let others =
      All-mono (IsFresh (span_of d ∷ seen)) (IsFresh seen)
        (emit host file lines (span_of d ∷ seen) drafts)
        (λ c h. (contains_cons (rows_span c) (span_of d) seen h).0) wider in
    if_ind (All (IsFresh seen)) (contains (span_of d) seen) (λ _. same)
      (λ e.
        if_ind (All (IsFresh seen)) (strip content == "") (λ _. others)
          (λ _.
            (ap (λ s. contains s seen) (rows_span-build_chunk host file content d) ∙ e, others)))

emit-AreApart :
    (host : Host) (file : FileInfo) (lines : List Line) (seen : List Span) (drafts : List Def)
    → AreApart (emit host file lines seen drafts)
unfolding emit
emit-AreApart host file lines seen [] = tt
emit-AreApart host file lines seen (d ∷ drafts) =
    let content = host.decode (slice_lines lines d.start_row d.end_row) in
    let later = emit host file lines (span_of d ∷ seen) drafts in
    let rest = emit-AreApart host file lines (span_of d ∷ seen) drafts in
    if_ind AreApart (contains (span_of d) seen) (λ _. emit-AreApart host file lines seen drafts)
      (λ _.
        if_ind AreApart (strip content == "") (λ _. rest)
          (λ _. (
            All-mono (IsFresh (span_of d ∷ seen))
                (λ c. c.span ≢ (build_chunk host file content d).span) later
                (λ c h e.
                  (contains_cons (rows_span c) (span_of d) seen h).1
                    (ap (λ s. (s.0 - 1, s.1 - 1)) e ∙ rows_span-build_chunk host file content d))
                (emit-IsFresh host file lines (span_of d ∷ seen) drafts),
            rest,
          )))

-- Whatever tree the parser gives and whatever the bytes of the file are, no two chunks of the file
-- have the same span.
pub chunk_source-AreApart :
    (host : Host) (file : FileInfo) (spec : Option LanguageSpec) (source : List ℕ) (window : ℕ)
    → AreApart (chunk_source host file spec source window)
unfolding chunk_source
chunk_source-AreApart host file spec source window =
    emit-AreApart host file (split_lines source) [] (drafts_of host spec source window)

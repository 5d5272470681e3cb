-- ===== src/Citations.antt =====
-- backend/answer/citations.py: the citations of an answer against the chunks that were retrieved.
-- `markers_of` stands for the regular expressions: the texts between brackets, outside of fenced
-- blocks, in order.
pub mod Gate
use Prim.Native.Char.{Char, code}
use Prim.Native.String.{◌++◌ as ◌+++◌}
use vectural.Prelude.{
  ℕ, zero, suc, ◌+◌, Bool, true, false, not, ◌&&◌, ◌||◌, String, Option, none, some, List, [], ◌∷◌,
  ◌++◌, length, keep, contains, some_of, Key, string_key, ◌==◌, leb, nat_beq, if◌then◌else◌,
}
use vectural.Prelude.Float.{Floats}
use vectural.Prelude.Text.{is_space, strip, starts_with}
use vectural.Prelude.Dict
use vectural.Prelude.Dict.{Dict}

-- `c in s`, for a character given by its code
has_char : ℕ → String → Bool
has_char c String.[] = false
has_char c (String.◌∷◌ d s) = let rest = has_char c s in nat_beq (code d) c || rest

has_space : String → Bool
has_space String.[] = false
has_space (String.◌∷◌ d s) = let rest = has_space s in is_space d || rest

-- `s.rsplit(":", 1)[-1]`
tail_part : String → String
unfolding has_char
tail_part String.[] = String.[]
tail_part (String.◌∷◌ d s) =
    let rest = tail_part s in
    if has_char 58 s then rest else if nat_beq (code d) 58 then s else String.◌∷◌ d s

-- `p in s`
unfoldable pub has_part : String → String → Bool
unfolding starts_with
has_part p String.[] = starts_with p String.[]
has_part p (String.◌∷◌ d s) = let rest = has_part p s in starts_with p (String.◌∷◌ d s) || rest

-- `s.endswith(p)`
ends_with : String → String → Bool
ends_with p String.[] = p == String.[]
ends_with p (String.◌∷◌ d s) = let rest = ends_with p s in p == String.◌∷◌ d s || rest

is_hex : Char → Bool
is_hex c =
    leb 48 (code c) && leb (code c) 57
    || leb 65 (code c) && leb (code c) 70
    || leb 97 (code c) && leb (code c) 102

-- `[0-9a-fA-F]{6,}`, for the whole text, of which `n` characters have been read
hash_like : ℕ → String → Bool
unfolding is_hex
hash_like n String.[] = leb 6 n
hash_like n (String.◌∷◌ c s) = is_hex c && hash_like (n + 1) s

unfoldable pub looks_like_citation : String → Bool
unfolding has_space has_char hash_like
looks_like_citation marker =
    if has_space marker
    then false
    else has_char 58 marker || has_char 47 marker || hash_like 0 marker

-- the first part of `marker.split(":")` with a slash, or the marker; `part` is read so far
path_part : String → String → String → String
unfolding has_char
path_part marker part String.[] = if has_char 47 part then part else marker
path_part marker part (String.◌∷◌ c s) =
    let next = path_part marker String.[] s in
    let more = path_part marker (part +++ String.◌∷◌ c String.[]) s in
    if nat_beq (code c) 58 then (if has_char 47 part then part else next) else more

-- `extract_markers`, after the regular expressions: stripped, not empty, each once
first_seen : List String → List String → List String
first_seen seen [] = []
first_seen seen (m ∷ ms) =
    let marker = strip m in
    let skip = first_seen seen ms in
    let use_it = marker ∷ first_seen (marker ∷ seen) ms in
    if marker == "" || contains marker seen then skip else use_it

unfoldable pub extract_markers : (String → List String) → String → List String
unfolding first_seen
extract_markers markers_of text = first_seen [] (markers_of text)

module _ (F : Floats) where
  -- What the resolution reads of a `SearchHit`.
  pub record SearchHit : Type 0 where
    pub chunk_id : String
    pub service : String
    pub path : String
    pub score : F.Float

  pub record Citation : Type 0 where
    pub index : ℕ
    pub chunk_id : String
    pub marker : String
    pub service : String
    pub path : String

  pub record CitationResolution : Type 0 where
    pub resolved : List Citation
    pub unresolved : List String
    pub ok : Bool

  -- `max(candidates, key=...)`: the first of the best
  best_of : SearchHit → List SearchHit → SearchHit
  best_of best [] = best
  best_of best (h ∷ hs) = best_of (if F.le h.score best.score then best else h) hs

  only_hit : List SearchHit → Option SearchHit
  only_hit [] = none
  only_hit (h ∷ []) = some h
  only_hit (h ∷ g ∷ hs) = none

  best_hit : List SearchHit → Option SearchHit
  unfolding best_of
  best_hit [] = none
  best_hit (h ∷ hs) = some (best_of h hs)

  -- `hits` if there are some, else `others`
  or_else : List SearchHit → List SearchHit → List SearchHit
  or_else [] others = others
  or_else (h ∷ hs) others = h ∷ hs

  settle_hits : List SearchHit → Option SearchHit → Option SearchHit
  unfolding only_hit
  settle_hits [] by_path = by_path
  settle_hits (h ∷ hs) by_path = only_hit (h ∷ hs)

  unfoldable pub match_unambiguously : String → List SearchHit → Option SearchHit
  unfolding tail_part ends_with path_part has_part has_char best_hit or_else settle_hits
  match_unambiguously marker retrieved =
      let same_hash = keep (λ h. tail_part h.chunk_id == marker) retrieved in
      let same_end = keep (λ h. ends_with marker h.chunk_id) retrieved in
      let same_tail =
        if has_char 58 marker
        then keep (λ h. tail_part h.chunk_id == tail_part marker) retrieved
        else [] in
      let by_path =
        if has_char 47 marker
        then best_hit (keep (λ h. has_part (path_part marker "" marker) h.chunk_id) retrieved)
        else none in
      settle_hits (or_else same_hash (or_else same_end same_tail)) by_path

  -- `by_id`: a later hit of the same id replaces an earlier one
  ids_of : List SearchHit → Dict String SearchHit → Dict String SearchHit
  ids_of [] d = d
  ids_of (h ∷ hs) d = ids_of hs (Dict.set h.chunk_id h d)

  or_match : Option SearchHit → Option SearchHit → Option SearchHit
  or_match none other = other
  or_match (some h) other = some h

  unfoldable pub find_hit : List SearchHit → String → Option SearchHit
  unfolding ids_of or_match match_unambiguously
  find_hit retrieved marker =
      or_match (Dict.get marker (ids_of retrieved [])) (match_unambiguously marker retrieved)

  citation_of : ℕ → String → SearchHit → Citation
  citation_of n marker h = record {
    index = n;
    chunk_id = h.chunk_id;
    marker = marker;
    service = h.service;
    path = h.path;
  }

  -- the loop of `resolve_citations`, with `n` citations resolved before
  unfoldable pub resolve_one :
      ℕ
      → String
      → Option SearchHit
      → (ℕ → List Citation × List String)
      → List Citation × List String
  unfolding citation_of looks_like_citation
  resolve_one n marker none rest =
      let (resolved, unresolved) = rest n in
      (resolved, if looks_like_citation marker then marker ∷ unresolved else unresolved)
  resolve_one n marker (some h) rest =
      let (resolved, unresolved) = rest (n + 1) in
      (citation_of (n + 1) marker h ∷ resolved, unresolved)

  unfoldable pub resolve_loop : List SearchHit → List String → ℕ → List Citation × List String
  unfolding find_hit resolve_one
  resolve_loop retrieved [] n = ([], [])
  resolve_loop retrieved (marker ∷ markers) n =
      resolve_one n marker (find_hit retrieved marker) (λ m. resolve_loop retrieved markers m)

  abbrev pub is_empty {ℓ} : {A : Type ℓ} → List A → Bool
  is_empty [] = true
  is_empty (x ∷ xs) = false

  unfoldable pub resolve_citations :
      (String → List String) → String → List SearchHit → CitationResolution
  unfolding resolve_loop
  resolve_citations markers_of text retrieved =
      let (resolved, unresolved) = resolve_loop retrieved (extract_markers markers_of text) 0 in
      record {
        resolved = resolved;
        unresolved = unresolved;
        ok = not (is_empty resolved) && is_empty unresolved;
      }

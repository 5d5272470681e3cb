-- ===== src/Summarise/Driver/Visits.antt =====
-- What one file's visit in backend/summarise/driver.py does to the ledger.
use vectural.Prelude.{
  ℕ, ◌≡◌, refl, ap, ◌∙◌, Bool, true, false, not, ◌&&◌, String, Option, none, some, arith,
  if◌then◌else◌, if_ind, pair_key, string_key, ◌==◌, ==_refl,
}
use vectural.Prelude.Float.{Floats}
use vectural.Prelude.Dict
use vectural.Llm.Base.{total_tokens}
use vectural.Llm.Failures.{
  quota_exhausted, content, transient, value_error, fatal, Result, ok, raised,
}
use vectural.Llm.Router.{RoutedResponse}
use vectural.Summarise.Ledger.{FileLedgerEntry, FileLedger, matches, found_matches, upsert_entry}
use vectural.Summarise.Driver.{
  SummariseOutcome, was_summarised, was_skipped, was_dead_lettered, was_held, FileToSummarise,
  key_of, FileResultRow, Deps, Books, Visit, hash, dead_letter, accept, record_summary, finish,
  summarise_one, is_oversized, routed, is_funded, visited, is_current, visit,
}

-- The outcomes that leave nothing to do for a file.
abbrev pub is_done : SummariseOutcome → Bool
is_done was_summarised = true
is_done was_skipped = true
is_done was_dead_lettered = false
is_done was_held = false

abbrev pub row_done : FileResultRow → Bool
row_done r = is_done r.outcome

upsert-get :
    (e : FileLedgerEntry) (k : String × String) (ledger : FileLedger)
    → ((e.service, e.path) == k) ≡ false
    → Dict.get k (upsert_entry e ledger) ≡ Dict.get k ledger
unfolding upsert_entry
upsert-get e k ledger apart =
    Dict.get-set (e.service, e.path) k e ledger
    ∙ ap (λ b. if b then some e else Dict.get k ledger) apart

upsert-get_self :
    (e : FileLedgerEntry) (ledger : FileLedger)
    → Dict.get (e.service, e.path) (upsert_entry e ledger) ≡ some e
unfolding upsert_entry
upsert-get_self e ledger = Dict.get-set_self (e.service, e.path) e ledger

same_pair : (h v : String) → (h == h && v == v) ≡ true
same_pair h v = rw (==_refl h, ==_refl v) refl

module _ (F : Floats) (W J S : Type 0) (d : Deps F W J S) where
  unfoldable pub entry_of : FileToSummarise → Books F W J S → Option FileLedgerEntry
  entry_of g b = Dict.get (key_of g) b.ledger

  dead_letter-get :
      (f g : FileToSummarise) (kind h : String) (b : Books F W J S)
      → (key_of f == key_of g) ≡ false
      → entry_of g (dead_letter F W J S d f kind h b) ≡ entry_of g b
  unfolding dead_letter entry_of
  dead_letter-get f g kind h b apart = upsert-get _ (key_of g) b.ledger apart

  record_summary-get :
      (f g : FileToSummarise) (h : String) (s : S) (b : Books F W J S)
      → (key_of f == key_of g) ≡ false
      → entry_of g (record_summary F W J S d f h s b) ≡ entry_of g b
  unfolding record_summary entry_of
  record_summary-get f g h s b apart = upsert-get _ (key_of g) b.ledger apart

  accept-get :
      (f g : FileToSummarise) (h : String) (tokens : ℕ) (b : Books F W J S) (w : W) (o : Option S)
      → (key_of f == key_of g) ≡ false
      → entry_of g (accept F W J S d f h tokens b w o).books ≡ entry_of g b
  unfolding accept
  accept-get f g h tokens b w none apart = dead_letter-get f g "schema_mismatch" h b apart
  accept-get f g h tokens b w (some s) apart = record_summary-get f g h s b apart

  finish-get :
      (f g : FileToSummarise) (h : String) (b : Books F W J S) (w : W)
      (answer : Result (RoutedResponse J))
      → (key_of f == key_of g) ≡ false
      → entry_of g (finish F W J S d f h b w answer).books ≡ entry_of g b
  unfolding finish
  finish-get f g h b w (ok response) apart =
      accept-get f g h (total_tokens response.usage) b w (d.validate response.parsed) apart
  finish-get f g h b w (raised (content kind)) apart = dead_letter-get f g kind h b apart
  finish-get f g h b w (raised quota_exhausted) apart = refl
  finish-get f g h b w (raised transient) apart = refl
  finish-get f g h b w (raised value_error) apart = refl
  finish-get f g h b w (raised fatal) apart = refl

  unfoldable pub Keeps : FileToSummarise → Books F W J S → Visit F W J S → Type 0
  Keeps g b v = entry_of g v.books ≡ entry_of g b

  pub Keeps-of :
      (g : FileToSummarise) (b : Books F W J S) (v : Visit F W J S)
      → entry_of g v.books ≡ entry_of g b
      → Keeps g b v
  unfolding Keeps
  Keeps-of g b v e = e

  -- A visit leaves the ledger's row of another file as it is.
  pub visit-Keeps :
      (held : Bool) (b : Books F W J S) (w : W) (f g : FileToSummarise)
      → (key_of f == key_of g) ≡ false
      → Keeps g b (visit F W J S d held b w f)
  unfolding visit summarise_one
  visit-Keeps held b w f g apart =
      if_ind (Keeps g b) held (λ _. Keeps-of g b _ refl)
        (λ _.
          if_ind (Keeps g b) (is_current F W J S d b.ledger f) (λ _. Keeps-of g b _ refl)
            (λ _.
              if_ind (Keeps g b) (not (is_funded F W J S d w f)) (λ _. Keeps-of g b _ refl)
                (λ _.
                  if_ind (Keeps g b) (is_oversized F W J S d f)
                    (λ _.
                      Keeps-of g b _
                        (dead_letter-get f g "oversized_file" (hash F W J S d f) b apart))
                    (λ _. Keeps-of g b _ (
                      finish-get f g (hash F W J S d f) b (routed F W J S d f w).1
                        (routed F W J S d f w).0 apart)))))

  record_summary-current :
      (f : FileToSummarise) (s : S) (b : Books F W J S)
      → is_current F W J S d (record_summary F W J S d f (hash F W J S d f) s b).ledger f ≡ true
  unfolding record_summary is_current matches found_matches
  record_summary-current f s b =
      ap (found_matches (hash F W J S d f) d.prompt_version) (upsert-get_self _ b.ledger)
      ∙ same_pair (hash F W J S d f) d.prompt_version

  unfoldable pub Settles : FileToSummarise → Visit F W J S → Type 0
  Settles f v =
      v.failure ≡ none → is_done v.outcome ≡ true → is_current F W J S d v.books.ledger f ≡ true

  accept-current :
      (f : FileToSummarise) (tokens : ℕ) (b : Books F W J S) (w : W) (o : Option S)
      → Settles f (accept F W J S d f (hash F W J S d f) tokens b w o)
  unfolding accept Settles
  accept-current f tokens b w none h k = ground (arith, k)
  accept-current f tokens b w (some s) h k = record_summary-current f s b

  Settles-of :
      (f : FileToSummarise) (v : Visit F W J S)
      → is_current F W J S d v.books.ledger f ≡ true
      → Settles f v
  unfolding Settles
  Settles-of f v e h k = e

  Settles-open :
      (f : FileToSummarise) (b : Books F W J S) (w : W)
      → Settles f (visited F W J S was_held 0 true b w)
  unfolding Settles
  Settles-open f b w h k = ground (arith, k)

  Settles-letter :
      (f : FileToSummarise) (b : Books F W J S) (w : W)
      → Settles f (visited F W J S was_dead_lettered 0 false b w)
  unfolding Settles
  Settles-letter f b w h k = ground (arith, k)

  finish-current :
      (f : FileToSummarise) (b : Books F W J S) (w : W) (answer : Result (RoutedResponse J))
      → Settles f (finish F W J S d f (hash F W J S d f) b w answer)
  unfolding finish Settles
  finish-current f b w (ok response) h k =
      accept-current f (total_tokens response.usage) b w (d.validate response.parsed) h k
  finish-current f b w (raised (content kind)) h k = ground (arith, k)
  finish-current f b w (raised quota_exhausted) h k = ground (arith, k)
  finish-current f b w (raised transient) h k = ground (arith, k)
  finish-current f b w (raised value_error) h k = ground (arith, k)
  finish-current f b w (raised fatal) h k = ground (arith, k)

  -- After a visit that summarised or skipped a file, the ledger has it as current.
  pub visit-current :
      (held : Bool) (b : Books F W J S) (w : W) (f : FileToSummarise)
      → Settles f (visit F W J S d held b w f)
  unfolding visit summarise_one
  visit-current held b w f =
      let h = hash F W J S d f in
      if_ind (Settles f) held (λ _. Settles-open f b w)
        (λ _.
          if_ind (Settles f) (is_current F W J S d b.ledger f)
            (λ e. Settles-of f (visited F W J S was_skipped 0 false b w) e)
            (λ _.
              if_ind (Settles f) (not (is_funded F W J S d w f)) (λ _. Settles-open f b w)
                (λ _.
                  if_ind (Settles f) (is_oversized F W J S d f)
                    (λ _. Settles-letter f (dead_letter F W J S d f "oversized_file" h b) w)
                    (λ _. finish-current f b (routed F W J S d f w).1 (routed F W J S d f w).0))))

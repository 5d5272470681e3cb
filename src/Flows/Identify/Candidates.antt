-- ===== src/Flows/Identify/Candidates.antt =====
-- The candidates of backend/flows/identify.py: one for each id.
use vectural.Prelude.{
  ◌≡◌, sym, ◌∙◌, subst, Bool, true, false, String, Option, none, some, List, [], ◌∷◌, map, All,
  string_key, ◌==◌, if_ind, arith, Bool-cases, inl, inr, ℕ, length,
}
use vectural.Prelude.Dict
use vectural.Prelude.Dict.{Dict}
use vectural.Prelude.Sort
use vectural.Prelude.Text.{str_le}
use vectural.Graph.Store.{GraphStore}
use vectural.Prelude.Float.{Floats}
use vectural.Llm.Failures.{ok}
use vectural.Llm.Catalog.{Catalog}
use vectural.Llm.Router.{Router}
use vectural.Flows.Models.{FlowCandidate, FlowStore}
use vectural.Flows.Service.{GenerateReport, generate}
use vectural.Flows.Service.Invalidation.{IsKeyed}
use vectural.Flows.Service.Generation.{generate_again}
use vectural.Flows.Identify.{
  is_cross_service, collect, identify_flows, link_candidate, event_links, call_chains, candidate,
}

abbrev Found : Type 0
Found = Dict String FlowCandidate

-- Each candidate stands under its own id, once, and involves two services.
abbrev IsOwned : Found → Type 0
IsOwned d =
    Dict.IsDistinct d
    × ((k : String) (c : FlowCandidate)
        → Dict.get k d ≡ some c
        → (k ≡ c.id) × (is_cross_service c ≡ true))

holds_of : Option FlowCandidate → Bool
holds_of none = false
holds_of (some c) = is_cross_service c

set-IsOwned :
    (c : FlowCandidate) (d : Found)
    → IsOwned d
    → is_cross_service c ≡ true
    → IsOwned (Dict.set c.id c d)
unfolding holds_of
set-IsOwned c d h cross = (
  Dict.set-IsDistinct c.id c d h.0,
  λ k v found. elim (Bool-cases (c.id == k)) [
    | inl same ↦
        (let own : some c ≡ some v = ground (arith, Dict.get-set c.id k c d, found, same) in
          (
            sym ((string_key.same_iff c.id k).0 same) ∙ ground (arith, own),
            subst (λ o. holds_of o ≡ true) own cross,
          ))
    | inr other ↦ h.1 k v (ground (arith, Dict.get-set c.id k c d, found, other))
  ],
)

collect-IsOwned : (cs : List FlowCandidate) (d : Found) → IsOwned d → IsOwned (collect cs d)
unfolding collect
collect-IsOwned [] d h = h
collect-IsOwned (c ∷ cs) d h =
    if_ind IsOwned (is_cross_service c)
      (λ e. collect-IsOwned cs (Dict.set c.id c d) (set-IsOwned c d h e))
      (λ e. collect-IsOwned cs d h)

none_in : (k : String) (c : FlowCandidate) → Dict.get {K = String} k [] ≡ some c → ⊥
unfolding Dict.get
none_in k c e = cc

signature_in : Found → String → String
signature_in d id = elim (Dict.get id d) [ none ↦ "" | some c ↦ c.signature ]

signature_in-own :
    (d : Found) (k : String) (c : FlowCandidate)
    → IsOwned d
    → Dict.get k d ≡ some c
    → c.signature ≡ signature_in d c.id
unfolding signature_in
signature_in-own d k c h found =
    let own : Dict.get c.id d ≡ some c =
      subst (λ x. Dict.get x d ≡ some c) (h.1 k c found).0 found in
    ground (arith, own)

-- Of the identified candidates, two with one id have one signature.
pub identify_flows-signature :
    (sha : String → String) (s : GraphStore) (max_len : ℕ)
    → (signature_of : String → String) × All
        (λ c. c.signature ≡ signature_of c.id)
        (identify_flows sha s max_len)
unfolding identify_flows
identify_flows-signature sha s max_len = (signature_in found, signed)
  where
    chains : List FlowCandidate
    chains = map (λ path. candidate sha path "call graph") (call_chains s max_len)

    links : List FlowCandidate
    links = map (link_candidate sha) (event_links s)

    found : Found
    found = collect links (collect chains [])

    owned : IsOwned found
    owned =
        collect-IsOwned links (collect chains [])
          (collect-IsOwned chains [] (tt, λ k c e. absurd (none_in k c e)))

    signed :
        All
          (λ c. c.signature ≡ signature_in found c.id)
          (Sort.sorted (λ c d. str_le c.id d.id) (Dict.values found))
    signed =
        Sort.All-sorted (λ c d. str_le c.id d.id) (λ c. c.signature ≡ signature_in found c.id)
          (Dict.values found)
          (Dict.All-values (λ c. c.signature ≡ signature_in found c.id) found owned.0
            (λ k c e. signature_in-own found k c owned e))

-- Generating the flows of a graph a second time, after a run that did not fail, and with the graph
-- as it was, skips every one of them: no model is called and nothing is written. The store is of the
-- form that the service keeps.
pub identify_again :
    (F : Floats) (W J : Type 0) (sha : String → String) (field : String → J → String)
    (r : Router F W J) (catalog : Catalog) (summaries : Dict String String) (version : String)
    (clock : W → ℕ) (s : GraphStore) (max_len : ℕ) (store : FlowStore) (w : W)
    (done : GenerateReport)
    → IsKeyed store
    → (generate F W J sha field r catalog summaries version clock
        (identify_flows sha s max_len)
        store
        w).0
      ≡ ok done
    → let (_, store', w') =
        generate F W J sha field r catalog summaries version clock
          (identify_flows sha s max_len)
          store
          w in
      generate F W J sha field r catalog summaries version clock
        (identify_flows sha s max_len)
        store'
        w'
      ≡ (
        ok (record {
          created = 0;
          regenerated = 0;
          skipped = length (identify_flows sha s max_len);
          ids = [];
        }),
        store',
        w',
      )
identify_again F W J sha field r catalog summaries version clock s max_len store w done keyed e =
    let (signature_of, signed) = identify_flows-signature sha s max_len in
    generate_again F W J sha field r catalog summaries version clock signature_of
      (identify_flows sha s max_len) store w done keyed signed e

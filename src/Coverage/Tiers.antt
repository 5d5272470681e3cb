-- ===== src/Coverage/Tiers.antt =====
-- The coverage view of backend/api/coverage.py against the flow narratives that
-- backend/flows/service.py serves.
use vectural.Prelude.{
  ℕ, ◌≡◌, ◌≢◌, ◌↔◌, ◌≤◌, refl, sym, ◌∙◌, Bool, true, false, String, List, [], ◌∷◌, keep, some_of,
  contains, contains-append, All, string_key, ◌&&◌, arith, Bool-cases, inl, inr,
}
use vectural.Prelude.Dict.{Dict}
use vectural.Flows.Models.{FlowNarrative, all, is_authoritative, touches}
use vectural.Flows.Service.{evidence_for, invalidate_on_change}
use vectural.Flows.Service.Invalidation.{IsKeyed, evidence-invalidate}
use vectural.Coverage.{Sources, services_of, approved_flow_services, tier_for, tier_of}

touches_one :
    (name : String) (services : List String)
    → some_of (λ s. contains s (name ∷ [])) services ≡ contains name services
touches_one name [] = refl
touches_one name (s ∷ ss) =
    ground (arith, touches_one name ss, string_key.same_iff s name, string_key.same_iff name s)

named : (name : String) (ns : List FlowNarrative) → Bool
named name ns = some_of (λ n. is_authoritative n && touches (name ∷ []) n) ns

contains-services_of :
    (name : String) (ns : List FlowNarrative) → contains name (services_of ns) ≡ named name ns
unfolding services_of named
contains-services_of name [] = refl
contains-services_of name (n ∷ ns) = ground (
  arith,
  contains-services_of name ns,
  contains-append name n.services (services_of ns),
  touches_one name n.services,
)

keep_iff :
    (p : FlowNarrative → Bool) (ns : List FlowNarrative) → (some_of p ns ≡ true) ↔ (keep p ns ≢ [])
keep_iff p [] = (λ h e. ground (arith, h), λ h. absurd (h refl))
keep_iff p (n ∷ ns) = ground (arith, keep_iff p ns)

tier_for_iff :
    (name : String) (files : Dict String ℕ) (modules summaries approved : List String)
    → (tier_for name files modules summaries approved ≡ 4) ↔ (contains name approved ≡ true)
unfolding tier_for
tier_for_iff name files modules summaries approved = ground arith

tier_for-le :
    (name : String) (files : Dict String ℕ) (modules summaries approved : List String)
    → contains name approved ≡ false
    → tier_for name files modules summaries approved ≤ 3
unfolding tier_for
tier_for-le name files modules summaries approved h = ground arith

none_served :
    (name : String) (ns : List FlowNarrative)
    → All
        (λ n. touches (name ∷ []) n ≡ false)
        (keep (λ n. is_authoritative n && touches (name ∷ []) n) ns)
    → named name ns ≡ false
unfolding named
none_served name [] h = refl
none_served name (n ∷ ns) h = elim (Bool-cases (is_authoritative n && touches (name ∷ []) n)) [
  | inl e ↦
      (let parts : (touches (name ∷ []) n ≡ false)
            × All (λ n. touches (name ∷ []) n ≡ false)
                (keep (λ n. is_authoritative n && touches (name ∷ []) n) ns) =
          rw (e, All) at h in
        ground (arith, e, parts.0))
  | inr e ↦
      (let rest : All (λ n. touches (name ∷ []) n ≡ false)
            (keep (λ n. is_authoritative n && touches (name ∷ []) n) ns) =
          rw (e, All) at h in
        ground (arith, e, none_served name ns rest))
]

-- A service is at tier 4 exactly where some flow narrative is served as evidence for it.
pub tier_four_iff :
    (s : Sources) (name : String) → (tier_of s name ≡ 4) ↔ (evidence_for (name ∷ []) s.flows ≢ [])
unfolding tier_of approved_flow_services evidence_for named
tier_four_iff s name =
    let p : FlowNarrative → Bool = λ n. is_authoritative n && touches (name ∷ []) n in
    let tier = tier_for_iff name _ _ _ (services_of (all s.flows)) in
    let served = keep_iff p (all s.flows) in
    let same = contains-services_of name (all s.flows) in
    (λ h. served.0 (sym same ∙ tier.0 h), λ h. tier.1 (same ∙ served.1 h))

-- After a change in a service's code, the service is at tier 3 at most.
pub tier_of-invalidate :
    (s : Sources) (name : String) (now : ℕ)
    → IsKeyed s.flows
    → tier_of (record s { flows = (invalidate_on_change (name ∷ []) now s.flows).1 }) name ≤ 3
unfolding tier_of approved_flow_services evidence_for
tier_of-invalidate s name now keyed =
    let after = (invalidate_on_change (name ∷ []) now s.flows).1 in
    let out = (evidence-invalidate (name ∷ []) now s.flows (name ∷ []) keyed).1 in
    tier_for-le name _ _ _ (services_of (all after))
      (contains-services_of name (all after) ∙ none_served name (all after) out)

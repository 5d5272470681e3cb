-- ===== src/Flows/Service/Invalidation.antt =====
-- `invalidate_on_change` of backend/flows/service.py: what a code change takes out of service.
use vectural.Prelude.{
  ℕ, ◌≡◌, sym, Bool, true, false, String, Option, none, some, List, [], ◌∷◌, string_key, ◌==◌, ◌&&◌,
  if◌then◌else◌, arith, All, Bool-cases, Option-cases, inl, inr, subst, ==_refl, if_ind, All-keep,
}
use vectural.Prelude.Sort
use vectural.Prelude.Dict
use vectural.Prelude.Dict.{Dict, IsDistinct, get-set, set-IsDistinct, All-values, All-values-get}
use vectural.Flows.Models.{
  ReviewStatus, needs_review, FlowNarrative, FlowStore, upsert, all, is_authoritative, touches,
  by_id,
}
use vectural.Flows.Service.{
  set_status, invalidate_one, invalidate_loop, invalidate_on_change, evidence_for, change_reason,
  overlap,
}

-- Each narrative is stored under its own id, and no id twice.
pub record IsKeyed (store : FlowStore) : Type 0 where
  pub own_id : (k : String) (n : FlowNarrative) → Dict.get k store ≡ some n → n.id ≡ k
  pub distinct : IsDistinct store

pub get-upsert :
    (n : FlowNarrative) (k : String) (store : FlowStore)
    → Dict.get k (upsert n store) ≡ (if n.id == k then some n else Dict.get k store)
unfolding upsert
get-upsert n k store = get-set n.id k n store

pub upsert-IsKeyed :
    (n : FlowNarrative) (store : FlowStore) → IsKeyed store → IsKeyed (upsert n store)
upsert-IsKeyed n store keyed = record { own_id = own; distinct = distinct }
  where
    own : (k : String) (m : FlowNarrative) → Dict.get k (upsert n store) ≡ some m → m.id ≡ k
    own k m e =
        ground (arith, e, get-upsert n k store, keyed.own_id k m, string_key.same_iff n.id k)

    distinct : IsDistinct (upsert n store)
    distinct = unfold upsert in set-IsDistinct n.id n store keyed.distinct

abbrev marked : ReviewStatus → Option String → ℕ → FlowNarrative → FlowNarrative
marked status reason now n = record n { status = status; review_reason = reason; updated_at = now }

-- What a change of status leaves under each key.
get-set_status :
    (id k : String) (status : ReviewStatus) (reason : Option String) (now : ℕ) (store : FlowStore)
    → Dict.get k (set_status id status reason now store).1 ≡ elim (Dict.get id store) [
      | none ↦ Dict.get k store
      | some n ↦ if n.id == k then some (marked status reason now n) else Dict.get k store
    ]
unfolding set_status
get-set_status id k status reason now store = elim (Option-cases (Dict.get id store)) [
  | inl absent ↦ ground (arith, absent)
  | inr (n, found) ↦ ground (arith, found, get-upsert (marked status reason now n) k store)
]

set_status-IsKeyed :
    (id : String) (status : ReviewStatus) (reason : Option String) (now : ℕ) (store : FlowStore)
    → IsKeyed store
    → IsKeyed (set_status id status reason now store).1
unfolding set_status
set_status-IsKeyed id status reason now store keyed = elim (Option-cases (Dict.get id store)) [
  | inl absent ↦ subst IsKeyed (ground (arith, absent)) keyed
  | inr (n, found) ↦
      subst IsKeyed (ground (arith, found))
        (upsert-IsKeyed (marked status reason now n) store keyed)
]

module _ (changed : List String) (now : ℕ) where
  -- Afterwards an approved narrative is one that was there before.
  invalidate_one-approved :
      (n : FlowNarrative) (store : FlowStore) (k : String) (m : FlowNarrative)
      → Dict.get k (invalidate_one changed now n store) ≡ some m
      → is_authoritative m ≡ true
      → Dict.get k store ≡ some m
  unfolding invalidate_one
  invalidate_one-approved n store k m e a = ground (
    arith,
    e,
    a,
    get-set_status n.id k needs_review (some (change_reason (overlap changed n))) now store,
  )

  invalidate_loop-approved :
      (ns : List FlowNarrative) (store : FlowStore) (k : String) (m : FlowNarrative)
      → Dict.get k (invalidate_loop changed now ns store) ≡ some m
      → is_authoritative m ≡ true
      → Dict.get k store ≡ some m
  unfolding invalidate_loop
  invalidate_loop-approved [] store k m e a = e
  invalidate_loop-approved (n ∷ ns) store k m e a =
      invalidate_one-approved n store k m
        (invalidate_loop-approved ns (invalidate_one changed now n store) k m e a) a

  -- A snapshot narrative that is touched and approved is not approved any more.
  invalidate_one_lem :
      (n : FlowNarrative) (store : FlowStore) (m : FlowNarrative)
      → IsKeyed store
      → (is_authoritative n && touches changed n) ≡ true
      → Dict.get n.id (invalidate_one changed now n store) ≡ some m
      → is_authoritative m ≡ false
  unfolding invalidate_one
  invalidate_one_lem n store m keyed hit e = elim (Option-cases (Dict.get n.id store)) [
    | inl absent ↦ ground (
      arith,
      absent,
      hit,
      e,
      get-set_status n.id n.id needs_review (some (change_reason (overlap changed n))) now store,
    )
    | inr (x, found) ↦ ground (
      arith,
      found,
      hit,
      e,
      get-set_status n.id n.id needs_review (some (change_reason (overlap changed n))) now store,
      keyed.own_id n.id x found,
      ==_refl n.id,
    )
  ]

  invalidate_one-IsKeyed :
      (n : FlowNarrative) (store : FlowStore)
      → IsKeyed store
      → IsKeyed (invalidate_one changed now n store)
  unfolding invalidate_one
  invalidate_one-IsKeyed n store keyed =
      if_ind IsKeyed (is_authoritative n && touches changed n)
        (λ _. set_status-IsKeyed n.id needs_review _ now store keyed) (λ _. keyed)

  abbrev is_hit : FlowNarrative → Bool
  is_hit n = is_authoritative n && touches changed n

  invalidate_loop-hits :
      (ns : List FlowNarrative) (store : FlowStore)
      → IsKeyed store
      → All
          (λ n.
            (m : FlowNarrative)
            → is_hit n ≡ true
            → Dict.get n.id (invalidate_loop changed now ns store) ≡ some m
            → is_authoritative m ≡ false)
          ns
  unfolding invalidate_loop
  invalidate_loop-hits [] store keyed = tt
  invalidate_loop-hits (n ∷ ns) store keyed = (
    λ m hit e. elim (Bool-cases (is_authoritative m)) [
      | inl a ↦
          invalidate_one_lem n store m keyed hit
            (invalidate_loop-approved ns (invalidate_one changed now n store) n.id m e a)
      | inr a ↦ a
    ],
    invalidate_loop-hits ns (invalidate_one changed now n store)
        (invalidate_one-IsKeyed n store keyed),
  )

  invalidate_loop-IsKeyed :
      (ns : List FlowNarrative) (store : FlowStore)
      → IsKeyed store
      → IsKeyed (invalidate_loop changed now ns store)
  unfolding invalidate_loop
  invalidate_loop-IsKeyed [] store keyed = keyed
  invalidate_loop-IsKeyed (n ∷ ns) store keyed =
      invalidate_loop-IsKeyed ns (invalidate_one changed now n store)
        (invalidate_one-IsKeyed n store keyed)

  no_hits_left :
      (store : FlowStore)
      → IsKeyed store
      → (k : String) (m : FlowNarrative)
      → Dict.get k (invalidate_on_change changed now store).1 ≡ some m
      → is_hit m ≡ false
  unfolding invalidate_on_change all
  no_hits_left store keyed k m e = elim (Bool-cases (is_hit m)) [
    | inr miss ↦ miss
    | inl hit ↦
        let a : is_authoritative m ≡ true = ground (arith, hit) in
        let was = invalidate_loop-approved (all store) store k m e a in
        let same = keyed.own_id k m was in
        let gone =
          All-values-get _ k m store
            (Sort.All-of_sorted by_id _ (Dict.values store)
              (invalidate_loop-hits (all store) store keyed))
            was in
        cc (
          gone m hit (
            subst (λ j. Dict.get j (invalidate_loop changed now (all store) store) ≡ some m)
              (sym same) e))
  ]

  -- From a store in which each narrative stands under its own id, once: after code changed in some
  -- services, no narrative that involves one of them is served as evidence, for these services or
  -- for any others, until it is approved again; and the store is still of that form.
  pub evidence-invalidate :
      (store : FlowStore) (anchors : List String)
      → IsKeyed store
      → IsKeyed (invalidate_on_change changed now store).1
        × All
            (λ n. touches changed n ≡ false)
            (evidence_for anchors (invalidate_on_change changed now store).1)
  unfolding evidence_for all
  evidence-invalidate store anchors keyed =
      let after = (invalidate_on_change changed now store).1 in
      let kept : IsKeyed after =
        unfold invalidate_on_change in invalidate_loop-IsKeyed (all store) store keyed in
      (
        kept,
        All-keep _ _ _ (all after) (λ n served miss. ground (arith, served, miss))
            (Sort.All-sorted by_id (λ n. is_hit n ≡ false) (Dict.values after)
              (All-values (λ n. is_hit n ≡ false) after kept.distinct (no_hits_left store keyed))),
      )

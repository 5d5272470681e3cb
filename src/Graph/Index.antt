-- ===== src/Graph/Index.antt =====
-- The adjacency indices of backend/graph/store.py: a dict of lists, in which a key without an entry
-- has the empty list.
use vectural.Prelude.{
  ◌≡◌, refl, Bool, true, false, not, ◌&&◌, ◌||◌, List, [], ◌∷◌, ◌++◌, keep, contains, Key, ◌==◌,
  if◌then◌else◌, arith, Option, none, some, contains-append, sym, ◌∙◌, ap, if_ind,
}
use vectural.Prelude.Dict
use vectural.Prelude.Dict.{Dict}

module _ {K V : Type 0} ⦃k : Key K⦄ ⦃v : Key V⦄ where
  abbrev pub listed : Dict K (List V) → K → List V
  listed d j = Dict.get_or j [] d

  abbrev pub linked : Dict K (List V) → K → V → Bool
  linked d j w = contains w (listed d j)

  -- `if w not in d[j]: d[j].append(w)`
  unfoldable pub append_new : K → V → Dict K (List V) → Dict K (List V)
  append_new j w d =
      let ws = listed d j in Dict.set j (if contains w ws then ws else ws ++ w ∷ []) d

  store_or_delete : K → List V → Dict K (List V) → Dict K (List V)
  store_or_delete j [] d = Dict.remove j d
  store_or_delete j (w ∷ ws) d = Dict.set j (w ∷ ws) d

  prune_found : K → V → Option (List V) → Dict K (List V) → Dict K (List V)
  unfolding store_or_delete
  prune_found j w none d = d
  prune_found j w (some ws) d = store_or_delete j (keep (λ u. not (u == w)) ws) d

  unfoldable pub prune : K → V → Dict K (List V) → Dict K (List V)
  unfolding prune_found
  prune j w d = prune_found j w (Dict.get j d) d

  pub listed-set :
      (i j : K) (ws : List V) (d : Dict K (List V))
      → listed (Dict.set i ws d) j ≡ (if i == j then ws else listed d j)
  listed-set i j ws d = ground (arith, Dict.get-set i j ws d)

  pub listed-remove :
      (i j : K) (d : Dict K (List V))
      → listed (Dict.remove i d) j ≡ (if i == j then [] else listed d j)
  listed-remove i j d = ground (arith, Dict.get-remove i j d)

  listed_congr : (d : Dict K (List V)) (i j : K) → (i == j) ≡ true → listed d i ≡ listed d j
  listed_congr d i j e = ap (λ x. listed d x) ((k.same_iff i j).0 e)

  contains-listed :
      (u : V) (i j : K) (ws : List V) (d : Dict K (List V)) (r : Bool)
      → ((i == j) ≡ true → contains u ws ≡ r)
      → ((i == j) ≡ false → linked d j u ≡ r)
      → contains u (if i == j then ws else listed d j) ≡ r
  contains-listed u i j ws d r same apart =
      if_ind (λ xs. contains u xs ≡ r) (i == j) {x = ws} {y = listed d j} same apart

  listed-store :
      (i j : K) (ws : List V) (d : Dict K (List V))
      → listed (store_or_delete i ws d) j ≡ (if i == j then ws else listed d j)
  unfolding store_or_delete
  listed-store i j [] d = listed-remove i j d
  listed-store i j (w ∷ ws) d = listed-set i j (w ∷ ws) d

module _ {V : Type 0} ⦃v : Key V⦄ where
  contains-keep :
      (w u : V) (ws : List V)
      → contains u (keep (λ x. not (x == w)) ws) ≡ (contains u ws && not (u == w))
  contains-keep w u [] = refl
  contains-keep w u (x ∷ ws) =
      ground (arith, contains-keep w u ws, v.same_iff u x, v.same_iff x w, v.same_iff u w)

  contains_congr : (u w : V) (ws : List V) → (u == w) ≡ true → contains u ws ≡ contains w ws
  contains_congr u w ws e = ap (λ x. contains x ws) ((v.same_iff u w).0 e)

  contains-add :
      (w u : V) (ws : List V)
      → contains u (if contains w ws then ws else ws ++ w ∷ []) ≡ (contains u ws || u == w)
  contains-add w u ws =
      ground (arith, contains-append u ws (w ∷ []), contains_congr u w ws, v.same_iff u w)

module _ {K V : Type 0} ⦃k : Key K⦄ ⦃v : Key V⦄ where
  pub linked-append_new :
      (i j : K) (w u : V) (d : Dict K (List V))
      → linked (append_new i w d) j u ≡ (linked d j u || (i == j && u == w))
  unfolding append_new
  linked-append_new i j w u d =
      ap (contains u) (listed-set i j _ d)
      ∙ contains-listed u i j _ d _
          (λ e. contains-add w u (listed d i) ∙ rw (listed_congr d i j e, e) refl)
          (λ e. ground (arith, e))

  linked-store :
      (i j : K) (w u : V) (d : Dict K (List V))
      → contains u (listed (store_or_delete i (keep (λ x. not (x == w)) (listed d i)) d) j)
        ≡ (linked d j u && not (i == j && u == w))
  linked-store i j w u d =
      ap (contains u) (listed-store i j _ d)
      ∙ contains-listed u i j _ d _
          (λ e. contains-keep w u (listed d i) ∙ rw (listed_congr d i j e, e) refl)
          (λ e. ground (arith, e))

  linked-absent :
      (i j : K) (w u : V) (d : Dict K (List V))
      → Dict.get i d ≡ none
      → linked d j u ≡ (linked d j u && not (i == j && u == w))
  linked-absent i j w u d h = ground (arith, h, listed_congr d i j)

  linked-prune_found :
      (i j : K) (w u : V) (d : Dict K (List V)) (o : Option (List V))
      → Dict.get i d ≡ o
      → linked (prune_found i w o d) j u ≡ (linked d j u && not (i == j && u == w))
  unfolding prune_found
  linked-prune_found i j w u d none h = linked-absent i j w u d h
  linked-prune_found i j w u d (some ws) h =
      let entry : listed d i ≡ ws = Dict.get_or-found i [] ws d h in
      ap (λ xs. linked (store_or_delete i (keep (λ x. not (x == w)) xs) d) j u) (sym entry)
      ∙ linked-store i j w u d

  pub linked-prune :
      (i j : K) (w u : V) (d : Dict K (List V))
      → linked (prune i w d) j u ≡ (linked d j u && not (i == j && u == w))
  unfolding prune
  linked-prune i j w u d = linked-prune_found i j w u d (Dict.get i d) refl

  pub linked-remove :
      (i j : K) (u : V) (d : Dict K (List V))
      → linked (Dict.remove i d) j u ≡ (linked d j u && not (i == j))
  linked-remove i j u d =
      ap (contains u) (listed-remove i j d)
      ∙ contains-listed u i j [] d _ (λ e. ground (arith, e)) (λ e. ground (arith, e))

-- ===== src/Common/Assoc.antt =====
-- Maps as association lists: `std::unordered_map` by `find`, `emplace`, `erase`, and a write
-- through a reference to a mapped value. The list holds the entries in the order in which an
-- iterator visits them; a new entry goes to the front.
use mathlib.Core.Path.{◌≡◌, refl}
use mathlib.Core.List.{List, [], ◌∷◌, map}
use mathlib.Core.Option.{Option, none, some}
use native.Mathlib.Omega.{arith}
use mathlib.Core.Bool.{true, false}
use lhcluster.Common.Lists.{contains}
use lhcluster.Common.Tests.{Eq, ◌==◌, eq_iff, if◌then◌else◌}

module _ {ℓ} {K V : Type ℓ} ⦃e : Eq K⦄ where
  unfoldable pub lookup : K → List (K × V) → Option V
  lookup k [] = none
  lookup k ((j, v) ∷ m) = if j == k then some v else lookup k m

  -- `emplace`: an entry that is there stays as it is.
  unfoldable pub emplace : K → V → List (K × V) → List (K × V)
  emplace k v m = elim (lookup k m) [ none ↦ (k, v) ∷ m | some _ ↦ m ]

  -- The value under `k` replaced; nothing happens if there is none.
  unfoldable pub update : K → V → List (K × V) → List (K × V)
  update k v [] = []
  update k v ((j, w) ∷ m) = if j == k then (j, v) ∷ m else (j, w) ∷ update k v m

  unfoldable pub erase : K → List (K × V) → List (K × V)
  erase k [] = []
  erase k ((j, w) ∷ m) = let rest = erase k m in if j == k then rest else (j, w) ∷ rest

  pub lookup-emplace :
      (k j : K) (v : V) (m : List (K × V))
      → lookup j (emplace k v m)
        ≡ elim (lookup j m) [ none ↦ (if k == j then some v else none) | some w ↦ some w ]
  unfolding lookup emplace
  lookup-emplace k j v m = ground (arith, eq_iff k j)

  pub lookup-update :
      (k j : K) (v : V) (m : List (K × V))
      → lookup j (update k v m)
        ≡ elim (lookup j m) [ none ↦ none | some w ↦ (if k == j then some v else some w) ]
  unfolding lookup update
  lookup-update k j v [] = refl
  lookup-update k j v ((i, w) ∷ m) =
      ground (arith, lookup-update k j v m, eq_iff k j, eq_iff i k, eq_iff i j)

  pub lookup-erase :
      (k j : K) (m : List (K × V)) → lookup j (erase k m) ≡ (if k == j then none else lookup j m)
  unfolding lookup erase
  lookup-erase k j [] = ground arith
  lookup-erase k j ((i, w) ∷ m) =
      ground (arith, lookup-erase k j m, eq_iff k j, eq_iff i k, eq_iff i j)

  abbrev pub keys : List (K × V) → List K
  keys = map (λ x. x.0)

  pub keys-update : (k : K) (v : V) (m : List (K × V)) → keys (update k v m) ≡ keys m
  unfolding update
  keys-update k v [] = refl
  keys-update k v ((j, w) ∷ m) = ground (arith, keys-update k v m)

  pub contains-keys-erase :
      (k j : K) (m : List (K × V))
      → contains (keys (erase k m)) j ≡ (if k == j then false else contains (keys m) j)
  unfolding erase contains
  contains-keys-erase k j [] = ground arith
  contains-keys-erase k j ((i, w) ∷ m) =
      ground (arith, contains-keys-erase k j m, eq_iff i k, eq_iff k j, eq_iff i j)

  -- A key is among the keys exactly when it is found.
  pub contains-keys :
      (j : K) (m : List (K × V))
      → contains (keys m) j ≡ elim (lookup j m) [ none ↦ false | some _ ↦ true ]
  unfolding lookup contains
  contains-keys j [] = refl
  contains-keys j ((i, w) ∷ m) = ground (arith, contains-keys j m)

  pub update-update :
      (k : K) (v w : V) (m : List (K × V)) → update k v (update k w m) ≡ update k v m
  unfolding update
  update-update k v w [] = refl
  update-update k v w ((j, u) ∷ m) = ground (arith, update-update k v w m)

  pub update-same : (k : K) (v : V) (m : List (K × V)) → lookup k m ≡ some v → update k v m ≡ m
  unfolding lookup update
  update-same k v [] h = refl
  update-same k v ((j, u) ∷ m) h = ground (arith, h, update-same k v m)

-- ===== src/Prelude/Maps.antt =====
-- JavaScript's `Map` and `Set`: in the order of insertion, with keys compared by `===`.
use mathlib.Core.Path.{◌≡◌, refl, sym, ap, ◌∙◌}
use mathlib.Core.Logic.{inl, inr}
use mathlib.Core.Bool.{Bool, true, false, ◌||◌}
use mathlib.Core.Option.{Option, none, some}
use mathlib.Core.List.{List, [], ◌∷◌, ◌++◌, Memᴰ}
use native.Mathlib.Omega.{arith}
use tracium.Prelude.Tests.{if◌then◌else◌, Key, ◌===◌, eq_of_same, same_comm, Bool-cases}

module _ {ℓ} {K : Type ℓ} ⦃e : Key K⦄ where
  -- `set.has(k)`
  abbrev pub has : K → List K → Bool
  has k [] = false
  has k (j ∷ s) = (j === k) || has k s

  -- `set.add(k)`
  abbrev pub add : K → List K → List K
  add k s = if has k s then s else s ++ k ∷ []

  -- `set.delete(k)`
  abbrev pub delete : K → List K → List K
  delete k [] = []
  delete k (j ∷ s) = if j === k then delete k s else j ∷ delete k s

  -- `[...new Set(xs)]`, from the set built so far
  abbrev pub unique_from : List K → List K → List K
  unique_from s [] = s
  unique_from s (x ∷ xs) = unique_from (add x s) xs

  pub has-append : (k : K) (s t : List K) → has k (s ++ t) ≡ (has k s || has k t)
  has-append k [] t = refl
  has-append k (j ∷ s) t = ground (arith, has-append k s t)

  pub has-add : (k j : K) (s : List K) → has k (add j s) ≡ ((j === k) || has k s)
  has-add k j s = elim (Bool-cases (has j s)) [
    | inl old ↦ rw old (elim (Bool-cases (j === k)) [
      | inl same ↦ rw same (ap (λ i. has i s) (sym (eq_of_same j k same)) ∙ old)
      | inr other ↦ rw other
    ])
    | inr new ↦ rw new (has-append k s (j ∷ []) ∙ ground arith)
  ]

  pub has-delete :
      (k j : K) (s : List K) → has k (delete j s) ≡ (if j === k then false else has k s)
  has-delete k j [] = ground arith
  has-delete k j (i ∷ s) =
      ground (arith, has-delete k j s, e.same_iff i j, e.same_iff i k, e.same_iff j k)

  pub has→Memᴰ : (k : K) (s : List K) → has k s ≡ true → Memᴰ k s
  has→Memᴰ k [] h = absurd (ground arith)
  has→Memᴰ k (j ∷ s) h = elim (Bool-cases (j === k)) [
    | inl same ↦ Memᴰ.head (sym (eq_of_same j k same))
    | inr other ↦ Memᴰ.tail (has→Memᴰ k s (ground arith))
  ]

  pub Memᴰ→has : {k : K} {s : List K} → Memᴰ k s → has k s ≡ true
  Memᴰ→has {k} (Memᴰ.head {x = x} p) = ground (arith, e.same_iff x k)
  Memᴰ→has {k} (Memᴰ.tail {x = x} m) = ground (arith, Memᴰ→has m)

  -- No key twice.
  abbrev pub Distinct : List K → Type 0
  Distinct [] = Unit
  Distinct (k ∷ s) = (has k s ≡ false) × Distinct s

  pub Distinct-concat : (s : List K) (k : K) → Distinct s → has k s ≡ false → Distinct (s ++ k ∷ [])
  Distinct-concat [] k _ _ = (refl, tt)
  Distinct-concat (j ∷ s) k (d, ds) h = (
    has-append j s (k ∷ []) ∙ ground (arith, same_comm j k),
    Distinct-concat s k ds (ground arith),
  )

module _ {ℓ κ} {K : Type ℓ} {V : Type κ} ⦃e : Key K⦄ where
  -- `map.get(k)`
  abbrev pub get : K → List (K × V) → Option V
  get k [] = none
  get k ((j, v) ∷ m) = if j === k then some v else get k m

  -- `map.set(k, v)`
  abbrev pub set : K → V → List (K × V) → List (K × V)
  set k v [] = (k, v) ∷ []
  set k v ((j, w) ∷ m) = if j === k then (j, v) ∷ m else (j, w) ∷ set k v m

  -- `new Map(pairs)`, from the map built so far: a later pair overwrites an earlier one.
  abbrev pub from_pairs : List (K × V) → List (K × V) → List (K × V)
  from_pairs m [] = m
  from_pairs m ((k, v) ∷ ps) = from_pairs (set k v m) ps

  pub get-set :
      (k j : K) (v : V) (m : List (K × V))
      → get j (set k v m) ≡ (if k === j then some v else get j m)
  get-set k j v [] = refl
  get-set k j v ((i, w) ∷ m) =
      ground (arith, e.same_iff k j, e.same_iff i k, e.same_iff i j, get-set k j v m)

-- ===== src/Prelude/InFlight.antt =====
-- Requests in flight: a list that grows at its end, and of which any element may be answered next.
use Prim.Native.Nat.{ℕ, zero, suc, ◌+◌}
use mathlib.Core.Path.{◌≡◌, refl, sym, ap, ◌∙◌, subst}
use mathlib.Core.Logic.{inl, inr}
use mathlib.Core.Option.{Option, none, some}
use mathlib.Core.List.{List, [], ◌∷◌, ◌++◌}
use native.Mathlib.Omega.{arith}
use tracium.Prelude.Tests.{some_inj, Option-cases}
use tracium.Prelude.Lists.{All}

module _ {ℓ} {A : Type ℓ} where
  abbrev pub put_back : A → Option (A × List A) → Option (A × List A)
  put_back x none = none
  put_back x (some (y, ys)) = some (y, x ∷ ys)

  -- The request at an index, and those that stay in flight
  abbrev pub take_out : ℕ → List A → Option (A × List A)
  take_out n [] = none
  take_out zero (x ∷ xs) = some (x, xs)
  take_out (suc n) (x ∷ xs) = put_back x (take_out n xs)

  -- How many there are, each counted as often as a function says
  abbrev pub total : (A → ℕ) → List A → ℕ
  total f [] = 0
  total f (x ∷ xs) = f x + total f xs

  pub total-append : (f : A → ℕ) (xs : List A) (y : A) → total f (xs ++ y ∷ []) ≡ total f xs + f y
  total-append f [] y = omega arith
  total-append f (x ∷ xs) y = omega (arith, total-append f xs y)

  pub take_out-All :
      (P : A → Type 0) (i : ℕ) (xs : List A) (y : A) (rest : List A)
      → take_out i xs ≡ some (y, rest)
      → All P xs
      → P y × All P rest
  take_out-All P i [] y rest e _ = absurd (ground arith)
  take_out-All P zero (x ∷ xs) y rest e h =
      subst (λ (q : A × List A). P q.0 × All P q.1) (some_inj e) h
  take_out-All P (suc i) (x ∷ xs) y rest e (p, ps) = elim (Option-cases (take_out i xs)) [
    | inl f ↦ absurd (let g = sym (ap (put_back x) f) ∙ e in ground (arith, g))
    | inr ((z, zs), f) ↦
        (let (pz, pzs) = take_out-All P i xs z zs f ps in
          subst (λ (q : A × List A). P q.0 × All P q.1) (some_inj (sym (ap (put_back x) f) ∙ e))
            (pz, (p, pzs)))
  ]

  pub total-take_out :
      (f : A → ℕ) (i : ℕ) (xs : List A) (y : A) (rest : List A)
      → take_out i xs ≡ some (y, rest)
      → total f xs ≡ f y + total f rest
  total-take_out f i [] y rest e = absurd (ground arith)
  total-take_out f zero (x ∷ xs) y rest e =
      subst (λ (q : A × List A). f x + total f xs ≡ f q.0 + total f q.1) (some_inj e) refl
  total-take_out f (suc i) (x ∷ xs) y rest e = elim (Option-cases (take_out i xs)) [
    | inl g ↦ absurd (let h = sym (ap (put_back x) g) ∙ e in ground (arith, h))
    | inr ((z, zs), g) ↦
        subst (λ (q : A × List A). f x + total f xs ≡ f q.0 + total f q.1)
          (some_inj (sym (ap (put_back x) g) ∙ e)) (omega (arith, total-take_out f i xs z zs g))
  ]

-- ===== src/Prelude/Sort.antt =====
-- `Array.prototype.sort` with a comparator: the stable sort that the language specifies.
use mathlib.Core.Path.{◌≡◌, refl, sym, ◌∙◌}
use mathlib.Core.Logic.{inl, inr}
use mathlib.Core.Bool.{Bool, true, false}
use mathlib.Core.List.{List, [], ◌∷◌, Perm, Memᴰ}
use mathlib.Core.List.Perm
use mathlib.Core.List.Memᴰ
use native.Mathlib.Omega.{arith}
use tracium.Prelude.Tests.{if◌then◌else◌, Bool-cases}
use tracium.Prelude.Lists.{All, select, All-map, any, any-eq-false_iff}
use tracium.Prelude.Int.{ℤ, is_nonpos}

module _ {ℓ} {A : Type ℓ} (cmp : A → A → ℤ) where
  -- `a` may stand before `b`
  abbrev pub before : A → A → Bool
  before a b = is_nonpos (cmp a b)

  -- Among elements that compare equal, the one that came first stays first.
  unfoldable pub insert : A → List A → List A
  insert x [] = x ∷ []
  insert x (y ∷ ys) = if before x y then x ∷ y ∷ ys else y ∷ insert x ys

  unfoldable pub sort : List A → List A
  unfolding insert
  sort [] = []
  sort (x ∷ xs) = insert x (sort xs)

  insert-perm : (x : A) (l : List A) → Perm (insert x l) (x ∷ l)
  unfolding insert
  insert-perm x [] = Perm.rfl
  insert-perm x (y ∷ ys) = elim (Bool-cases (before x y)) [
    | inl e ↦ rw e Perm.rfl
    | inr e ↦ rw e (Perm.trans (Perm.cons y (insert-perm x ys)) (Perm.swap x y ys))
  ]

  pub sort-perm : (l : List A) → Perm (sort l) l
  unfolding sort
  sort-perm [] = Perm.rfl
  sort-perm (x ∷ xs) = Perm.trans (insert-perm x (sort xs)) (Perm.cons x (sort-perm xs))

  -- A predicate that holds throughout holds throughout after sorting, and the other way round.
  module _ {κ} (P : A → Type κ) where
    All-insert : (x : A) (l : List A) → P x → All P l → All P (insert x l)
    unfolding insert
    All-insert x [] p _ = (p, tt)
    All-insert x (y ∷ ys) p (q, h) = elim (Bool-cases (before x y)) [
      | inl e ↦ rw e (p, (q, h))
      | inr e ↦ rw e (q, All-insert x ys p h)
    ]

    All-of_insert : (x : A) (l : List A) → All P (insert x l) → P x × All P l
    unfolding insert
    All-of_insert x [] (p, _) = (p, tt)
    All-of_insert x (y ∷ ys) h = elim (Bool-cases (before x y)) [
      | inl e ↦ let (p, (q, k)) : P x × (P y × All P ys) = rw e at h in (p, (q, k))
      | inr e ↦
          let (q, k) : P y × All P (insert x ys) = rw e at h in
          let (p, k') = All-of_insert x ys k in (p, (q, k'))
    ]

    pub All-sort : (l : List A) → All P l → All P (sort l)
    unfolding sort
    All-sort [] _ = tt
    All-sort (x ∷ xs) (p, h) = All-insert x (sort xs) p (All-sort xs h)

    pub All-of_sort : (l : List A) → All P (sort l) → All P l
    unfolding sort
    All-of_sort [] _ = tt
    All-of_sort (x ∷ xs) h = let (p, k) = All-of_insert x (sort xs) h in (p, All-of_sort xs k)

  pub any-sort : (p : A → Bool) (l : List A) → any p (sort l) ≡ any p l
  any-sort p l = elim (Bool-cases (any p l)) [
    | inr e ↦ (any-eq-false_iff p (sort l)).1 (All-sort _ l ((any-eq-false_iff p l).0 e)) ∙ sym e
    | inl e ↦ elim (Bool-cases (any p (sort l))) [
      | inl e' ↦ e' ∙ sym e
      | inr e' ↦
          let none_passes =
            (any-eq-false_iff p l).1 (All-of_sort _ l ((any-eq-false_iff p (sort l)).0 e')) in
          cc
    ]
  ]

  mem-insert_self : (x : A) (l : List A) → Memᴰ x (insert x l)
  unfolding insert
  mem-insert_self x [] = Memᴰ.head refl
  mem-insert_self x (y ∷ ys) = elim (Bool-cases (before x y)) [
    | inl e ↦ rw e (Memᴰ.head refl)
    | inr e ↦ rw e (Memᴰ.tail (mem-insert_self x ys))
  ]

  mem-insert : {a : A} (x : A) (l : List A) → Memᴰ a l → Memᴰ a (insert x l)
  unfolding insert
  mem-insert x [] m = elim m [ ]
  mem-insert x (y ∷ ys) m = elim (Bool-cases (before x y)) [
    | inl e ↦ rw e (Memᴰ.tail m)
    | inr e ↦ rw e (elim (Memᴰ.cases_cons m) [
      | inl here ↦ Memᴰ.head here
      | inr there ↦ Memᴰ.tail (mem-insert x ys there)
    ])
  ]

  pub mem-sort : {a : A} (l : List A) → Memᴰ a l → Memᴰ a (sort l)
  unfolding sort
  mem-sort [] m = elim m [ ]
  mem-sort (x ∷ xs) (Memᴰ.head e) = Memᴰ.cast e (mem-insert_self x (sort xs))
  mem-sort (x ∷ xs) (Memᴰ.tail m) = mem-insert x (sort xs) (mem-sort xs m)

  -- What a comparator owes: it is total and transitive.
  pub record IsComparator : Type ℓ where
    pub total : (a b : A) → before a b ≡ false → before b a ≡ true
    pub trans : (a b c : A) → before a b ≡ true → before b c ≡ true → before a c ≡ true

  -- Each element may stand before all that follow it.
  abbrev pub IsSorted : List A → Type ℓ
  IsSorted [] = Unit
  IsSorted (x ∷ xs) = All (λ y. before x y ≡ true) xs × IsSorted xs

  module _ (c : IsComparator) where
    insert-IsSorted : (x : A) (l : List A) → IsSorted l → IsSorted (insert x l)
    unfolding insert
    insert-IsSorted x [] _ = (tt, tt)
    insert-IsSorted x (y ∷ ys) (low, s) = elim (Bool-cases (before x y)) [
      | inl e ↦ rw e ((e, All-map _ _ ys (λ z h. c.trans x y z e h) low), (low, s))
      | inr e ↦
          rw e
            (All-insert (λ z. before y z ≡ true) x ys (c.total x y e) low, insert-IsSorted x ys s)
    ]

    pub sort-IsSorted : (l : List A) → IsSorted (sort l)
    unfolding sort
    sort-IsSorted [] = tt
    sort-IsSorted (x ∷ xs) = insert-IsSorted x (sort xs) (sort-IsSorted xs)

  -- Elements of which each may stand before each keep their order.
  module _ (p : A → Bool) (tied : (a b : A) → p a ≡ true → p b ≡ true → before a b ≡ true) where
    select-insert : (x : A) (l : List A) → select p (insert x l) ≡ select p (x ∷ l)
    unfolding insert
    select-insert x [] = refl
    select-insert x (y ∷ ys) = elim (Bool-cases (before x y)) [
      | inl e ↦ rw e refl
      | inr e ↦ rw e (ground (arith, tied x y, select-insert x ys, e))
    ]

    pub select-sort : (l : List A) → select p (sort l) ≡ select p l
    unfolding sort
    select-sort [] = refl
    select-sort (x ∷ xs) = select-insert x (sort xs) ∙ ground (arith, select-sort xs)

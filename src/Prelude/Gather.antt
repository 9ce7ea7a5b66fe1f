-- ===== src/Prelude/Gather.antt =====
-- The lists that the elements of a list hold, one after the other, and what a `Map` holds after
-- `set`.
use mathlib.Core.Logic.{∥∥₁_elim}
use mathlib.Core.List.{Perm, Permᴰ, Perm-prop, perm_middle, append_assoc, append-nil}
use mathlib.Core.List.Perm
use mathlib.Core.List.Permᴰ
use tracium.Prelude.{
  ◌≡◌, ◌⊎◌, refl, sym, ap, ◌∙◌, subst, inl, inr, true, false, List, [], ◌∷◌, ◌++◌, map, Memᴰ, none,
  some, arith, if◌then◌else◌, ◌===◌, Key, Bool-cases, eq_of_same, All,
}
use tracium.Prelude.Maps.{has, add, Distinct, Distinct-concat, get, set}

module _ {ℓ κ} {A : Type ℓ} {B : Type κ} (f : A → List B) where
  unfoldable pub gathered : List A → List B
  gathered [] = []
  gathered (a ∷ l) = f a ++ gathered l

  append-perm_swap : (xs ys zs : List B) → Perm (xs ++ (ys ++ zs)) (ys ++ (xs ++ zs))
  append-perm_swap xs ys zs =
      subst (λ l. Perm l (ys ++ (xs ++ zs))) (append_assoc xs ys zs)
        (subst (λ l. Perm ((xs ++ ys) ++ zs) l) (append_assoc ys xs zs)
          (Perm.append_right zs ∣ Permᴰ.append_comm xs ys ∣₁))

  gathered-of_permutation : {xs ys : List A} → Permᴰ xs ys → Perm (gathered xs) (gathered ys)
  unfolding gathered
  gathered-of_permutation Permᴰ.nil = Perm.rfl
  gathered-of_permutation (Permᴰ.cons {a = a} {l₁ = l₁} {l₂ = l₂} e p) =
      subst (λ b. Perm (f a ++ gathered l₁) (f b ++ gathered l₂)) e
        (Perm.append_left (f a) (gathered-of_permutation p))
  gathered-of_permutation (Permᴰ.swap {a = a} {b = b} {b' = b'} {l = l} e e') =
      subst (λ c. Perm (f a ++ (f b ++ gathered l)) (f c ++ (f b' ++ gathered l))) e'
        (subst (λ c. Perm (f a ++ (f b ++ gathered l)) (f b ++ (f c ++ gathered l))) e
          (append-perm_swap (f a) (f b) (gathered l)))
  gathered-of_permutation (Permᴰ.trans p q) =
      Perm.trans (gathered-of_permutation p) (gathered-of_permutation q)

  -- The same elements, in another order, hold the same.
  pub gathered-perm : {xs ys : List A} → Perm xs ys → Perm (gathered xs) (gathered ys)
  gathered-perm p = ∥∥₁_elim p Perm-prop gathered-of_permutation

  -- Elements that hold the same, each in another order
  pub gathered-map :
      (g : A → A)
      → ((a : A) → Perm (f (g a)) (f a))
      → (l : List A) → Perm (gathered (map g l)) (gathered l)
  unfolding gathered
  gathered-map g h [] = Perm.rfl
  gathered-map g h (a ∷ l) = Perm.append (h a) (gathered-map g h l)

module _ {ℓ κ} {K : Type ℓ} {V : Type κ} ⦃key : Key K⦄ where
  abbrev pub keys : List (K × V) → List K
  keys m = map (λ kv. kv.0) m

  pub keys-set : (k : K) (v : V) (m : List (K × V)) → keys (set k v m) ≡ add k (keys m)
  keys-set k v [] = refl
  keys-set k v ((j, w) ∷ m) = elim (Bool-cases (j === k)) [
    | inl e ↦ rw e refl
    | inr e ↦ rw e (ap (◌∷◌ j) (keys-set k v m) ∙ after (Bool-cases (has k (keys m))))
  ]
    where
      after :
          (has k (keys m) ≡ true) ⊎ (has k (keys m) ≡ false)
          → j ∷ add k (keys m) ≡ (if has k (keys m) then j ∷ keys m else j ∷ (keys m ++ k ∷ []))
      after (inl h) = rw h refl
      after (inr h) = rw h refl

  pub Distinct-set :
      (k : K) (v : V) (m : List (K × V)) → Distinct (keys m) → Distinct (keys (set k v m))
  Distinct-set k v m d = elim (Bool-cases (has k (keys m))) [
    | inl h ↦ subst Distinct (sym (keys-set k v m)) (rw h d)
    | inr h ↦ subst Distinct (sym (keys-set k v m)) (rw h (Distinct-concat (keys m) k d h))
  ]

  pub get→Memᴰ : (k : K) {v : V} (m : List (K × V)) → get k m ≡ some v → Memᴰ (k, v) m
  get→Memᴰ k [] e = absurd (ground arith)
  get→Memᴰ k ((j, w) ∷ m) e = elim (Bool-cases (j === k)) [
    | inl s ↦
        let found : some w ≡ some _ = rw s at e in
        Memᴰ.head (let same_key = eq_of_same j k s in ground (arith, found, same_key))
    | inr s ↦ Memᴰ.tail (get→Memᴰ k m (rw s at e))
  ]

  -- What holds of every entry holds after `set` with an entry of which it holds.
  pub All-set {ι} :
      (P : K × V → Type ι) (k : K) (v : V) (m : List (K × V))
      → P (k, v)
      → All P m
      → All P (set k v m)
  All-set P k v [] p _ = (p, tt)
  All-set P k v ((j, w) ∷ m) p (q, h) = elim (Bool-cases (j === k)) [
    | inl s ↦ rw s (subst (λ i. P (i, v)) (sym (eq_of_same j k s)) p, h)
    | inr s ↦ rw s (q, All-set P k v m p h)
  ]

  module _ {ι} {B : Type ι} (f : V → List B) where
    abbrev pub held : List (K × V) → List B
    held m = gathered (λ (kv : K × V). f kv.1) m

    pub gathered-values : (m : List (K × V)) → gathered f (map (λ kv. kv.1) m) ≡ held m
    unfolding gathered
    gathered-values [] = refl
    gathered-values ((j, w) ∷ m) = ap (λ l. f w ++ l) (gathered-values m)

    -- A new entry adds what it holds; a changed one adds what it holds more.
    pub held-set_new :
        (k : K) (v : V) (m : List (K × V)) → get k m ≡ none → held (set k v m) ≡ held m ++ f v
    unfolding gathered
    held-set_new k v [] e = append-nil (f v)
    held-set_new k v ((j, w) ∷ m) e = elim (Bool-cases (j === k)) [
      | inl s ↦ (let bad : some w ≡ none = rw s at e in absurd (ground (arith, bad)))
      | inr s ↦ rw s (
          ap (λ l. f w ++ l) (held-set_new k v m (rw s at e))
          ∙ sym (append_assoc (f w) (held m) (f v)))
    ]

    pub held-set_pushed :
        (k : K) (v v' : V) (b : B) (m : List (K × V))
        → get k m ≡ some v
        → f v' ≡ f v ++ b ∷ []
        → Perm (held (set k v' m)) (b ∷ held m)
    unfolding gathered
    held-set_pushed k v v' b [] e h = absurd (ground arith)
    held-set_pushed k v v' b ((j, w) ∷ m) e h = elim (Bool-cases (j === k)) [
      | inl s ↦
          let same : w ≡ v = (let found : some w ≡ some v = rw s at e in ground (arith, found)) in
          let placed : Perm ((f v ++ b ∷ []) ++ held m) (b ∷ (f v ++ held m)) =
            subst (λ l. Perm l (b ∷ (f v ++ held m))) (sym (append_assoc (f v) (b ∷ []) (held m)))
              (perm_middle (f v) (held m)) in
          rw s (rw h (rw same placed))
      | inr s ↦ rw s (
          Perm.trans (Perm.append_left (f w) (held-set_pushed k v v' b m (rw s at e) h))
            (perm_middle (f w) (held m)))
    ]

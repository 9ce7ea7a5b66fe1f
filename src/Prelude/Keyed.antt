-- ===== src/Prelude/Keyed.antt =====
-- Lists whose elements are told apart by a key.
use mathlib.Core.Logic.{∥∥₁_elim, ∥∥₁_map}
use mathlib.Core.List.{Nodup, Nodup-nil, Nodup-cons, Perm, perm_ext_iff_of_Nodup}
use tracium.Prelude.{◌≡◌, refl, sym, ap, ◌∙◌, subst, true, List, [], ◌∷◌, map, Memᴰ, Key}
use tracium.Prelude.Maps.{has, Distinct, has→Memᴰ, Memᴰ→has}

module _ {ℓ κ} {A : Type ℓ} {B : Type κ} (f : A → B) where
  pub mem-map : (l : List A) {a : A} → Memᴰ a l → Memᴰ (f a) (map f l)
  mem-map [] m = elim m [ ]
  mem-map (x ∷ l) (Memᴰ.head e) = Memᴰ.head (ap f e)
  mem-map (x ∷ l) (Memᴰ.tail m) = Memᴰ.tail (mem-map l m)

  pub mem_of_mem-map : (l : List A) {b : B} → Memᴰ b (map f l) → (a : A) × Memᴰ a l × (b ≡ f a)
  mem_of_mem-map [] m = elim m [ ]
  mem_of_mem-map (x ∷ l) (Memᴰ.head e) = (x, Memᴰ.head refl, e)
  mem_of_mem-map (x ∷ l) (Memᴰ.tail m) = let (a, n, e) = mem_of_mem-map l m in (a, Memᴰ.tail n, e)

  pub map-map {ι} : {C : Type ι} (g : B → C) (l : List A) → map g (map f l) ≡ map (λ a. g (f a)) l
  map-map g [] = refl
  map-map g (x ∷ l) = ap (◌∷◌ (g (f x))) (map-map g l)

module _ {ℓ κ} {A : Type ℓ} {K : Type κ} ⦃key : Key K⦄ (f : A → K) where
  pub has-map : (l : List A) {a : A} → Memᴰ a l → has (f a) (map f l) ≡ true
  has-map l m = Memᴰ→has (mem-map f l m)

  pub eq_of_key :
      (l : List A) {a b : A} → Distinct (map f l) → Memᴰ a l → Memᴰ b l → f a ≡ f b → a ≡ b
  eq_of_key [] d m n e = elim m [ ]
  eq_of_key (x ∷ l) d (Memᴰ.head p) (Memᴰ.head q) e = p ∙ sym q
  eq_of_key (x ∷ l) d (Memᴰ.head p) (Memᴰ.tail n) e =
      let there = has-map l n in
      let here : has (f x) (map f l) ≡ true =
        ap (λ k. has k (map f l)) (ap f (sym p) ∙ e) ∙ there in
      absurd (cc (d.0))
  eq_of_key (x ∷ l) d (Memᴰ.tail m) (Memᴰ.head q) e =
      let there = has-map l m in
      let here : has (f x) (map f l) ≡ true =
        ap (λ k. has k (map f l)) (ap f (sym q) ∙ sym e) ∙ there in
      absurd (cc (d.0))
  eq_of_key (x ∷ l) d (Memᴰ.tail m) (Memᴰ.tail n) e = eq_of_key l d.1 m n e

  pub Distinct-Nodup : (l : List A) → Distinct (map f l) → Nodup l
  Distinct-Nodup [] d = Nodup-nil
  Distinct-Nodup (x ∷ l) (new, d) =
      Nodup-cons.1
        (λ m. ∥∥₁_elim m (λ a b. absurd a) (λ n. (let old = has-map l n in cc)), Distinct-Nodup l d)

  pub mem_of_keys :
      (xs ys : List A)
      → Distinct (map f ys)
      → ((a : A) → Memᴰ a xs → Memᴰ a ys)
      → ((a : A) → Memᴰ a ys → has (f a) (map f xs) ≡ true)
      → {a : A} → Memᴰ a ys
      → Memᴰ a xs
  mem_of_keys xs ys dy sub full {a} n =
      let (b, m', e) = mem_of_mem-map f xs (has→Memᴰ (f a) (map f xs) (full a n)) in
      subst (λ c. Memᴰ c xs) (sym (eq_of_key ys dy n (sub b m') e)) m'

  -- Two lists with distinct keys, one inside the other and with every key of it, hold the same.
  pub perm_of_keys :
      (xs ys : List A)
      → Distinct (map f xs)
      → Distinct (map f ys)
      → ((a : A) → Memᴰ a xs → Memᴰ a ys)
      → ((a : A) → Memᴰ a ys → has (f a) (map f xs) ≡ true)
      → Perm xs ys
  perm_of_keys xs ys dx dy sub full =
      (perm_ext_iff_of_Nodup (Distinct-Nodup xs dx) (Distinct-Nodup ys dy)).1
        λ a. (λ m. ∥∥₁_map m (sub a), λ m. ∥∥₁_map m (mem_of_keys xs ys dy sub full))

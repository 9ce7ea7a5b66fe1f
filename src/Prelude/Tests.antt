-- ===== src/Prelude/Tests.antt =====
-- Boolean tests on numbers and texts, and the conditional: JavaScript's `<`, `<=`, `===` and `?:`.
use Prim.Native.Nat.{ℕ, ◌≤◌, ◌<◌, compare, Ordering}
use Prim.Native.String.{String}
use mathlib.Core.Path.{◌≡◌, refl}
use mathlib.Core.Logic.{◌≢◌, ◌↔◌, ◌⊎◌, inl, inr}
use mathlib.Core.Bool.{Bool, true, false, not}
use mathlib.Core.Option.{Option, none, some}
use native.Mathlib.Omega.{arith}
use text.Mathlib.Text.{◌==◌ as text_same}
use text.Mathlib.TextEquality.{eq_iff}

abbrev pub ltb : ℕ → ℕ → Bool
ltb a b = elim (compare a b) [ Ordering.lt ↦ true | _ ↦ false ]

abbrev pub leb : ℕ → ℕ → Bool
leb a b = elim (compare a b) [ Ordering.gt ↦ false | _ ↦ true ]

abbrev pub number_same : ℕ → ℕ → Bool
number_same a b = elim (compare a b) [ Ordering.eq ↦ true | _ ↦ false ]

infix 1 if◌then◌else◌
abbrev pub if◌then◌else◌ {ℓ} : {A : Type ℓ} → Bool → A → A → A
if true then x else y = x
if false then x else y = y

pub ltb→lt : (a b : ℕ) → ltb a b ≡ true → a < b
ltb→lt a b h = ground arith

pub lt→ltb : (a b : ℕ) → a < b → ltb a b ≡ true
lt→ltb a b h = ground arith

pub leb→le : (a b : ℕ) → leb a b ≡ true → a ≤ b
leb→le a b h = ground arith

pub number_same_iff : (a b : ℕ) → (number_same a b ≡ true) ↔ (a ≡ b)
number_same_iff a b = ground arith

pub Bool-cases : (b : Bool) → (b ≡ true) ⊎ (b ≡ false)
Bool-cases true = inl refl
Bool-cases false = inr refl

pub if_true {ℓ} : {A : Type ℓ} {x : A} {b : Bool} (y : A) → b ≡ true → (if b then x else y) ≡ x
if_true y e = rw e refl

pub if_false {ℓ} : {A : Type ℓ} {y : A} {b : Bool} (x : A) → b ≡ false → (if b then x else y) ≡ y
if_false x e = rw e refl

pub some_inj {ℓ} : {A : Type ℓ} {a b : A} → some a ≡ some b → a ≡ b
some_inj e = cc

pub Option-cases {ℓ} : {A : Type ℓ} (o : Option A) → (o ≡ none) ⊎ ((a : A) × (o ≡ some a))
Option-cases none = inl refl
Option-cases (some a) = inr (a, refl)

-- The values that `===`, `Map` and `Set` compare: here texts and numbers.
pub record Key {ℓ} (K : Type ℓ) : Type ℓ where
  pub same : K → K → Bool
  pub same_iff : (j k : K) → (same j k ≡ true) ↔ (j ≡ k)

instance abbrev pub text_key : Key String
text_key = record { same = text_same; same_iff = eq_iff }

instance abbrev pub number_key : Key ℕ
number_key = record { same = number_same; same_iff = number_same_iff }

module _ {ℓ} {K : Type ℓ} ⦃key : Key K⦄ where
  infix 50 ◌===◌
  abbrev pub ◌===◌ : K → K → Bool
  j === k = key.same j k

  pub same_refl : (k : K) → (k === k) ≡ true
  same_refl k = (key.same_iff k k).1 refl

  pub eq_of_same : (j k : K) → (j === k) ≡ true → j ≡ k
  eq_of_same j k = (key.same_iff j k).0

  pub ne_of_differs : (j k : K) → (j === k) ≡ false → j ≢ k
  ne_of_differs j k h e = ground (arith, key.same_iff j k)

  pub same_comm : (j k : K) → (j === k) ≡ (k === j)
  same_comm j k = ground (arith, key.same_iff j k, key.same_iff k j)

-- A text as a test, and `s || t`
abbrev pub is_truthy : String → Bool
is_truthy s = not (text_same s "")

abbrev pub or_text : String → String → String
or_text s t = if is_truthy s then s else t

-- A chain of steps that may fail
infixl 5 ◌>>=◌
abbrev pub ◌>>=◌ {ℓ κ} : {A : Type ℓ} {B : Type κ} → Option A → (A → Option B) → Option B
none >>= k = none
some a >>= k = k a

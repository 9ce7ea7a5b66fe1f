-- ===== src/Prelude/Numbers.antt =====
-- `String(n)` of a whole number, and texts that a colon joins: two such texts are equal only if
-- their parts are.
use Prim.Native.Char.{Char, code}
use Prim.Native.String
use Prim.Native.String.{String, [], ◌∷◌}
use text.Mathlib.TextLemmas.{nil-append, cons-append, cons-eq-cons}
use mathlib.Core.Path.{ap₂}
use tracium.Prelude.{
  ℕ, zero, suc, ◌+◌, ◌-◌, ◌*◌, ◌/◌, ◌%◌, ◌<◌, ◌≡◌, ◌≢◌, refl, sym, ap, ◌∙◌, subst, inl, inr, arith,
  ltb, if◌then◌else◌, number_key, Bool-cases, ltb→lt,
}

infixr 65 ◌⧺◌
abbrev pub ◌⧺◌ : String → String → String
s ⧺ t = String.◌++◌ s t

digit : ℕ → String
digit zero = "0"
digit (suc zero) = "1"
digit (suc (suc zero)) = "2"
digit (suc (suc (suc zero))) = "3"
digit (suc (suc (suc (suc zero)))) = "4"
digit (suc (suc (suc (suc (suc zero))))) = "5"
digit (suc (suc (suc (suc (suc (suc zero)))))) = "6"
digit (suc (suc (suc (suc (suc (suc (suc zero))))))) = "7"
digit (suc (suc (suc (suc (suc (suc (suc (suc zero)))))))) = "8"
digit _ = "9"

-- The digits of a number below 10 ^ fuel
digits_of : ℕ → ℕ → String
digits_of zero n = ""
digits_of (suc fuel) n =
    let front = digits_of fuel (n / 10) in if ltb n 10 then digit n else front ⧺ digit (n % 10)

-- A number has at most as many digits as its value, or one.
unfoldable pub number_text : ℕ → String
unfolding digits_of digit
number_text n = digits_of (suc n) n

-- The number that a text of digits stands for, behind the digits read so far
value_from : ℕ → String → ℕ
value_from acc [] = acc
value_from acc (c ∷ s) = value_from (acc * 10 + (code c - 48)) s

value_from-append :
    (acc : ℕ) (s t : String) → value_from acc (s ⧺ t) ≡ value_from (value_from acc s) t
unfolding value_from
value_from-append acc [] t = rw nil-append
value_from-append acc (c ∷ s) t = rw cons-append (value_from-append (acc * 10 + (code c - 48)) s t)

value_from-digit : (acc d : ℕ) → d < 10 → value_from acc (digit d) ≡ acc * 10 + d
unfolding value_from digit
value_from-digit acc zero h = omega arith
value_from-digit acc (suc zero) h = omega arith
value_from-digit acc (suc (suc zero)) h = omega arith
value_from-digit acc (suc (suc (suc zero))) h = omega arith
value_from-digit acc (suc (suc (suc (suc zero)))) h = omega arith
value_from-digit acc (suc (suc (suc (suc (suc zero))))) h = omega arith
value_from-digit acc (suc (suc (suc (suc (suc (suc zero)))))) h = omega arith
value_from-digit acc (suc (suc (suc (suc (suc (suc (suc zero))))))) h = omega arith
value_from-digit acc (suc (suc (suc (suc (suc (suc (suc (suc zero)))))))) h = omega arith
value_from-digit acc (suc (suc (suc (suc (suc (suc (suc (suc (suc d))))))))) h = omega arith

value_from-digits_of : (fuel n : ℕ) → n < fuel → value_from 0 (digits_of fuel n) ≡ n
unfolding digits_of
value_from-digits_of zero n h = absurd (omega arith)
value_from-digits_of (suc fuel) n h = elim (Bool-cases (ltb n 10)) [
  | inl e ↦ rw e (value_from-digit 0 n (ltb→lt n 10 e) ∙ omega arith)
  | inr e ↦
      let ih = value_from-digits_of fuel (n / 10) (ground arith) in
      rw (e, value_from-append)
        (value_from-digit (value_from 0 (digits_of fuel (n / 10))) (n % 10) (omega arith)
          ∙ omega (arith, ih))
]

pub number_text-injective : (n m : ℕ) → number_text n ≡ number_text m → n ≡ m
unfolding number_text
number_text-injective n m e =
    sym (value_from-digits_of (suc n) n (omega arith))
    ∙ ap (value_from 0) e
    ∙ value_from-digits_of (suc m) m (omega arith)

-- No colon
abbrev pub IsPlain : String → Type 0
IsPlain [] = Unit
IsPlain (c ∷ s) = (code c ≢ 58) × IsPlain s

IsPlain-append : (s t : String) → IsPlain s → IsPlain t → IsPlain (s ⧺ t)
IsPlain-append [] t _ k = rw nil-append k
IsPlain-append (c ∷ s) t (p, h) k = rw cons-append (p, IsPlain-append s t h k)

digit-IsPlain : (d : ℕ) → IsPlain (digit d)
unfolding digit
digit-IsPlain zero = omega arith
digit-IsPlain (suc zero) = omega arith
digit-IsPlain (suc (suc zero)) = omega arith
digit-IsPlain (suc (suc (suc zero))) = omega arith
digit-IsPlain (suc (suc (suc (suc zero)))) = omega arith
digit-IsPlain (suc (suc (suc (suc (suc zero))))) = omega arith
digit-IsPlain (suc (suc (suc (suc (suc (suc zero)))))) = omega arith
digit-IsPlain (suc (suc (suc (suc (suc (suc (suc zero))))))) = omega arith
digit-IsPlain (suc (suc (suc (suc (suc (suc (suc (suc zero)))))))) = omega arith
digit-IsPlain (suc (suc (suc (suc (suc (suc (suc (suc (suc d))))))))) = omega arith

digits_of-IsPlain : (fuel n : ℕ) → IsPlain (digits_of fuel n)
unfolding digits_of
digits_of-IsPlain zero n = tt
digits_of-IsPlain (suc fuel) n = elim (Bool-cases (ltb n 10)) [
  | inl e ↦ rw e (digit-IsPlain n)
  | inr e ↦ rw e (
      IsPlain-append (digits_of fuel (n / 10)) _ (digits_of-IsPlain fuel (n / 10))
        (digit-IsPlain (n % 10)))
]

not-IsPlain_joined : (s t : String) → IsPlain (s ⧺ (":" ⧺ t)) → ⊥
not-IsPlain_joined [] t h =
    let h' : IsPlain (":" ⧺ t) = rw nil-append at h in
    let bad : (58 ≢ 58) × IsPlain ([] ⧺ t) = rw cons-append at h' in bad.0 refl
not-IsPlain_joined (c ∷ s) t h =
    let h' : (code c ≢ 58) × IsPlain (s ⧺ (":" ⧺ t)) = rw cons-append at h in
    not-IsPlain_joined s t h'.1

abbrev colon : Char
colon = ":"

colon_then : (t : String) → [] ⧺ (":" ⧺ t) ≡ colon ∷ t
colon_then t = nil-append _ ∙ cons-append colon [] t ∙ ap (◌∷◌ colon) (nil-append t)

colon-eq-cons : (c : Char) (s t t' : String) → [] ⧺ (":" ⧺ t) ≡ (c ∷ s) ⧺ (":" ⧺ t') → IsPlain t → ⊥
colon-eq-cons c s t t' e h =
    not-IsPlain_joined s t'
      (subst IsPlain (cons-eq-cons.0 (sym (colon_then t) ∙ e ∙ cons-append c s _)).1 h)

-- The last colon tells the two parts apart.
pub joined-injective :
    (s s' t t' : String)
    → IsPlain t
    → IsPlain t'
    → s ⧺ (":" ⧺ t) ≡ s' ⧺ (":" ⧺ t')
    → (s ≡ s') × (t ≡ t')
joined-injective [] [] t t' h h' e =
    (refl, (cons-eq-cons.0 (sym (colon_then t) ∙ e ∙ colon_then t')).1)
joined-injective [] (c ∷ s') t t' h h' e = absurd (colon-eq-cons c s' t t' e h)
joined-injective (c ∷ s) [] t t' h h' e = absurd (colon-eq-cons c s t' t (sym e) h')
joined-injective (c ∷ s) (c' ∷ s') t t' h h' e =
    let (first, rest) = cons-eq-cons.0 (sym (cons-append c s _) ∙ e ∙ cons-append c' s' _) in
    let (front, back) = joined-injective s s' t t' h h' rest in (ap₂ ◌∷◌ first front, back)

pub number_text-IsPlain : (n : ℕ) → IsPlain (number_text n)
unfolding number_text
number_text-IsPlain n = digits_of-IsPlain (suc n) n

pub append-cancel_left : (p s t : String) → p ⧺ s ≡ p ⧺ t → s ≡ t
append-cancel_left [] s t e = sym (nil-append s) ∙ e ∙ nil-append t
append-cancel_left (c ∷ p) s t e =
    append-cancel_left p s t (cons-eq-cons.0 (sym (cons-append c p s) ∙ e ∙ cons-append c p t)).1

-- Texts that start with different characters differ.
pub append-ne : (c d : Char) (p q s t : String) → code c ≢ code d → (c ∷ p) ⧺ s ≢ (d ∷ q) ⧺ t
append-ne c d p q s t ne e =
    ne (ap code (cons-eq-cons.0 (sym (cons-append c p s) ∙ e ∙ cons-append d q t)).0)

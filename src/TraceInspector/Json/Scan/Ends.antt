-- ===== src/TraceInspector/Json/Scan/Ends.antt =====
-- What `findBalancedEnd` finds is the end of the groups that are open.
use mathlib.Core.List.{append_assoc}
use tracium.Prelude.{
  ℕ, zero, suc, ◌≡◌, refl, sym, ap, ◌∙◌, subst, inl, inr, true, false, [], ◌∷◌, ◌++◌, some,
  some_inj, arith, ◌===◌, number_key, Bool-cases, length, eq_of_same,
}
use tracium.Prelude.Int.{pos}
use tracium.Uri.{Text}
use tracium.TraceInspector.Json.{is_open, is_close, Place, one_more, find_balanced_end}
use tracium.TraceInspector.Json.Groups.{IsString, IsInside}
use tracium.TraceInspector.Json.Scan.Steps.{
  at_open, at_last, at_close, at_unit, at_string_unit, one_more-some,
}

-- A text that closes so many groups, after the one that it is in
unfoldable pub IsClosing : ℕ → Text → Type 0
IsClosing zero t = IsInside t
IsClosing (suc d) t = (s : Text) × (u : Text) × IsInside s × IsClosing d u × (t ≡ s ++ u)

-- The same from a place
unfoldable pub IsRest : Place → ℕ → Text → Type 0
IsRest Place.outside d t = IsClosing d t
IsRest Place.in_string d t = (s : Text) × (u : Text) × IsString s × IsClosing d u × (t ≡ s ++ u)
IsRest Place.escaped d t =
    (c : ℕ) × (s : Text) × (u : Text) × IsString s × IsClosing d u × (t ≡ c ∷ (s ++ u))

behind :
    (before : Text) (d : ℕ) (u : Text)
    → ((t : Text) → IsInside t → IsInside (before ++ t))
    → IsClosing d u
    → IsClosing d (before ++ u)
unfolding IsClosing
behind before zero u f h = f u h
behind before (suc d) u f (s, v, i, h, e) =
    (before ++ s, v, f s i, h, ap (λ t. before ++ t) e ∙ sym (append_assoc before s v))

-- What the scan finds from a place inside a group
unfoldable pub Found : Place → ℕ → Text → ℕ → Type 0
Found place d text n =
    (g : Text) × (rest : Text) × (text ≡ g ++ rest) × (n ≡ length g) × IsRest place d g

Found-one :
    (place place' : Place) (d d' : ℕ) (c : ℕ) (text : Text) (m : ℕ)
    → ((g : Text) → IsRest place' d' g → IsRest place d (c ∷ g))
    → Found place' d' text m
    → Found place d (c ∷ text) (suc m)
unfolding Found
Found-one place place' d d' c text m f (g, rest, e, l, h) =
    (c ∷ g, rest, ap (λ t. c ∷ t) e, ap suc l, f g h)

IsRest-open : (c d : ℕ) (g : Text) → is_open c ≡ true → IsClosing (suc d) g → IsClosing d (c ∷ g)
unfolding IsClosing
IsRest-open c d g o (s, u, i, h, e) =
    subst (λ t. IsClosing d (c ∷ t)) (sym e) (behind (c ∷ s) d u (λ t j. IsInside.nested c o i j) h)

IsRest-quote : (d : ℕ) (g : Text) → IsRest Place.in_string d g → IsClosing d (34 ∷ g)
unfolding IsRest
IsRest-quote d g (s, u, i, h, e) =
    subst (λ t. IsClosing d (34 ∷ t)) (sym e) (behind (34 ∷ s) d u (λ t j. IsInside.string i j) h)

IsRest-close : (c d : ℕ) (g : Text) → is_close c ≡ true → IsClosing d g → IsClosing (suc d) (c ∷ g)
unfolding IsClosing
IsRest-close c d g h r = (c ∷ [], g, IsInside.shut c h, r, refl)

IsRest-unit :
    (c d : ℕ) (g : Text)
    → is_open c ≡ false
    → is_close c ≡ false
    → (c === 34) ≡ false
    → IsClosing d g
    → IsClosing d (c ∷ g)
IsRest-unit c d g o h q r = behind (c ∷ []) d g (λ t j. IsInside.unit c o h q j) r

IsRest-string_unit :
    (c d : ℕ) (g : Text)
    → (c === 34) ≡ false
    → (c === 92) ≡ false
    → IsRest Place.in_string d g
    → IsRest Place.in_string d (c ∷ g)
unfolding IsRest
IsRest-string_unit c d g q b (s, u, i, h, e) =
    (c ∷ s, u, IsString.unit c q b i, h, ap (λ t. c ∷ t) e)

IsRest-string_quote : (d : ℕ) (g : Text) → IsClosing d g → IsRest Place.in_string d (34 ∷ g)
unfolding IsRest
IsRest-string_quote d g h = (34 ∷ [], g, IsString.quote, h, refl)

IsRest-string_escape :
    (d : ℕ) (g : Text) → IsRest Place.escaped d g → IsRest Place.in_string d (92 ∷ g)
unfolding IsRest
IsRest-string_escape d g (c, s, u, i, h, e) =
    (92 ∷ c ∷ s, u, IsString.escape c i, h, ap (λ t. 92 ∷ t) e)

IsRest-escaped : (c d : ℕ) (g : Text) → IsRest Place.in_string d g → IsRest Place.escaped d (c ∷ g)
unfolding IsRest
IsRest-escaped c d g (s, u, i, h, e) = (c, s, u, i, h, ap (λ t. c ∷ t) e)

-- What one more unit makes of the rest of the scan
Found-step :
    (place place' : Place) (d d' c : ℕ) (text : Text) (n : ℕ)
    → ((g : Text) → IsRest place' d' g → IsRest place d (c ∷ g))
    → ((m : ℕ) → find_balanced_end (pos (suc d')) place' text ≡ some m → Found place' d' text m)
    → one_more (find_balanced_end (pos (suc d')) place' text) ≡ some n
    → Found place d (c ∷ text) n
Found-step place place' d d' c text n f found e =
    let (m, later, same) = one_more-some (find_balanced_end (pos (suc d')) place' text) n e in
    subst (Found place d (c ∷ text)) (sym same)
      (Found-one place place' d d' c text m f (found m later))

pub find_balanced_end-Found :
    (place : Place) (d : ℕ) (text : Text) (n : ℕ)
    → find_balanced_end (pos (suc d)) place text ≡ some n
    → Found place d text n
unfolding IsRest IsClosing Found find_balanced_end
find_balanced_end-Found place d [] n e = absurd (ground arith)
find_balanced_end-Found Place.escaped d (c ∷ text) n e =
    Found-step Place.escaped Place.in_string d d c text n (IsRest-escaped c d)
      (find_balanced_end-Found Place.in_string d text) e
find_balanced_end-Found Place.in_string d (c ∷ text) n e = elim (Bool-cases (c === 34)) [
  | inl q ↦
      let same = eq_of_same c 34 q in
      subst (λ a. Found Place.in_string d (a ∷ text) n) (sym same)
        (Found-step Place.in_string Place.outside d d 34 text n (IsRest-string_quote d)
          (find_balanced_end-Found Place.outside d text)
          (subst (λ a. find_balanced_end (pos (suc d)) Place.in_string (a ∷ text) ≡ some n) same e))
  | inr q ↦ elim (Bool-cases (c === 92)) [
    | inl b ↦
        let same = eq_of_same c 92 b in
        subst (λ a. Found Place.in_string d (a ∷ text) n) (sym same)
          (Found-step Place.in_string Place.escaped d d 92 text n (IsRest-string_escape d)
            (find_balanced_end-Found Place.escaped d text)
            (subst (λ a. find_balanced_end (pos (suc d)) Place.in_string (a ∷ text) ≡ some n) same
              e))
    | inr b ↦
        Found-step Place.in_string Place.in_string d d c text n
          (λ g r. IsRest-string_unit c d g q b r) (find_balanced_end-Found Place.in_string d text)
          (sym (at_string_unit d c text q b) ∙ e)
  ]
]
find_balanced_end-Found Place.outside d (c ∷ text) n e = elim (Bool-cases (c === 34)) [
  | inl q ↦
      let same = eq_of_same c 34 q in
      subst (λ a. Found Place.outside d (a ∷ text) n) (sym same)
        (Found-step Place.outside Place.in_string d d 34 text n (IsRest-quote d)
          (find_balanced_end-Found Place.in_string d text)
          (subst (λ a. find_balanced_end (pos (suc d)) Place.outside (a ∷ text) ≡ some n) same e))
  | inr q ↦ elim (Bool-cases (is_open c)) [
    | inl o ↦
        Found-step Place.outside Place.outside d (suc d) c text n (λ g. IsRest-open c d g o)
          (find_balanced_end-Found Place.outside (suc d) text) (sym (at_open d c text o) ∙ e)
    | inr o ↦ elim (Bool-cases (is_close c)) [
      | inl h ↦ closing d (λ k m. find_balanced_end-Found Place.outside k text m) h e
      | inr h ↦
          Found-step Place.outside Place.outside d d c text n (λ g. IsRest-unit c d g o h q)
            (find_balanced_end-Found Place.outside d text) (sym (at_unit d c text o h q) ∙ e)
    ]
  ]
]
  where
    closing :
        (d : ℕ)
        → ((k m : ℕ)
            → find_balanced_end (pos (suc k)) Place.outside text ≡ some m
            → Found Place.outside k text m)
        → is_close c ≡ true
        → find_balanced_end (pos (suc d)) Place.outside (c ∷ text) ≡ some n
        → Found Place.outside d (c ∷ text) n
    closing zero found h e =
        (c ∷ [], text, refl, some_inj (sym e ∙ at_last c text h), IsInside.shut c h)
    closing (suc d) found h e =
        Found-step Place.outside Place.outside (suc d) d c text n (λ g. IsRest-close c d g h)
          (found d) (sym (at_close d c text h) ∙ e)

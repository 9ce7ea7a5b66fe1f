-- ===== src/TraceInspector/Json/Scan/Steps.antt =====
-- One step of `findBalancedEnd`, by what stands there.
use tracium.Prelude.{
  ℕ, suc, ◌≡◌, refl, sym, true, false, ◌∷◌, Option, none, some, some_inj, arith, ◌===◌, number_key,
}
use tracium.Prelude.Int.{pos}
use tracium.Uri.{Text}
use tracium.TraceInspector.Json.{is_open, is_close, Place, one_more, find_balanced_end}

pub open-not_quote : (c : ℕ) → is_open c ≡ true → (c === 34) ≡ false
open-not_quote c o = ground arith

pub open-not_close : (c : ℕ) → is_open c ≡ true → is_close c ≡ false
open-not_close c o = ground arith

pub close-not_open : (c : ℕ) → is_close c ≡ true → is_open c ≡ false
close-not_open c o = ground arith

pub close-not_quote : (c : ℕ) → is_close c ≡ true → (c === 34) ≡ false
close-not_quote c o = ground arith

-- One step of the scan inside a group, by what stands there
pub at_open :
    (d c : ℕ) (text : Text)
    → is_open c ≡ true
    → find_balanced_end (pos (suc d)) Place.outside (c ∷ text)
      ≡ one_more (find_balanced_end (pos (suc (suc d))) Place.outside text)
unfolding find_balanced_end
at_open d c text o =
    let q = open-not_quote c o in let h = open-not_close c o in rw o (rw q (rw h refl))

pub at_last :
    (c : ℕ) (text : Text)
    → is_close c ≡ true
    → find_balanced_end (pos 1) Place.outside (c ∷ text) ≡ some 1
unfolding find_balanced_end
at_last c text h = rw h refl

pub at_close :
    (d c : ℕ) (text : Text)
    → is_close c ≡ true
    → find_balanced_end (pos (suc (suc d))) Place.outside (c ∷ text)
      ≡ one_more (find_balanced_end (pos (suc d)) Place.outside text)
unfolding find_balanced_end
at_close d c text h =
    let o = close-not_open c h in let q = close-not_quote c h in rw h (rw o (rw q refl))

pub at_unit :
    (d c : ℕ) (text : Text)
    → is_open c ≡ false
    → is_close c ≡ false
    → (c === 34) ≡ false
    → find_balanced_end (pos (suc d)) Place.outside (c ∷ text)
      ≡ one_more (find_balanced_end (pos (suc d)) Place.outside text)
unfolding find_balanced_end
at_unit d c text o h q = rw o (rw h (rw q refl))

pub at_string_unit :
    (d c : ℕ) (text : Text)
    → (c === 34) ≡ false
    → (c === 92) ≡ false
    → find_balanced_end (pos (suc d)) Place.in_string (c ∷ text)
      ≡ one_more (find_balanced_end (pos (suc d)) Place.in_string text)
unfolding find_balanced_end
at_string_unit d c text q e = rw q (rw e refl)

pub one_more-some :
    (o : Option ℕ) (n : ℕ) → one_more o ≡ some n → (m : ℕ) × (o ≡ some m) × (n ≡ suc m)
one_more-some none n e = absurd (ground arith)
one_more-some (some m) n e = (m, refl, sym (some_inj e))

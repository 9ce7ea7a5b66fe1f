-- ===== src/TraceInspector/Json/Scan.antt =====
-- `findBalancedEnd` of dashboard/src/modules/trace-inspector/utils/prettifyMaybeJson.ts finds the
-- end of a balanced group, if one starts where it looks.
pub mod Steps
pub mod Ends
use mathlib.Core.List.{append_assoc}
use tracium.Prelude.{
  ℕ, zero, suc, ◌≡◌, refl, sym, ap, ◌∙◌, subst, inl, inr, Bool, true, false, [], ◌∷◌, ◌++◌, Option,
  none, some, some_inj, arith, ◌===◌, number_key, Bool-cases, Option-cases, length, eq_of_same,
}
use tracium.Prelude.Int.{pos}
use tracium.Uri.{Text}
use tracium.TraceInspector.Json.{
  is_open, is_close, Place, depth_after, place_after, closes, one_more, find_balanced_end,
}
use tracium.TraceInspector.Json.Groups.{IsString, IsInside, IsGroup}
use Steps.{
  at_open, at_last, at_close, at_unit, at_string_unit, one_more-some, open-not_quote,
  open-not_close,
}
use Ends.{Found, IsRest, IsClosing, find_balanced_end-Found}

-- So much further on
abbrev more : ℕ → Option ℕ → Option ℕ
more zero o = o
more (suc n) o = one_more (more n o)

more-append :
    (s t : Text) (o : Option ℕ) → more (length (s ++ t)) o ≡ more (length s) (more (length t) o)
more-append [] t o = refl
more-append (c ∷ s) t o = ap one_more (more-append s t o)

more-some : (n : ℕ) → more n (some 0) ≡ some n
more-some zero = refl
more-some (suc n) = ap one_more (more-some n)

-- The scan behind a group, which ends where none is open
abbrev find_outer : ℕ → Text → Option ℕ
find_outer zero rest = some 0
find_outer (suc d) rest = find_balanced_end (pos (suc d)) Place.outside rest

find-string :
    (d : ℕ) {s : Text} (rest : Text)
    → IsString s
    → find_balanced_end (pos (suc d)) Place.in_string (s ++ rest)
      ≡ more (length s) (find_balanced_end (pos (suc d)) Place.outside rest)
unfolding find_balanced_end
find-string d rest IsString.quote = refl
find-string d rest (IsString.unit {t = t} c q b i) =
    at_string_unit d c (t ++ rest) q b ∙ ap one_more (find-string d rest i)
find-string d rest (IsString.escape c i) = ap one_more (ap one_more (find-string d rest i))

find-inside :
    (d : ℕ) {s : Text} (rest : Text)
    → IsInside s
    → find_balanced_end (pos (suc d)) Place.outside (s ++ rest)
      ≡ more (length s) (find_outer d rest)
unfolding find_balanced_end
find-inside zero rest (IsInside.shut c h) = at_last c rest h
find-inside (suc d) rest (IsInside.shut c h) = at_close d c rest h
find-inside d rest (IsInside.unit {t = t} c o h q i) =
    at_unit d c (t ++ rest) o h q ∙ ap one_more (find-inside d rest i)
find-inside d rest (IsInside.string {s = s} {t = t} i j) = ap one_more (
    ap (find_balanced_end (pos (suc d)) Place.in_string) (append_assoc s t rest)
    ∙ find-string d (t ++ rest) i
    ∙ ap (more (length s)) (find-inside d rest j)
    ∙ sym (more-append s t (find_outer d rest)))
find-inside d rest (IsInside.nested {s = s} {t = t} c o i j) =
    at_open d c ((s ++ t) ++ rest) o
    ∙ ap one_more (
        ap (find_balanced_end (pos (suc (suc d))) Place.outside) (append_assoc s t rest)
        ∙ find-inside (suc d) (t ++ rest) i
        ∙ ap (more (length s)) (find-inside d rest j)
        ∙ sym (more-append s t (find_outer d rest)))

-- From a bracket that opens on, `findBalancedEnd` finds the end of a group, if one starts there.
first_open :
    (c : ℕ) (text : Text)
    → is_open c ≡ true
    → find_balanced_end (pos 0) Place.outside (c ∷ text)
      ≡ one_more (find_balanced_end (pos 1) Place.outside text)
unfolding find_balanced_end
first_open c text o =
    let q = open-not_quote c o in let h = open-not_close c o in rw o (rw q (rw h refl))

pub find_balanced_end-IsGroup :
    (c : ℕ) (text : Text) (n : ℕ)
    → is_open c ≡ true
    → find_balanced_end (pos 0) Place.outside (c ∷ text) ≡ some n
    → (g : Text) × (rest : Text) × (c ∷ text ≡ g ++ rest) × (n ≡ length g) × IsGroup g
unfolding Found IsRest IsClosing
find_balanced_end-IsGroup c text n o e =
    let (m, later, same) =
      one_more-some (find_balanced_end (pos 1) Place.outside text) n
        (sym (first_open c text o) ∙ e) in
    let (g, rest, is, l, h) = find_balanced_end-Found Place.outside 0 text m later in
    (c ∷ g, rest, ap (λ t. c ∷ t) is, same ∙ ap suc l, IsGroup.group c o h)

pub find_balanced_end-append :
    {g : Text} (rest : Text)
    → IsGroup g
    → find_balanced_end (pos 0) Place.outside (g ++ rest) ≡ some (length g)
find_balanced_end-append rest (IsGroup.group {t = t} c o i) =
    first_open c (t ++ rest) o ∙ ap one_more (find-inside 0 rest i ∙ more-some (length t))

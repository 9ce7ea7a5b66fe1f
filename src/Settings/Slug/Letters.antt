-- ===== src/Settings/Slug/Letters.antt =====
-- A slug keeps the letters and digits of the text, in their order.
use tracium.Prelude.{
  ℕ, zero, suc, ◌≡◌, refl, sym, ap, ◌∙◌, Bool, true, ◌&&◌, ◌||◌, not, [], ◌∷◌, arith, if◌then◌else◌,
  number_same, Bool-cases, inl, inr, if_true, if_false, select,
}
use tracium.Uri.{Text, within}
use tracium.Extensions.{starts_with}
use tracium.Texts.{trim, trim_start, trim_end, is_empty, is_wide_space, space_length}
use tracium.Settings.Slug.{is_slug_byte, continues, dash_runs, drop_front, drop_back, slugify}
use tracium.Settings.Slug.Laws.{is_slug, slugify-is_slug, slugify-slug}

abbrev pub letters : Text → Text
letters = select is_slug_byte

-- The first bytes are none of [a-z0-9].
abbrev no_bytes : ℕ → Text → Bool
no_bytes zero t = true
no_bytes (suc n) [] = true
no_bytes (suc n) (c ∷ t) = not (is_slug_byte c) && no_bytes n t

wide-no_bytes : (t : Text) → is_wide_space t ≡ true → no_bytes 3 t ≡ true
wide-no_bytes [] h = refl
wide-no_bytes (a ∷ []) h = absurd (ground (arith, h))
wide-no_bytes (a ∷ b ∷ []) h = absurd (ground (arith, h))
wide-no_bytes (a ∷ b ∷ d ∷ t) h = ground (arith, h)

two-no_bytes : (t : Text) → starts_with (194 ∷ 160 ∷ []) t ≡ true → no_bytes 2 t ≡ true
two-no_bytes [] h = refl
two-no_bytes (a ∷ []) h = absurd (ground (arith, h))
two-no_bytes (a ∷ b ∷ t) h = ground (arith, h)

space-no_bytes : (c : ℕ) (t : Text) → no_bytes (space_length (c ∷ t)) (c ∷ t) ≡ true
space-no_bytes c t =
    let narrow = within 9 13 c || number_same c 32 in
    let two = starts_with (194 ∷ 160 ∷ []) (c ∷ t) in
    let wide = is_wide_space (c ∷ t) in
    let P = λ (n : ℕ). no_bytes n (c ∷ t) in
    elim (Bool-cases narrow) [
      | inl e ↦ ap P (if_true _ e) ∙ ground (arith, e)
      | inr e ↦ ap P (if_false 1 e) ∙ elim (Bool-cases two) [
        | inl f ↦ ap P (if_true _ f) ∙ two-no_bytes (c ∷ t) f
        | inr f ↦ ap P (if_false 2 f) ∙ elim (Bool-cases wide) [
          | inl g ↦ ap P (if_true 0 g) ∙ wide-no_bytes (c ∷ t) g
          | inr g ↦ ap P (if_false 3 g) ∙ refl
        ]
      ]
    ]

letters-trim_start :
    (skip : ℕ) (t : Text) → no_bytes skip t ≡ true → letters (trim_start skip t) ≡ letters t
unfolding trim_start
letters-trim_start skip [] h = refl
letters-trim_start (suc skip) (c ∷ t) h =
    letters-trim_start skip t (ground (arith, h))
    ∙ sym (if_false {b = is_slug_byte c} _ (ground (arith, h)))
letters-trim_start zero (c ∷ t) _ =
    (elim (space_length (c ∷ t))
        as (λ n.
          no_bytes n (c ∷ t) ≡ true
          → letters (elim n [ zero ↦ c ∷ t | suc more ↦ trim_start more t ]) ≡ letters (c ∷ t)) [
            | zero ↦ λ _. refl
            | suc more ↦ λ h.
                letters-trim_start more t (ground (arith, h))
                ∙ sym (if_false {b = is_slug_byte c} _ (ground (arith, h)))
          ])
      (space-no_bytes c t)

letters-trim_end : (t : Text) → letters (trim_end t) ≡ letters t
unfolding trim_end
letters-trim_end [] = refl
letters-trim_end (c ∷ t) = elim (Bool-cases (is_empty (trim_start 0 (c ∷ t)))) [
  | inl e ↦
      ap letters (if_true _ e)
      ∙ sym (ap letters (empty_of (trim_start 0 (c ∷ t)) e))
      ∙ letters-trim_start 0 (c ∷ t) refl
  | inr e ↦
      ap letters (if_false _ e) ∙ ap (λ l. if is_slug_byte c then c ∷ l else l) (letters-trim_end t)
]
  where
    empty_of : (s : Text) → is_empty s ≡ true → s ≡ []
    empty_of [] h = refl
    empty_of (d ∷ s) h = absurd (ground arith)

letters-dash_runs : (t : Text) → letters (dash_runs t) ≡ letters t
unfolding dash_runs
letters-dash_runs [] = refl
letters-dash_runs (c ∷ t) =
    let rest = letters-dash_runs t in
    elim (Bool-cases (is_slug_byte c)) [
      | inl e ↦ rw e (rw e (ap (c ∷◌) rest))
      | inr e ↦ elim (Bool-cases (continues t)) [
        | inl more ↦ rw e (rw more rest)
        | inr last ↦ rw e (rw last rest)
      ]
    ]

-- Without a dash in front
letters-dash : (c : ℕ) (t : Text) → number_same c 45 ≡ true → letters (c ∷ t) ≡ letters t
letters-dash c t e = if_false {b = is_slug_byte c} _ (ground (arith, e))

letters-drop_front : (t : Text) → letters (drop_front t) ≡ letters t
unfolding drop_front
letters-drop_front [] = refl
letters-drop_front (c ∷ t) = elim (Bool-cases (number_same c 45)) [
  | inl e ↦ ap letters (if_true _ e) ∙ letters-drop_front t ∙ sym (letters-dash c t e)
  | inr e ↦ ap letters (if_false _ e)
]

letters-drop_back : (t : Text) → letters (drop_back t) ≡ letters t
unfolding drop_back
letters-drop_back [] = refl
letters-drop_back (c ∷ t) =
    let rest = letters-drop_back t in
    let kept = λ (l : Text). if is_slug_byte c then c ∷ l else l in
    elim (Bool-cases (number_same c 45)) [
      | inl e ↦ ap letters (if_true _ e) ∙ dropped (drop_back t) e ∙ rest ∙ sym (letters-dash c t e)
      | inr e ↦ ap letters (if_false _ e) ∙ ap kept rest
    ]
  where
    dropped :
        (r : Text)
        → number_same c 45 ≡ true
        → letters (if is_empty r then [] else c ∷ r) ≡ letters r
    dropped [] e = refl
    dropped (d ∷ r) e = letters-dash c (d ∷ r) e

-- `slugify` makes bytes of [a-z0-9], in runs that single dashes part, and they are those of the
-- text in lower case, in their order. A text that is a slug, and that the host's `toLowerCase` leaves
-- alone, stays as it is.
pub slugify_lem :
    (lower : Text → Text) (t : Text)
    → (is_slug (slugify lower t) ≡ true)
      × (letters (slugify lower t) ≡ letters (lower t))
      × (lower t ≡ t → is_slug t ≡ true → slugify lower t ≡ t)
unfolding slugify
slugify_lem lower t =
    let s = lower t in
    (
      slugify-is_slug lower t,
      letters-drop_back (drop_front (dash_runs (trim s)))
          ∙ letters-drop_front (dash_runs (trim s))
          ∙ letters-dash_runs (trim s)
          ∙ letters-trim_end (trim_start 0 s)
          ∙ letters-trim_start 0 s refl,
      slugify-slug lower t,
    )

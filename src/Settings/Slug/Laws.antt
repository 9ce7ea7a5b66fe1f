-- ===== src/Settings/Slug/Laws.antt =====
-- What a slug looks like, and that making a slug of a slug changes nothing.
use tracium.Prelude.{
  ℕ, zero, suc, ◌≡◌, refl, sym, ap, ◌∙◌, Bool, true, false, ◌&&◌, ◌||◌, not, [], ◌∷◌, arith,
  if◌then◌else◌, number_same, Bool-cases, inl, inr, number_same_iff, if_true, if_false,
}
use tracium.Uri.{Text, within}
use tracium.Extensions.{starts_with}
use tracium.Texts.{trim, trim_start, trim_end, is_empty, is_wide_space, space_length}
use tracium.Settings.Slug.{
  is_slug_byte, starts_with_dash, continues, dash_runs, drop_front, drop_back, slugify,
}

-- Bytes of [a-z0-9] and single dashes between them: after a dash comes a byte, and the end does not.
abbrev pub goes_on : Text → Bool
goes_on [] = true
goes_on (c ∷ []) = is_slug_byte c
goes_on (c ∷ d ∷ t) = (is_slug_byte c || (number_same c 45 && is_slug_byte d)) && goes_on (d ∷ t)

-- [a-z0-9]+(-[a-z0-9]+)*, or nothing
abbrev pub is_slug : Text → Bool
is_slug t = not (starts_with_dash t) && goes_on t

-- As above, but dashes may also stand in front and at the end, one at each
abbrev is_dashed : Text → Bool
is_dashed [] = true
is_dashed (c ∷ []) = is_slug_byte c || number_same c 45
is_dashed (c ∷ d ∷ t) =
    (is_slug_byte c || (number_same c 45 && is_slug_byte d)) && is_dashed (d ∷ t)

pub no_dash : (c : ℕ) → is_slug_byte c ≡ true → number_same c 45 ≡ false
no_dash c h = ground arith

-- What `dash_runs` leaves begins with a dash exactly if the text begins with a run.
dash_runs-starts : (t : Text) → starts_with_dash (dash_runs t) ≡ continues t
unfolding dash_runs
dash_runs-starts [] = refl
dash_runs-starts (c ∷ t) = elim (Bool-cases (is_slug_byte c)) [
  | inl e ↦ rw e (no_dash c e)
  | inr e ↦ elim (Bool-cases (continues t)) [
    | inl more ↦ rw e (rw more (dash_runs-starts t ∙ more))
    | inr last ↦ rw e (rw last refl)
  ]
]

byte_dashed :
    (c : ℕ) (r : Text) → is_slug_byte c ≡ true → is_dashed r ≡ true → is_dashed (c ∷ r) ≡ true
byte_dashed c [] h _ = ground (arith, h)
byte_dashed c (d ∷ r) h k = ground (arith, h, k)

head_byte :
    (d : ℕ) (r : Text) → is_dashed (d ∷ r) ≡ true → number_same d 45 ≡ false → is_slug_byte d ≡ true
head_byte d [] h n = ground (arith, h, n)
head_byte d (e ∷ r) h n = ground (arith, h, n)

dash_dashed :
    (r : Text) → starts_with_dash r ≡ false → is_dashed r ≡ true → is_dashed (45 ∷ r) ≡ true
dash_dashed [] _ _ = refl
dash_dashed (d ∷ r) n h = ground (arith, head_byte d r h n, h)

dash_runs-dashed : (t : Text) → is_dashed (dash_runs t) ≡ true
unfolding dash_runs
dash_runs-dashed [] = refl
dash_runs-dashed (c ∷ t) =
    let rest = dash_runs-dashed t in
    elim (Bool-cases (is_slug_byte c)) [
      | inl e ↦ rw e (byte_dashed c (dash_runs t) e rest)
      | inr e ↦ elim (Bool-cases (continues t)) [
        | inl more ↦ rw e (rw more rest)
        | inr last ↦ rw e (rw last (dash_dashed (dash_runs t) (dash_runs-starts t ∙ last) rest))
      ]
    ]

tail_dashed : (c : ℕ) (r : Text) → is_dashed (c ∷ r) ≡ true → is_dashed r ≡ true
tail_dashed c [] h = refl
tail_dashed c (d ∷ r) h = ground (arith, h)

drop_front-dashed :
    (t : Text)
    → is_dashed t ≡ true
    → (starts_with_dash (drop_front t) ≡ false) × (is_dashed (drop_front t) ≡ true)
unfolding drop_front
drop_front-dashed [] h = (refl, refl)
drop_front-dashed (c ∷ t) h =
    let rest = drop_front-dashed t (tail_dashed c t h) in
    elim (Bool-cases (number_same c 45)) [ inl e ↦ rw e rest | inr e ↦ rw e (e, h) ]

drop_back-byte : (c : ℕ) (t : Text) → number_same c 45 ≡ false → drop_back (c ∷ t) ≡ c ∷ drop_back t
unfolding drop_back
drop_back-byte c t h = if_false _ h

drop_back-dash :
    (c : ℕ) (t : Text)
    → number_same c 45 ≡ true
    → drop_back (c ∷ t) ≡ (if is_empty (drop_back t) then [] else c ∷ drop_back t)
unfolding drop_back
drop_back-dash c t h = if_true _ h

byte_goes_on :
    (c : ℕ) (r : Text) → is_slug_byte c ≡ true → goes_on r ≡ true → goes_on (c ∷ r) ≡ true
byte_goes_on c [] h _ = h
byte_goes_on c (d ∷ r) h k = ground (arith, h, k)

second_byte :
    (c d : ℕ) (r : Text)
    → is_dashed (c ∷ d ∷ r) ≡ true
    → number_same c 45 ≡ true
    → is_slug_byte d ≡ true
second_byte c d r h e = ground (arith, h, e)

dash_goes_on :
    (c d : ℕ) (r : Text)
    → number_same c 45 ≡ true
    → is_slug_byte d ≡ true
    → goes_on (d ∷ r) ≡ true
    → goes_on (c ∷ d ∷ r) ≡ true
dash_goes_on c d r e byte h = ground (arith, e, byte, h)

drop_back-goes_on : (t : Text) → is_dashed t ≡ true → goes_on (drop_back t) ≡ true
drop_back-goes_on [] h = unfold drop_back in refl
drop_back-goes_on (c ∷ []) h = elim (Bool-cases (number_same c 45)) [
  | inl e ↦ ap goes_on (drop_back-dash c [] e) ∙ unfold drop_back in refl
  | inr e ↦
      ap goes_on (drop_back-byte c [] e)
      ∙ byte_goes_on c (drop_back []) (head_byte c [] h e) (unfold drop_back in refl)
]
drop_back-goes_on (c ∷ d ∷ t) h =
    let rest = drop_back-goes_on (d ∷ t) (tail_dashed c (d ∷ t) h) in
    elim (Bool-cases (number_same c 45)) [
      | inl e ↦
          (let byte = second_byte c d t h e in
            let left = drop_back-byte d t (no_dash d byte) in
            ap goes_on
              (drop_back-dash c (d ∷ t) e ∙ ap (λ r. if is_empty r then [] else c ∷ r) left)
            ∙ dash_goes_on c d (drop_back t) e byte (sym (ap goes_on left) ∙ rest))
      | inr e ↦
          ap goes_on (drop_back-byte c (d ∷ t) e)
          ∙ byte_goes_on c (drop_back (d ∷ t)) (head_byte c (d ∷ t) h e) rest
    ]

drop_back-starts : (t : Text) → starts_with_dash t ≡ false → starts_with_dash (drop_back t) ≡ false
drop_back-starts [] h = unfold drop_back in refl
drop_back-starts (c ∷ t) h = ap starts_with_dash (drop_back-byte c t h) ∙ h

-- Whatever text is made a slug, bytes of [a-z0-9] come out, in runs that single dashes part.
pub slugify-is_slug : (lower : Text → Text) (t : Text) → is_slug (slugify lower t) ≡ true
unfolding slugify
slugify-is_slug lower t =
    let dashed = dash_runs (trim (lower t)) in
    let (first, kept) = drop_front-dashed dashed (dash_runs-dashed (trim (lower t))) in
    ground (
      arith,
      drop_back-starts (drop_front dashed) first,
      drop_back-goes_on (drop_front dashed) kept,
    )

abbrev is_dense : ℕ → Bool
is_dense c = is_slug_byte c || number_same c 45

-- A slug has no white space, and every step leaves it as it is.
wide_dense : (c : ℕ) (t : Text) → is_dense c ≡ true → is_wide_space (c ∷ t) ≡ false
wide_dense c [] h = refl
wide_dense c (a ∷ []) h = refl
wide_dense c (a ∷ b ∷ t) h = ground (arith, h)

space_dense : (c : ℕ) (t : Text) → is_dense c ≡ true → space_length (c ∷ t) ≡ 0
space_dense c t h =
    if_false {b = within 9 13 c || number_same c 32} 1 (ground (arith, h))
    ∙ if_false {b = starts_with (194 ∷ 160 ∷ []) (c ∷ t)} 2 (ground (arith, h))
    ∙ if_false 3 (wide_dense c t h)

trim_start-dense : (c : ℕ) (t : Text) → is_dense c ≡ true → trim_start 0 (c ∷ t) ≡ c ∷ t
unfolding trim_start
trim_start-dense c t h =
    ap (λ (n : ℕ). elim n [ zero ↦ c ∷ t | suc more ↦ trim_start more t ]) (space_dense c t h)

goes_on-head : (c : ℕ) (t : Text) → goes_on (c ∷ t) ≡ true → is_dense c ≡ true
goes_on-head c [] h = ground (arith, h)
goes_on-head c (d ∷ t) h = ground (arith, h)

goes_on-tail : (c : ℕ) (t : Text) → goes_on (c ∷ t) ≡ true → goes_on t ≡ true
goes_on-tail c [] h = refl
goes_on-tail c (d ∷ t) h = ground (arith, h)

trim_end-slug : (t : Text) → goes_on t ≡ true → trim_end t ≡ t
unfolding trim_end
trim_end-slug [] h = refl
trim_end-slug (c ∷ t) h =
    if_false _ (ap is_empty (trim_start-dense c t (goes_on-head c t h)))
    ∙ ap (c ∷◌) (trim_end-slug t (goes_on-tail c t h))

trim-slug : (t : Text) → goes_on t ≡ true → trim t ≡ t
trim-slug [] h = unfold trim_start trim_end in refl
trim-slug (c ∷ t) h =
    ap trim_end (trim_start-dense c t (goes_on-head c t h)) ∙ trim_end-slug (c ∷ t) h

-- A dash in a slug is followed by a byte.
dash-follows :
    (c : ℕ) (t : Text)
    → goes_on (c ∷ t) ≡ true
    → is_slug_byte c ≡ false
    → (number_same c 45 ≡ true) × (continues t ≡ false) × (is_empty t ≡ false)
dash-follows c [] h n = absurd (ground (arith, h, n))
dash-follows c (d ∷ t) h n = (ground (arith, h, n), ground (arith, h, n), refl)

dash_runs-slug : (t : Text) → goes_on t ≡ true → dash_runs t ≡ t
unfolding dash_runs
dash_runs-slug [] h = refl
dash_runs-slug (c ∷ t) h =
    let rest = dash_runs-slug t (goes_on-tail c t h) in
    elim (Bool-cases (is_slug_byte c)) [
      | inl e ↦ rw e (ap (c ∷◌) rest)
      | inr e ↦
          (let (dash, single, _) = dash-follows c t h e in
            rw e (rw single (λ i. (sym ((number_same_iff c 45).0 dash)) i ∷ rest i)))
    ]

drop_front-slug : (t : Text) → starts_with_dash t ≡ false → drop_front t ≡ t
unfolding drop_front
drop_front-slug [] h = refl
drop_front-slug (c ∷ t) h = if_false _ h

drop_back-slug : (t : Text) → goes_on t ≡ true → drop_back t ≡ t
drop_back-slug [] h = unfold drop_back in refl
drop_back-slug (c ∷ t) h =
    let rest = drop_back-slug t (goes_on-tail c t h) in
    elim (Bool-cases (is_slug_byte c)) [
      | inl e ↦ drop_back-byte c t (no_dash c e) ∙ ap (c ∷◌) rest
      | inr e ↦
          (let (dash, _, full) = dash-follows c t h e in
            drop_back-dash c t dash ∙ if_false _ (ap is_empty rest ∙ full) ∙ ap (c ∷◌) rest)
    ]

-- A slug stays as it is, where the host's `toLowerCase` does.
pub slugify-slug :
    (lower : Text → Text) (t : Text) → lower t ≡ t → is_slug t ≡ true → slugify lower t ≡ t
unfolding slugify
slugify-slug lower t same slug =
    let going : goes_on t ≡ true = ground (arith, slug) in
    ap (λ s. drop_back (drop_front (dash_runs (trim s)))) same
    ∙ ap (λ s. drop_back (drop_front (dash_runs s))) (trim-slug t going)
    ∙ ap (λ s. drop_back (drop_front s)) (dash_runs-slug t going)
    ∙ ap drop_back (drop_front-slug t (ground (arith, slug)))
    ∙ drop_back-slug t going

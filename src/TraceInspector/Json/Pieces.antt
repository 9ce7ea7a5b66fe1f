-- ===== src/TraceInspector/Json/Pieces.antt =====
-- What `prettifyMaybeJson` does to a text.
use mathlib.Core.List.{append_assoc, append-nil}
use tracium.Prelude.{
  ℕ, zero, suc, ◌≤◌, ◌<◌, ◌≡◌, ◌≢◌, subst, length-append, true, refl, sym, ap, ◌∙◌, inl, inr, false,
  [], ◌∷◌, ◌++◌, Option, none, some, arith, Bool-cases, Option-cases, length,
}
use tracium.Prelude.Int.{pos}
use tracium.Uri.{Text}
use tracium.TraceInspector.Json.Groups.{IsGroup}
use tracium.TraceInspector.Json.Scan.{find_balanced_end-IsGroup, find_balanced_end-append}
use tracium.TraceInspector.Json.{
  Parsed, prettify_group, is_open, Place, find_balanced_end, slice_to, slice_from, prettify_from,
  prettify_maybe_json,
}

-- A text in pieces, and what is made of it: a unit that opens no bracket stays, a balanced group
-- becomes what `prettifyGroup` makes of it, and from a bracket at which no group starts on all stays.
pub data Pieces (parse : Text → Option Parsed) : Text → Text → Type 0 where
  done : Pieces parse [] []
  plain :
      {text result : Text} (c : ℕ)
      → is_open c ≡ false
      → Pieces parse text result
      → Pieces parse (c ∷ text) (c ∷ result)
  group :
      {g rest result : Text}
      → IsGroup g
      → Pieces parse rest result
      → Pieces parse (g ++ rest) (prettify_group parse g ++ result)
  unclosed :
      (c : ℕ) (text : Text)
      → is_open c ≡ true
      → ((g rest : Text) → IsGroup g → (c ∷ text) ≢ g ++ rest)
      → Pieces parse (c ∷ text) (c ∷ text)

slice_to-append : (g rest : Text) → slice_to (length g) (g ++ rest) ≡ g
slice_to-append [] rest = refl
slice_to-append (c ∷ g) rest = ap (λ t. c ∷ t) (slice_to-append g rest)

slice_from-append : (g rest : Text) → slice_from (length g) (g ++ rest) ≡ rest
slice_from-append [] rest = refl
slice_from-append (c ∷ g) rest = slice_from-append g rest

length-rest : (g rest : Text) → IsGroup g → length rest < length (g ++ rest)
length-rest g rest (IsGroup.group {t = t} c o i) = (let e = length-append t rest in omega arith)

-- The pieces of a text that starts with a group
of_group :
    (parse : Text → Option Parsed) (text g rest r : Text) (n : ℕ)
    → text ≡ g ++ rest
    → n ≡ length g
    → IsGroup g
    → Pieces parse (slice_from n text) r
    → Pieces parse text (prettify_group parse (slice_to n text) ++ r)
of_group parse text g rest r n e l h p =
    let cut : slice_to n text ≡ g = (λ i. slice_to (l i) (e i)) ∙ slice_to-append g rest in
    let left : slice_from n text ≡ rest =
      (λ i. slice_from (l i) (e i)) ∙ slice_from-append g rest in
    subst (λ t. Pieces parse t (prettify_group parse (slice_to n text) ++ r)) (sym e)
      (subst (λ t. Pieces parse (g ++ rest) (prettify_group parse t ++ r)) (sym cut)
        (Pieces.group h (subst (λ t. Pieces parse t r) left p)))

prettify_from-Pieces :
    (parse : Text → Option Parsed) (fuel : ℕ) (out pending text : Text)
    → length text ≤ fuel
    → (r : Text) × (prettify_from parse fuel out pending text ≡ some (out ++ (pending ++ r)))
      × Pieces parse text r
unfolding prettify_from
prettify_from-Pieces parse fuel out pending [] h =
    ([], ap (λ l. some (out ++ l)) (sym (append-nil pending)), Pieces.done)
prettify_from-Pieces parse zero out pending (c ∷ text) h = absurd (omega arith)
prettify_from-Pieces parse (suc fuel) out pending (c ∷ text) h = elim (Bool-cases (is_open c)) [
  | inr other ↦
      let (r, ran, p) =
        prettify_from-Pieces parse fuel out (pending ++ c ∷ []) text (omega arith) in
      (
        c ∷ r,
        rw (other, prettify_from)
            (ran ∙ ap (λ l. some (out ++ l)) (append_assoc pending (c ∷ []) r)),
        Pieces.plain c other p,
      )
  | inl opens ↦ elim (Option-cases (find_balanced_end (pos 0) Place.outside (c ∷ text))) [
    | inl never ↦ (
      c ∷ text,
      rw (opens, prettify_from) (rw never refl),
      Pieces.unclosed c text opens (λ g rest h e.
          let ends : find_balanced_end (pos 0) Place.outside (c ∷ text) ≡ some (length g) =
            ap (find_balanced_end (pos 0) Place.outside) e ∙ find_balanced_end-append rest h in
          let differ : none ≡ some (length g) = sym never ∙ ends in ground (arith, differ)),
    )
    | inr (n, ends) ↦
        let (g, rest, is, l, h) = find_balanced_end-IsGroup c text n opens ends in
        let piece = prettify_group parse (slice_to n (c ∷ text)) in
        let (r, ran, p) =
          prettify_from-Pieces parse fuel (out ++ (pending ++ piece)) [] (slice_from n (c ∷ text))
            (shorter g rest n is l h) in
        (
          piece ++ r,
          rw (opens, prettify_from)
              (rw ends (
                ran
                ∙ ap some (
                    append_assoc out (pending ++ piece) r
                    ∙ ap (λ l. out ++ l) (append_assoc pending piece r)))),
          of_group parse (c ∷ text) g rest r n is l h p,
        )
  ]
]
  where
    shorter :
        (g rest : Text) (n : ℕ)
        → c ∷ text ≡ g ++ rest
        → n ≡ length g
        → IsGroup g
        → length (slice_from n (c ∷ text)) ≤ fuel
    shorter g rest n e l grouped =
        let left : length (slice_from n (c ∷ text)) ≡ length rest =
          ap length ((λ i. slice_from (l i) (e i)) ∙ slice_from-append g rest) in
        let less = length-rest g rest grouped in
        let all : length (c ∷ text) ≡ length (g ++ rest) = ap length e in omega arith

-- `prettifyMaybeJson` comes to an end on every text, and changes no more than balanced groups of it,
-- each to what `prettifyGroup` makes of it: it reads the text from the left, keeps what opens no
-- bracket, and takes the whole group that starts at a bracket. From the first bracket at which no
-- group starts on, all stays. A group is a bracket that opens, then string literals, other units that
-- are no bracket, and groups, then a bracket that closes.
pub prettify_maybe_json_total :
    (parse : Text → Option Parsed) (text : Text)
    → (r : Text) × (prettify_maybe_json parse text ≡ some r) × Pieces parse text r
unfolding prettify_maybe_json
prettify_maybe_json_total parse text =
    prettify_from-Pieces parse (length text) [] [] text (omega arith)

-- ===== src/Shell/Dashboard/Settled.antt =====
-- The paths that the browser leaves as they are.
use tracium.Prelude.{
  ℕ, ◌≡◌, refl, sym, ap, ◌∙◌, subst, inl, inr, true, false, List, [], ◌∷◌, ◌++◌, Option, none, some,
  arith, ◌===◌, number_key, Bool-cases, any, any-append, if_true, if_false, eq_of_same,
}
use tracium.Uri.{Text, bytes, encode}
use tracium.Extensions.{
  bytes_key, ExtensionPage, slice_from, is_extension_id, is_id_name, all_id_bytes,
}
use tracium.Shell.Routing.{
  ViewId, view_text, Selected, if_there, workflow_path, core_path, page_path, state_to_path, split,
  push_byte,
}
use tracium.Shell.Routing.RoundTrip.{AreValid}
use tracium.Shell.Routing.Resolve.{is_dots, has_dots, resolve_path}

-- A text whose part of a path has no dot segment, unlike '.' and '..'
abbrev pub IsPlainText : Option Text → Type 0
IsPlainText none = Unit
IsPlainText (some t) = has_dots (encode t) ≡ false

pub record IsPlain (s : Selected) : Type 0 where
  pub workflow : IsPlainText s.workflow
  pub base : IsPlainText s.base
  pub candidate : IsPlainText s.candidate
  pub trace_id : IsPlainText s.trace_id
  pub user : IsPlainText s.user

abbrev IsDotless : Text → Type 0
IsDotless path = has_dots path ≡ false

push_byte-append :
    (c : ℕ) (p q : Text) → push_byte c (split p ++ split q) ≡ push_byte c (split p) ++ split q
unfolding split
push_byte-append c [] q = refl
push_byte-append c (d ∷ p) q = elim (Bool-cases (d === 47)) [
  | inl e ↦ rw e refl
  | inr e ↦ rw e (pushed d (split p))
]
  where
    pushed :
        (d : ℕ) (l : List Text)
        → push_byte c (push_byte d l ++ split q) ≡ push_byte c (push_byte d l) ++ split q
    pushed d [] = refl
    pushed d (s ∷ l) = refl

split-slash : (p q : Text) → split (p ++ 47 ∷ q) ≡ split p ++ split q
unfolding split
split-slash [] q = refl
split-slash (c ∷ p) q = elim (Bool-cases (c === 47)) [
  | inl e ↦ rw e (ap (λ l. [] ∷ l) (split-slash p q))
  | inr e ↦ rw e (ap (push_byte c) (split-slash p q) ∙ push_byte-append c p q)
]

IsDotless-slash : (p q : Text) → IsDotless p → IsDotless q → IsDotless (p ++ 47 ∷ q)
IsDotless-slash p q h k =
    ap (any is_dots) (split-slash p q)
    ∙ any-append is_dots (split p) (split q)
    ∙ ground (arith, h, k)

if_there-IsDotless :
    (o : Option Text) (f : Text → Text) (d : Text)
    → IsPlainText o
    → ((t : Text) → has_dots (encode t) ≡ false → IsDotless (f t))
    → IsDotless d
    → IsDotless (if_there o f d)
if_there-IsDotless none f d plain some_path no_path = no_path
if_there-IsDotless (some []) f d plain some_path no_path = no_path
if_there-IsDotless (some (c ∷ t)) f d plain some_path no_path = some_path (c ∷ t) plain

workflow_path-IsDotless : (o : Option Text) → IsPlainText o → IsDotless (workflow_path o)
unfolding split
workflow_path-IsDotless o h =
    if_there-IsDotless o _ _ h (λ t e. IsDotless-slash (bytes "/workflows") (encode t) refl e) refl

core_path-IsDotless : (view : ViewId) (s : Selected) → IsPlain s → IsDotless (core_path view s)
unfolding core_path split
core_path-IsDotless ViewId.overview s h = refl
core_path-IsDotless ViewId.workflows s h = workflow_path-IsDotless s.workflow h.workflow
core_path-IsDotless ViewId.compare s h =
    let single = workflow_path-IsDotless s.workflow h.workflow in
    if_there-IsDotless s.workflow _ _ h.workflow
      (λ w ew.
        if_there-IsDotless s.base _ _ h.base
          (λ b eb.
            if_there-IsDotless s.candidate _ _ h.candidate
              (λ c ec.
                IsDotless-slash (bytes "/workflows")
                  (encode w ++ 47 ∷ (bytes "compare" ++ 47 ∷ (encode b ++ 47 ∷ encode c))) refl
                  (IsDotless-slash (encode w) (bytes "compare" ++ 47 ∷ (encode b ++ 47 ∷ encode c))
                    ew
                    (IsDotless-slash (bytes "compare") (encode b ++ 47 ∷ encode c) refl
                      (IsDotless-slash (encode b) (encode c) eb ec))))
              single)
          single)
      single
core_path-IsDotless ViewId.trace s h =
    if_there-IsDotless s.trace_id _ _ h.trace_id
      (λ t e. IsDotless-slash (bytes "/traces") (encode t) refl e) refl
core_path-IsDotless ViewId.usage s h = refl
core_path-IsDotless ViewId.users s h = refl
core_path-IsDotless ViewId.user s h =
    if_there-IsDotless s.user _ _ h.user
      (λ t e. IsDotless-slash (bytes "/clients") (encode t) refl e) refl
core_path-IsDotless ViewId.keys s h = refl
core_path-IsDotless ViewId.settings s h = refl
core_path-IsDotless (ViewId.extension id) s h = refl

-- The name in an extension's id is one segment.
split-id_bytes : (t : Text) → all_id_bytes t ≡ true → split t ≡ t ∷ []
unfolding split
split-id_bytes [] h = refl
split-id_bytes (c ∷ t) h =
    let rest = split-id_bytes t (ground (arith, h)) in
    let byte : (c === 47) ≡ false = ground (arith, h) in rw byte (ap (push_byte c) rest)

id_name-IsDotless : (t : Text) → is_id_name t ≡ true → IsDotless t
id_name-IsDotless [] h = absurd (ground (arith, h))
id_name-IsDotless (c ∷ t) h =
    let one = split-id_bytes (c ∷ t) (ground (arith, h)) in
    let dot : (c === 46) ≡ false = ground (arith, h) in
    let escape : (c === 37) ≡ false = ground (arith, h) in
    ap (any is_dots) one ∙ rw dot (rw escape refl)

page_path-IsDotless : (id : Text) → is_extension_id id ≡ true → IsDotless (page_path id)
unfolding split is_extension_id
page_path-IsDotless id h =
    IsDotless-slash (bytes "/extensions") (slice_from 10 id) refl
      (id_name-IsDotless (slice_from 10 id) (ground (arith, h)))

any_valid :
    (id : Text) (pages : List ExtensionPage)
    → AreValid pages
    → any (λ page. page.id === id) pages ≡ true
    → is_extension_id id ≡ true
any_valid id [] _ h = absurd (ground arith)
any_valid id (page ∷ pages) (v, vs) h = elim (Bool-cases (page.id === id)) [
  | inl e ↦ subst (λ i. is_extension_id i ≡ true) (eq_of_same page.id id e) v
  | inr e ↦ any_valid id pages vs (ground (arith, h))
]

state_to_path-IsDotless :
    (view : ViewId) (s : Selected) (pages : List ExtensionPage)
    → AreValid pages
    → IsPlain s
    → IsDotless (state_to_path view s pages)
unfolding state_to_path
state_to_path-IsDotless view s pages valid plain =
    let id = view_text view in
    elim (Bool-cases (any (λ page. page.id === id) pages)) [
      | inl e ↦
          subst IsDotless (sym (if_true _ e)) (page_path-IsDotless id (any_valid id pages valid e))
      | inr e ↦ subst IsDotless (sym (if_false _ e)) (core_path-IsDotless view s plain)
    ]

-- The browser leaves the path of a plain selection as it is.
pub settles :
    (view : ViewId) (s : Selected) (pages : List ExtensionPage)
    → AreValid pages
    → IsPlain s
    → resolve_path (state_to_path view s pages) ≡ state_to_path view s pages
unfolding resolve_path
settles view s pages valid plain = if_false _ (state_to_path-IsDotless view s pages valid plain)

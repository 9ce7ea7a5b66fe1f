-- ===== src/Invites/Link.antt =====
-- An invite link leads to its token.
use mathlib.Core.List.{append-nil}
use tracium.Prelude.{
  ℕ, ◌≡◌, ◌≢◌, refl, sym, ap, ◌∙◌, true, false, ◌&&◌, not, [], ◌∷◌, ◌++◌, none, some, arith, ◌===◌,
  number_key, Bool-cases, inl, inr, All, if_true, if_false,
}
use tracium.Uri.{Text, bytes, encode, encode_byte, is_plain, is_utf8}
use tracium.Uri.Escapes.{decode-encode, encode-slashless, is_utf8-bytes}
use tracium.Texts.{is_empty}
use tracium.Invites.{segment_of, cons_first, ends_there, token_of, invite_token_from_path}

segment_of-append :
    (t rest : Text)
    → All (λ c. c ≢ 47) t
    → segment_of rest ≡ ([], rest)
    → segment_of (t ++ rest) ≡ (t, rest)
unfolding segment_of
segment_of-append [] rest _ h = h
segment_of-append (c ∷ t) rest (n, ns) h =
    if_false {b = c === 47} _ (ground (arith, n))
    ∙ ap (cons_first c) (segment_of-append t rest ns h)

is_empty-encode : (b : ℕ) (t : Text) → is_empty (encode (b ∷ t)) ≡ false
unfolding encode encode_byte
is_empty-encode b t = elim (Bool-cases (is_plain b)) [ inl e ↦ rw e refl | inr e ↦ rw e refl ]

-- The path of an invite link, with a slash behind it or without, leads to the token, if the token is
-- a text that is well formed and not empty. A path that goes on behind the token leads to none.
pub invite_token_from_path-encode :
    (token more : Text) (c : ℕ)
    → is_utf8 token ≡ true
    → is_empty token ≡ false
    → (invite_token_from_path (bytes "/invite/" ++ encode token) ≡ some token)
      × (invite_token_from_path (bytes "/invite/" ++ (encode token ++ bytes "/")) ≡ some token)
      × (invite_token_from_path (bytes "/invite/" ++ (encode token ++ 47 ∷ c ∷ more)) ≡ none)
unfolding invite_token_from_path segment_of
invite_token_from_path-encode [] more c valid full = absurd (ground arith)
invite_token_from_path-encode (b ∷ t) more c valid full =
    let token = b ∷ t in
    let plain = encode-slashless token (is_utf8-bytes token valid) in
    let some_bytes = is_empty-encode b t in
    let there : (rest : Text)
        → ends_there rest ≡ true
        → token_of (encode token, rest) ≡ some token =
      λ rest e.
        if_true {b = not (is_empty (encode token)) && ends_there rest} none
          (ground (arith, some_bytes, e))
        ∙ decode-encode token valid in
    (
      ap (λ s. token_of (segment_of s)) (sym (append-nil (encode token)))
          ∙ ap token_of (segment_of-append (encode token) [] plain refl)
          ∙ there [] refl,
      ap token_of (segment_of-append (encode token) (bytes "/") plain refl)
          ∙ there (bytes "/") refl,
      ap token_of (segment_of-append (encode token) (47 ∷ c ∷ more) plain refl)
          ∙ if_false {b = not (is_empty (encode token)) && false} _ (ground (arith, some_bytes)),
    )

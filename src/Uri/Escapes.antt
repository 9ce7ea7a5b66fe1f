-- ===== src/Uri/Escapes.antt =====
-- Encoding and decoding undo each other.
use tracium.Prelude.{
  ℕ, zero, suc, ◌+◌, ◌*◌, ◌/◌, ◌%◌, ◌<◌, ◌≤◌, ◌≡◌, ◌≢◌, refl, ap, ◌∙◌, inl, inr, Bool, true, false,
  [], ◌∷◌, ◌++◌, Option, none, some, arith, ltb, if◌then◌else◌, ◌===◌, number_key, Bool-cases,
  Option-cases, All, All-append,
}
use tracium.Uri.{
  Text, is_plain, hex_digit, encode_byte, encode, hex_value, Place, prepend, unescape, behind_first,
  is_utf8_from, is_utf8, decode,
}

hex_value-hex_digit : (n : ℕ) → n < 16 → hex_value (hex_digit n) ≡ some n
unfolding hex_value
hex_value-hex_digit n h = elim (Bool-cases (ltb n 10)) [
  | inl e ↦ ground arith
  | inr e ↦ ground arith
]

-- What a byte that is not escaped is not: a percent sign or a slash
pub plain_ne : (b : ℕ) → is_plain b ≡ true → (b ≢ 37) × (b ≢ 47)
unfolding is_plain
plain_ne b h = (ground arith, ground arith)

unescape-plain :
    (b : ℕ) (t : Text)
    → (b === 37) ≡ false
    → unescape Place.outside (b ∷ t) ≡ prepend (b ∷ []) (unescape Place.outside t)
unfolding unescape
unescape-plain b t e = rw (e, unescape) refl

prepend-nil : (o : Option Text) → prepend [] o ≡ o
prepend-nil none = refl
prepend-nil (some u) = refl

unescape-digit :
    (h c l : ℕ) (t : Text)
    → hex_value c ≡ some l
    → unescape (Place.behind_digit h) (c ∷ t)
      ≡ prepend ((h * 16 + l) ∷ []) (unescape Place.outside t)
unfolding unescape
unescape-digit h c l t e = rw (e, unescape) refl

unescape-percent :
    (c h : ℕ) (t : Text)
    → hex_value c ≡ some h
    → unescape Place.outside (37 ∷ c ∷ t) ≡ unescape (Place.behind_digit h) t
unfolding unescape
unescape-percent c h t e =
    prepend-nil (unescape Place.behind_percent (c ∷ t))
    ∙ rw (e, unescape) (prepend-nil (unescape (Place.behind_digit h) t))

unescape-encode_byte :
    (b : ℕ) (t : Text)
    → b < 256
    → unescape Place.outside (encode_byte b ++ t) ≡ prepend (b ∷ []) (unescape Place.outside t)
unfolding encode_byte
unescape-encode_byte b t h = elim (Bool-cases (is_plain b)) [
  | inl plain ↦
      let (other, _) = plain_ne b plain in rw plain (unescape-plain b t (ground (arith, other)))
  | inr special ↦
      let whole : b / 16 * 16 + b % 16 ≡ b = omega arith in
      rw special (
        unescape-percent (hex_digit (b / 16)) (b / 16) (hex_digit (b % 16) ∷ t)
          (hex_value-hex_digit (b / 16) (omega arith))
        ∙ unescape-digit (b / 16) (hex_digit (b % 16)) (b % 16) t
            (hex_value-hex_digit (b % 16) (omega arith))
        ∙ ap (λ x. prepend (x ∷ []) (unescape Place.outside t)) whole)
]

unescape-encode : (t : Text) → All (λ b. b < 256) t → unescape Place.outside (encode t) ≡ some t
unfolding encode unescape
unescape-encode [] _ = refl
unescape-encode (b ∷ t) (h, hs) =
    unescape-encode_byte b (encode t) h ∙ ap (prepend (b ∷ [])) (unescape-encode t hs)

-- The bytes of UTF-8 are bytes.
behind_first-byte : (b : ℕ) (x : ℕ × ℕ × ℕ) → behind_first b ≡ some x → (b < 256) × (x.2 ≤ 191)
unfolding behind_first
behind_first-byte b (more, low, high) e = ground arith

is_utf8_from-bytes :
    (more low high : ℕ) (t : Text)
    → high ≤ 191
    → is_utf8_from more low high t ≡ true
    → All (λ b. b < 256) t
unfolding is_utf8_from
is_utf8_from-bytes more low high [] _ h = tt
is_utf8_from-bytes zero low high (b ∷ t) top h = elim (Option-cases (behind_first b)) [
  | inl e ↦ (let h' : false ≡ true = rw (e, is_utf8_from) at h in absurd (ground (arith, h')))
  | inr ((more, low', high'), e) ↦
      let h' : is_utf8_from more low' high' t ≡ true = rw (e, is_utf8_from) at h in
      let (byte, top') = behind_first-byte b (more, low', high') e in
      (byte, is_utf8_from-bytes more low' high' t top' h')
]
is_utf8_from-bytes (suc more) low high (b ∷ t) top h =
    (ground (arith, h), is_utf8_from-bytes more 128 191 t (omega arith) (ground (arith, h)))

-- `decodeURIComponent` gives back every text of UTF-8 that `encodeURIComponent` encoded.
pub decode-encode : (t : Text) → is_utf8 t ≡ true → decode (encode t) ≡ some t
unfolding decode
decode-encode t h =
    let whole = unescape-encode t (is_utf8_from-bytes 0 128 191 t (omega arith) h) in
    rw whole (ap (λ (b : Bool). if b then some t else none) h)

-- An encoded text has no slash, and is empty only if the text is.
encode_byte-slashless : (b : ℕ) → b < 256 → All (λ c. c ≢ 47) (encode_byte b)
unfolding encode_byte
encode_byte-slashless b h = elim (Bool-cases (is_plain b)) [
  | inl plain ↦ (let (_, other) = plain_ne b plain in rw plain (other, tt))
  | inr special ↦ rw special (omega arith, (ground arith, (ground arith, tt)))
]

pub encode-slashless : (t : Text) → All (λ b. b < 256) t → All (λ c. c ≢ 47) (encode t)
unfolding encode
encode-slashless [] _ = tt
encode-slashless (b ∷ t) (h, hs) =
    All-append _ (encode_byte b) (encode t) (encode_byte-slashless b h) (encode-slashless t hs)

pub is_utf8-bytes : (t : Text) → is_utf8 t ≡ true → All (λ b. b < 256) t
is_utf8-bytes t h = is_utf8_from-bytes 0 128 191 t (omega arith) h

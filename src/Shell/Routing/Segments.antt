-- ===== src/Shell/Routing/Segments.antt =====
-- The segments of a path that is made of encoded texts.
use tracium.Prelude.{
  ◌≡◌, ◌≢◌, refl, ap, inl, inr, true, false, List, [], ◌∷◌, ◌++◌, map, some, arith, ◌===◌,
  number_key, Bool-cases, All, select,
}
use tracium.Uri.{Text, encode, encode_byte, is_plain, is_utf8}
use tracium.Uri.Escapes.{decode-encode, encode-slashless, is_utf8-bytes}
use tracium.Shell.Routing.{split, push_byte, is_full, decode_each, segments}

-- `/a/b/c`
abbrev pub join_path : List Text → Text
join_path [] = []
join_path (p ∷ parts) = 47 ∷ (p ++ join_path parts)

split-join_path :
    (p : Text) (parts : List Text)
    → All (λ c. c ≢ 47) p
    → All (λ q. All (λ c. c ≢ 47) q) parts
    → split (p ++ join_path parts) ≡ p ∷ parts
unfolding split
split-join_path [] [] _ _ = refl
split-join_path [] (q ∷ parts) _ (h, hs) = ap (◌∷◌ []) (split-join_path q parts h hs)
split-join_path (c ∷ p) parts (h, hs) ps =
    let byte : (c === 47) ≡ false = ground (arith, h) in
    rw byte (ap (push_byte c) (split-join_path p parts hs ps))

-- A text that a path can carry: UTF-8, and not empty
abbrev pub IsPart : Text → Type 0
IsPart t = (is_utf8 t ≡ true) × (is_full t ≡ true)

encode-is_full : (t : Text) → is_full t ≡ true → is_full (encode t) ≡ true
unfolding encode encode_byte
encode-is_full [] h = h
encode-is_full (b ∷ t) h = elim (Bool-cases (is_plain b)) [ inl e ↦ rw e refl | inr e ↦ rw e refl ]

encoded-slashless :
    (ts : List Text) → All IsPart ts → All (λ q. All (λ c. c ≢ 47) q) (map encode ts)
encoded-slashless [] _ = tt
encoded-slashless (t ∷ ts) ((valid, _), ps) =
    (encode-slashless t (is_utf8-bytes t valid), encoded-slashless ts ps)

select-encoded : (ts : List Text) → All IsPart ts → select is_full (map encode ts) ≡ map encode ts
select-encoded [] _ = refl
select-encoded (t ∷ ts) ((_, full), ps) =
    rw (encode-is_full t full) (ap (◌∷◌ (encode t)) (select-encoded ts ps))

decode_each-encoded : (ts : List Text) → All IsPart ts → decode_each (map encode ts) ≡ some ts
unfolding decode_each
decode_each-encoded [] _ = refl
decode_each-encoded (t ∷ ts) ((valid, _), ps) =
    rw (decode-encode t valid) (rw (decode_each-encoded ts ps) refl)

pub segments-join_path :
    (ts : List Text) → All IsPart ts → segments (join_path (map encode ts)) ≡ some ts
unfolding segments
segments-join_path ts ps =
    rw (split-join_path [] (map encode ts) tt (encoded-slashless ts ps))
      (rw (select-encoded ts ps) (decode_each-encoded ts ps))

-- ===== src/TraceExplorer/Steps.antt =====
-- What a call of `visit` in utils/toTraceView.ts of dashboard/src/modules/trace-explorer has done, and
-- what it asks of the state that it finds.
use mathlib.Core.List.{append-nil, append_assoc, map-append}
use tracium.Prelude.{
  ℕ, suc, ◌<◌, ◌≤◌, ◌≡◌, ◌⊎◌, sym, ap, ◌∙◌, subst, inl, inr, true, false, List, [], ◌∷◌, ◌++◌,
  Option, some, String, Memᴰ, arith, if◌then◌else◌, text_key, Bool-cases, All, All-append, length,
}
use tracium.Prelude.Maps.{has, add, has-add, Distinct, Distinct-concat}
use tracium.TraceExplorer.{Span, Order, emit, is_root}
use tracium.TraceExplorer.Preorder.{Preorder, IsRooted, IsTop, AreTops}
use tracium.TraceExplorer.Closed.{row_ids, IsFull, IsFull-later, seen_child, AreTops-append}

-- What holds of `seen` and `ordered` all along.
pub record IsTracked (spans : List Span) (st : Order) : Type 0 where
  pub ids : st.seen ≡ row_ids st.ordered
  pub distinct : Distinct st.seen
  pub listed : All (λ r. Memᴰ r.0 spans) st.ordered

-- What a call has done: it has appended rows that fit under `path`, whatever rows follow.
pub record Grew (spans path : List Span) (a b : Order) : Type 0 where
  pub keeps : (k : String) → has k a.seen ≡ true → has k b.seen ≡ true
  pub block : List (Span × ℕ)
  pub appended : b.ordered ≡ a.ordered ++ block
  pub fits : (rows : List (Span × ℕ)) → Preorder path rows → Preorder path (block ++ rows)
  pub seen : b.seen ≡ a.seen ++ row_ids block
  pub full : IsFull spans b.seen block
  pub tops : AreTops spans a.seen block

pub Grew-refl : (spans path : List Span) (a : Order) → Grew spans path a a
Grew-refl spans path a = record {
  keeps = λ k h. h;
  block = [];
  appended = sym (append-nil a.ordered);
  fits = λ rows p. p;
  seen = sym (append-nil a.seen);
  full = tt;
  tops = tt;
}

pub Grew-trans :
    (spans path : List Span) (a b c : Order)
    → Grew spans path a b
    → Grew spans path b c
    → Grew spans path a c
Grew-trans spans path a b c g h = record {
  keeps = λ k e. h.keeps k (g.keeps k e);
  block = g.block ++ h.block;
  appended =
      h.appended ∙ ap (λ l. l ++ h.block) g.appended ∙ append_assoc a.ordered g.block h.block;
  fits = λ rows p.
      subst (Preorder path) (sym (append_assoc g.block h.block rows))
        (g.fits (h.block ++ rows) (h.fits rows p));
  seen =
      h.seen
      ∙ ap (λ l. l ++ row_ids h.block) g.seen
      ∙ append_assoc a.seen (row_ids g.block) (row_ids h.block)
      ∙ ap (λ l. a.seen ++ l) (sym (map-append (λ (r : Span × ℕ). r.0.span_id) g.block h.block));
  full = All-append _ g.block _ (IsFull-later spans b.seen c.seen g.block h.keeps g.full) h.full;
  tops =
      AreTops-append spans a.seen g.block h.block g.tops
        (subst (λ l. AreTops spans l h.block) g.seen h.tops);
}

-- How many of the spans are not seen yet.
unfoldable pub unseen : List String → List Span → ℕ
unseen seen [] = 0
unseen seen (s ∷ spans) =
    let rest = unseen seen spans in if has s.span_id seen then rest else suc rest

pub unseen_mono :
    (a b : List String) (spans : List Span)
    → ((k : String) → has k a ≡ true → has k b ≡ true)
    → unseen b spans ≤ unseen a spans
unfolding unseen
unseen_mono a b [] keeps = omega arith
unseen_mono a b (s ∷ spans) keeps = ground (arith, keeps s.span_id, unseen_mono a b spans keeps)

pub has-add_old :
    (k j : String) (seen : List String) → has k seen ≡ true → has k (add j seen) ≡ true
has-add_old k j seen h = ground (arith, has-add k j seen)

pub unseen-add :
    (s : Span) (seen : List String) (spans : List Span)
    → Memᴰ s spans
    → has s.span_id seen ≡ false
    → unseen (add s.span_id seen) spans < unseen seen spans
unfolding unseen
unseen-add s seen [] m fresh = elim m [ ]
unseen-add s seen (t ∷ spans) (Memᴰ.head e) fresh =
    let same : t.span_id ≡ s.span_id = ap (λ (u : Span). u.span_id) (sym e) in
    let fresh' : has t.span_id seen ≡ false = ap (λ k. has k seen) same ∙ fresh in
    ground (
      arith,
      fresh',
      has-add t.span_id s.span_id seen,
      text_key.same_iff s.span_id t.span_id,
      unseen_mono seen (add s.span_id seen) spans (λ k. has-add_old k s.span_id seen),
    )
unseen-add s seen (t ∷ spans) (Memᴰ.tail m) fresh =
    ground (arith, has-add_old t.span_id s.span_id seen, unseen-add s seen spans m fresh)

pub IsTracked-emit :
    (spans : List Span) (s : Span) (depth : ℕ) (st : Order)
    → Memᴰ s spans
    → has s.span_id st.seen ≡ false
    → IsTracked spans st
    → IsTracked spans (emit s depth st)
IsTracked-emit spans s depth st m fresh t = record {
  ids = rw fresh (
      ap (λ l. l ++ s.span_id ∷ []) t.ids
      ∙ sym (map-append (λ (r : Span × ℕ). r.0.span_id) st.ordered ((s, depth) ∷ [])));
  distinct = rw fresh (Distinct-concat st.seen s.span_id t.distinct fresh);
  listed = All-append _ st.ordered _ t.listed (m, tt);
}

-- A call that has ended, with what holds of the state that it leaves.
pub record Ran (spans path : List Span) (a : Order) (out : Option Order) : Type 0 where
  pub after : Order
  pub ran : out ≡ some after
  pub grew : Grew spans path a after
  pub tracked : IsTracked spans after

-- Where no row is open, all the rows so far are full, and a span that is visited is a root, or all
-- that lead to a root have been seen.
abbrev pub IsBase : List Span → List Span → Order → Type 0
IsBase spans [] st = IsFull spans st.seen st.ordered
IsBase spans (p ∷ path) st = Unit

abbrev pub HasRooted : List Span → List String → Type 0
HasRooted spans seen = (t : Span) → IsRooted spans t → has t.span_id seen ≡ true

abbrev pub IsStart : List Span → List Span → List String → Span → Type 0
IsStart spans [] seen s = (is_root spans s ≡ true) ⊎ HasRooted spans seen
IsStart spans (p ∷ path) seen s = Unit

pub IsBase-later :
    (spans path : List Span) (a b : Order)
    → Grew spans path a b
    → IsBase spans path a
    → IsBase spans path b
IsBase-later spans [] a b g h =
    subst (IsFull spans b.seen) (sym g.appended)
      (All-append _ a.ordered _ (IsFull-later spans a.seen b.seen a.ordered g.keeps h) g.full)
IsBase-later spans (p ∷ path) a b g h = tt

pub IsStart-later :
    (spans path : List Span) (seen seen' : List String) (s : Span)
    → ((k : String) → has k seen ≡ true → has k seen' ≡ true)
    → IsStart spans path seen s
    → IsStart spans path seen' s
IsStart-later spans [] seen seen' s keeps (inl root) = inl root
IsStart-later spans [] seen seen' s keeps (inr all) = inr (λ t h. keeps t.span_id (all t h))
IsStart-later spans (p ∷ path) seen seen' s keeps h = tt

pub IsTop-of_start :
    (spans path : List Span) (st : Order) (s : Span) (depth : ℕ)
    → depth ≡ length path
    → depth ≡ 0
    → st.seen ≡ row_ids st.ordered
    → Memᴰ s spans
    → has s.span_id st.seen ≡ false
    → IsBase spans path st
    → IsStart spans path st.seen s
    → IsTop spans st.seen s
IsTop-of_start spans [] st s depth d z ids m fresh base (inl root) child =
    absurd (ground (arith, root, child))
IsTop-of_start spans [] st s depth d z ids m fresh base (inr all) child = (
  elim (Bool-cases (has s.parent_span_id st.seen)) [
    | inl above ↦ absurd (
        let old =
          seen_child spans st.seen st.ordered s base m child
            (ap (has s.parent_span_id) (sym ids) ∙ above) in
        ground (arith, old, fresh))
    | inr none_above ↦ none_above
  ],
  λ h. (let old = all s h in ground (arith, old, fresh)),
)
IsTop-of_start spans (p ∷ path) st s depth d z ids m fresh base start child = absurd (omega arith)

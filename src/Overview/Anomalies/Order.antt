-- ===== src/Overview/Anomalies/Order.antt =====
-- The two orders of the overview are total and transitive: `sort` sorts by them.
use tracium.Prelude.{ℕ, ◌≡◌, true, arith, ◌<◌, ◌≤◌, ◌⊎◌, ◌↔◌, inl, inr}
use tracium.Prelude.Int.{ℤ, abs, is_nonpos}
use tracium.Prelude.Sort.{before, IsComparator}
use tracium.Overview.Anomalies.{Anomaly, rank, greater_first, by_severity, by_incident, lead_score}

-- The lexicographic order, descending
abbrev pub Precedes : ℕ × ℕ × ℕ → ℕ × ℕ × ℕ → Type 0
Precedes (r, s, b) (r', s', b') = (r' < r) ⊎ ((r ≡ r') × ((s' < s) ⊎ ((s ≡ s') × (b' ≤ b))))

greater_first_iff :
    (r s b r' s' b' : ℕ)
    → (is_nonpos (greater_first (r, s, b) (r', s', b')) ≡ true) ↔ Precedes (r, s, b) (r', s', b')
greater_first_iff r s b r' s' b' = ground arith

Precedes-total :
    (r s b r' s' b' : ℕ) → Precedes (r, s, b) (r', s', b') ⊎ Precedes (r', s', b') (r, s, b)
Precedes-total r s b r' s' b' = ground arith

Precedes-trans :
    (r s b r' s' b' r'' s'' b'' : ℕ)
    → Precedes (r, s, b) (r', s', b')
    → Precedes (r', s', b') (r'', s'', b'')
    → Precedes (r, s, b) (r'', s'', b'')
Precedes-trans r s b r' s' b' r'' s'' b'' p q = ground arith

-- A comparator that compares three figures of each element in that way
module _ {ℓ} {A : Type ℓ} (figures : A → ℕ × ℕ × ℕ) where
  abbrev by_figures : A → A → ℤ
  by_figures a b = greater_first (figures a) (figures b)

  before_iff : (a b : A) → (before by_figures a b ≡ true) ↔ Precedes (figures a) (figures b)
  before_iff a b =
      greater_first_iff (figures a).0 (figures a).1 (figures a).2 (figures b).0 (figures b).1
        (figures b).2

  by_figures-IsComparator : IsComparator by_figures
  by_figures-IsComparator = record {
    total = λ a b h.
        elim (Precedes-total (figures a).0 (figures a).1 (figures a).2 (figures b).0 (figures b).1
          (figures b).2) [
            | inl p ↦ (let bad = (before_iff a b).1 p in cc)
            | inr p ↦ (before_iff b a).1 p
          ];
    trans = λ a b c h k. (before_iff a c).1 (
        Precedes-trans (figures a).0 (figures a).1 (figures a).2 (figures b).0 (figures b).1
          (figures b).2 (figures c).0 (figures c).1 (figures c).2 ((before_iff a b).0 h)
          ((before_iff b c).0 k));
  }

pub by_severity-IsComparator : IsComparator by_severity
unfolding by_severity
by_severity-IsComparator =
    by_figures-IsComparator (λ a. (rank a.severity, abs a.score, a.bucket_ms))

pub by_incident-IsComparator : IsComparator by_incident
unfolding by_incident
by_incident-IsComparator =
    by_figures-IsComparator (λ x. (rank x.severity, lead_score x.anomalies, x.bucket_ms))

-- What comes first is at least as severe.
pub rank_of_before :
    (a b : Anomaly) → before by_severity a b ≡ true → rank b.severity ≤ rank a.severity
unfolding by_severity
rank_of_before a b h =
    let p = (before_iff (λ (a : Anomaly). (rank a.severity, abs a.score, a.bucket_ms)) a b).0 h in
    elim p [ inl less ↦ omega arith | inr (same, _) ↦ omega arith ]

-- ===== src/Workflows/Versions/Newest.antt =====
-- `newest` picks the version that was first seen last.
use tracium.Prelude.{
  ◌≤◌, ◌≡◌, ◌⊎◌, refl, subst, inl, inr, List, [], ◌∷◌, none, some, Memᴰ, arith, All, Bool-cases,
  ltb,
}
use tracium.Workflows.Versions.{WorkflowVersion, newest}

-- No version of the list was first seen later, and the pick is one of them.
pub record IsNewest (l : List WorkflowVersion) (v : WorkflowVersion) : Type 0 where
  pub member : Memᴰ v l
  pub latest : All (λ o. o.first_seen_ms ≤ v.first_seen_ms) l

-- The fold starts at `best`, which may be the pick.
newest-some :
    (best : WorkflowVersion) (l : List WorkflowVersion)
    → (v : WorkflowVersion) × (newest (some best) l ≡ some v)
      × ((v ≡ best) ⊎ Memᴰ v l)
      × (best.first_seen_ms ≤ v.first_seen_ms)
      × All (λ o. o.first_seen_ms ≤ v.first_seen_ms) l
unfolding newest
newest-some best [] = (best, refl, inl refl, omega arith, tt)
newest-some best (o ∷ os) = elim (Bool-cases (ltb best.first_seen_ms o.first_seen_ms)) [
  | inl after ↦
      let (v, ran, where_from, up, below) = newest-some o os in
      (v, rw after ran, inr (from_tail where_from), ground arith, (up, below))
  | inr not_after ↦
      let (v, ran, where_from, up, below) = newest-some best os in
      (v, rw not_after ran, from_best where_from, up, (ground arith, below))
]
  where
    from_tail : {v : WorkflowVersion} → (v ≡ o) ⊎ Memᴰ v os → Memᴰ v (o ∷ os)
    from_tail (inl e) = Memᴰ.head e
    from_tail (inr m) = Memᴰ.tail m

    from_best : {v : WorkflowVersion} → (v ≡ best) ⊎ Memᴰ v os → (v ≡ best) ⊎ Memᴰ v (o ∷ os)
    from_best (inl e) = inl e
    from_best (inr m) = inr (Memᴰ.tail m)

-- Of a list that is not empty there is a pick.
pub newest-IsNewest :
    (o : WorkflowVersion) (os : List WorkflowVersion)
    → (v : WorkflowVersion) × (newest none (o ∷ os) ≡ some v) × IsNewest (o ∷ os) v
unfolding newest
newest-IsNewest o os =
    let (v, ran, where_from, up, below) = newest-some o os in
    (v, ran, record { member = place where_from; latest = (up, below) })
  where
    place : {v : WorkflowVersion} → (v ≡ o) ⊎ Memᴰ v os → Memᴰ v (o ∷ os)
    place (inl e) = Memᴰ.head e
    place (inr m) = Memᴰ.tail m

pub IsNewest-of_newest :
    (l : List WorkflowVersion) (v : WorkflowVersion) → newest none l ≡ some v → IsNewest l v
unfolding newest
IsNewest-of_newest [] v e = cc
IsNewest-of_newest (o ∷ os) v e =
    let (w, ran, best) = newest-IsNewest o os in
    let same : w ≡ v = ground (arith, ran) in subst (IsNewest (o ∷ os)) same best

pub newest_of_mem :
    (l : List WorkflowVersion) {o : WorkflowVersion}
    → Memᴰ o l
    → (v : WorkflowVersion) × (newest none l ≡ some v)
newest_of_mem [] m = elim m [ ]
newest_of_mem (x ∷ l) m = let (v, ran, _) = newest-IsNewest x l in (v, ran)

pub newest-eq-none : (l : List WorkflowVersion) → newest none l ≡ none → l ≡ []
newest-eq-none [] e = refl
newest-eq-none (o ∷ os) e = let (v, ran, _) = newest-IsNewest o os in cc

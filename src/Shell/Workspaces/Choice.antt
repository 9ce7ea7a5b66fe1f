-- ===== src/Shell/Workspaces/Choice.antt =====
-- Which workspace is chosen, after one has been made or deleted.
use tracium.Prelude.{
  ◌≡◌, ◌≢◌, ap, ◌∙◌, subst, Bool, true, false, not, List, [], ◌∷◌, ◌++◌, Option, none, some, arith,
  ◌===◌, same_refl, Bool-cases, inl, inr, any, find, select, All, if_true, if_false, select_holds,
}
use tracium.Uri.{Text}
use tracium.Extensions.{bytes_key}
use tracium.Shell.Workspaces.{Workspace, or_empty, on_created, on_deleted, or_first, is_id, choose}

-- A search past elements that fail it
find-append {ℓ} :
    {A : Type ℓ} (q : A → Bool) (xs : List A) (x : A)
    → any q xs ≡ false
    → q x ≡ true
    → find q (xs ++ x ∷ []) ≡ some x
find-append q [] x _ h = if_true _ h
find-append q (y ∷ xs) x none_before h =
    if_false {b = q y} _ (ground (arith, none_before))
    ∙ find-append q xs x (ground (arith, none_before)) h

-- A new workspace is the one that is chosen by its id, if none has that id yet.
pub choose-on_created :
    (w : Workspace) (cached : Option (List Workspace))
    → any (is_id (some w.id)) (or_empty cached) ≡ false
    → choose (some w.id) (or_empty (on_created w cached)) ≡ some w
unfolding choose on_created
choose-on_created w cached h =
    ap (λ o. or_first o (or_empty cached ++ w ∷ []))
      (find-append (is_id (some w.id)) (or_empty cached) w h (same_refl w.id))

abbrev Holds : (Workspace → Type 0) → Option Workspace → Type 0
Holds P none = Unit
Holds P (some w) = P w

module _ (P : Workspace → Type 0) where
  find-Holds : (q : Workspace → Bool) (l : List Workspace) → All P l → Holds P (find q l)
  find-Holds q [] _ = tt
  find-Holds q (w ∷ l) (p, ps) = elim (Bool-cases (q w)) [
    | inl e ↦ rw e p
    | inr e ↦ rw e (find-Holds q l ps)
  ]

  or_first-Holds :
      (o : Option Workspace) (l : List Workspace) → Holds P o → All P l → Holds P (or_first o l)
  or_first-Holds none [] _ _ = tt
  or_first-Holds none (w ∷ l) _ (p, ps) = p
  or_first-Holds (some w) l p _ = p

-- A deleted workspace is not chosen, whichever id is selected.
pub choose-on_deleted :
    (selected_id : Option Text) (id : Text) (cached : Option (List Workspace)) (w : Workspace)
    → choose selected_id (or_empty (on_deleted id cached)) ≡ some w
    → w.id ≢ id
unfolding choose on_deleted
choose-on_deleted selected_id id cached w e same =
    let left = select (λ x. not (x.id === id)) (or_empty cached) in
    let others = select_holds (λ x. not (x.id === id)) (or_empty cached) in
    let P = λ (x : Workspace). not (x.id === id) ≡ true in
    let held =
      or_first-Holds P (find (is_id selected_id) left) left
        (find-Holds P (is_id selected_id) left others) others in
    let it : not (w.id === id) ≡ true = subst (Holds P) e held in
    absurd (ground (arith, it, (bytes_key.same_iff w.id id).1 same))

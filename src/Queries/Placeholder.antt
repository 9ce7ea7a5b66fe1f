-- ===== src/Queries/Placeholder.antt =====
-- What a page of a workflow shows while a new key loads.
use tracium.Prelude.{
  ◌≡◌, ◌↔◌, refl, sym, ap, ◌∙◌, true, ◌&&◌, Option, none, some, String, arith, text_key, Bool-cases,
  inl, inr, if_true, if_false, eq_of_same, some_inj, ◌⊎◌,
}
use tracium.Queries.{Query, query_key, workflow_of, key_part, same_part, placeholder_data}

same_part_iff : (o p : Option String) → (same_part o p ≡ true) ↔ (o ≡ p)
same_part_iff none none = (λ _. refl, λ _. refl)
same_part_iff none (some b) = (λ e. absurd (ground (arith, e)), λ e. absurd (ground (arith, e)))
same_part_iff (some a) none = (λ e. absurd (ground (arith, e)), λ e. absurd (ground (arith, e)))
same_part_iff (some a) (some b) =
    (λ e. ap some (eq_of_same a b e), λ e. (text_key.same_iff a b).1 (some_inj e))

key_part_workflow :
    (w : Option String) (q : Query) (name : String)
    → workflow_of q ≡ some name
    → (key_part 2 (query_key w q) ≡ w) × (key_part 3 (query_key w q) ≡ some name)
unfolding query_key
key_part_workflow w (Query.use_workflow_token_series n range version) name e = (refl, e)
key_part_workflow w (Query.use_workflow_cost_series n range version) name e = (refl, e)
key_part_workflow w (Query.use_workflow_latency_series n range version) name e = (refl, e)
key_part_workflow w (Query.use_workflow_error_series n range version) name e = (refl, e)
key_part_workflow w (Query.use_workflow_runs n range version) name e = (refl, e)
key_part_workflow w (Query.use_workflow_detail n range) name e = (refl, e)
key_part_workflow w (Query.use_workflow_versions n range) name e = (refl, e)
key_part_workflow w (Query.use_kpis range) name e = absurd (ground arith)
key_part_workflow w _ name e = absurd (ground arith)

-- While a page of a workflow loads another key, what the page of a workflow showed before stays exactly
-- if it was about the same workflow in the same workspace; else nothing is shown. A change of the range
-- or of the version keeps it.
pub placeholder_data_iff :
    (v w : Option String) (q : Query) (before name : String) (previous : String)
    → workflow_of q ≡ some before
    → let shown = placeholder_data w name (some previous) (query_key v q) in
      ((shown ≡ some previous) ⊎ (shown ≡ none))
      × ((shown ≡ some previous) ↔ ((v ≡ w) × (before ≡ name)))
unfolding placeholder_data
placeholder_data_iff v w q before name previous e =
    let (in_workspace, of_workflow) = key_part_workflow v q before e in
    let key = query_key v q in
    let here = same_part_iff (key_part 2 key) w in
    let this = same_part_iff (key_part 3 key) (some name) in
    elim (Bool-cases (same_part (key_part 2 key) w && same_part (key_part 3 key) (some name))) [
      | inl both ↦ (
        inl (if_true _ both),
        (
          λ _. (
            sym in_workspace ∙ here.0 (ground (arith, both)),
            some_inj (sym of_workflow ∙ this.0 (ground (arith, both))),
          ),
          λ _. if_true _ both,
        ),
      )
      | inr differs ↦ (
        inr (if_false _ differs),
        (
          λ kept. absurd (let gone = sym (if_false _ differs) ∙ kept in ground (arith, gone)),
          λ same. absurd (
              let a = here.1 (in_workspace ∙ same.0) in
              let b = this.1 (of_workflow ∙ ap some same.1) in ground (arith, a, b, differs)),
        ),
      )
    ]

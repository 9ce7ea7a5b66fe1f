-- ===== src/Overview/Anomalies/Targets.antt =====
-- The key of an incident tells its target: no two targets share one.
use text.Mathlib.TextLemmas.{append_assoc}
use tracium.Prelude.{ℕ, ◌≡◌, refl, sym, ◌∙◌, String, arith}
use tracium.Prelude.Numbers.{
  ◌⧺◌, number_text, number_text-injective, number_text-IsPlain, joined-injective,
  append-cancel_left, append-ne,
}
use tracium.Overview.Anomalies.{AnomalyScope, scope_text, target_key}

scopes_differ : (w w' : String) → "workspace" ⧺ w ≡ "workflow" ⧺ w' → ⊥
scopes_differ w w' e = append-ne "s" "f" "pace" "low" w w' (omega arith) (
    append-cancel_left "work" ("space" ⧺ w) ("flow" ⧺ w')
      (sym (append_assoc "work" "space" w) ∙ e ∙ append_assoc "work" "flow" w'))

scoped-injective :
    (s s' : AnomalyScope) (w w' : String)
    → scope_text s ⧺ (":" ⧺ w) ≡ scope_text s' ⧺ (":" ⧺ w')
    → (s ≡ s') × (w ≡ w')
scoped-injective AnomalyScope.workspace AnomalyScope.workspace w w' e =
    (refl, append-cancel_left ":" w w' (append-cancel_left "workspace" (":" ⧺ w) (":" ⧺ w') e))
scoped-injective AnomalyScope.workflow AnomalyScope.workflow w w' e =
    (refl, append-cancel_left ":" w w' (append-cancel_left "workflow" (":" ⧺ w) (":" ⧺ w') e))
scoped-injective AnomalyScope.workspace AnomalyScope.workflow w w' e =
    absurd (scopes_differ (":" ⧺ w) (":" ⧺ w') e)
scoped-injective AnomalyScope.workflow AnomalyScope.workspace w w' e =
    absurd (scopes_differ (":" ⧺ w') (":" ⧺ w) (sym e))

pub target_key-injective :
    (s s' : AnomalyScope) (w w' : String) (b b' : ℕ)
    → target_key s w b ≡ target_key s' w' b'
    → (s ≡ s') × (w ≡ w') × (b ≡ b')
unfolding target_key
target_key-injective s s' w w' b b' e =
    let (front, back) =
      joined-injective (scope_text s ⧺ (":" ⧺ w)) (scope_text s' ⧺ (":" ⧺ w')) (number_text b)
        (number_text b') (number_text-IsPlain b) (number_text-IsPlain b') e in
    let (scopes, names) = scoped-injective s s' w w' front in
    (scopes, names, number_text-injective b b' back)

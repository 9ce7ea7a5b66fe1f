-- ===== src/Shell/Routing/Core.antt =====
-- The paths of the core views lead back to them.
use mathlib.Core.List.{append-nil}
use tracium.Prelude.{
  ◌≡◌, refl, sym, ap, ◌∙◌, Bool, true, false, List, [], ◌∷◌, ◌++◌, map, Option, none, some,
  if◌then◌else◌, ◌===◌, All, any, find-none,
}
use tracium.Uri.{Text, bytes, encode, encode_byte, is_plain, is_utf8, is_utf8_from, behind_first}
use tracium.Extensions.{bytes_key, ExtensionPage}
use tracium.Shell.Routing.{
  ViewId, view_text, Selected, NavState, nothing, of_workflow, of_compare, if_there, at_view,
  workflow_path, compare_path, core_path, page_path, route, route_of, segments, decode_each, split,
  path_to_state,
}
use tracium.Shell.Routing.Segments.{join_path, IsPart, segments-join_path}

abbrev pub shown_workflow : Option Text → NavState
shown_workflow w =
    if_there w (λ t. at_view ViewId.workflows (of_workflow t)) (at_view ViewId.workflows nothing)

-- A view with no more than its path can tell
abbrev pub shown_core : ViewId → Selected → NavState
shown_core ViewId.overview s = at_view ViewId.overview nothing
shown_core ViewId.workflows s = shown_workflow s.workflow
shown_core ViewId.compare s =
    if_there s.workflow
      (λ w.
        if_there s.base
          (λ b.
            if_there s.candidate (λ c. at_view ViewId.compare (of_compare (some w) b c))
              (shown_workflow s.workflow))
          (shown_workflow s.workflow))
      (shown_workflow s.workflow)
shown_core ViewId.trace s =
    if_there s.trace_id
      (λ t.
        at_view ViewId.trace (record {
          workflow = none;
          base = none;
          candidate = none;
          trace_id = some t;
          user = none;
        }))
      (at_view ViewId.trace nothing)
shown_core ViewId.usage s = at_view ViewId.usage nothing
shown_core ViewId.users s = at_view ViewId.users nothing
shown_core ViewId.user s =
    if_there s.user
      (λ u.
        at_view ViewId.user (record {
          workflow = none;
          base = none;
          candidate = none;
          trace_id = none;
          user = some u;
        }))
      (at_view ViewId.users nothing)
shown_core ViewId.keys s = at_view ViewId.keys nothing
shown_core ViewId.settings s = at_view ViewId.settings nothing
shown_core (ViewId.extension id) s = at_view ViewId.overview nothing

abbrev pub is_registered : ViewId → List ExtensionPage → Bool
is_registered view pages = any (λ page. page.id === view_text view) pages

abbrev pub shown : ViewId → Selected → List ExtensionPage → NavState
shown view s pages =
    if is_registered view pages
    then at_view (ViewId.extension (view_text view)) nothing
    else shown_core view s

abbrev pub IsText : Option Text → Type 0
IsText none = Unit
IsText (some t) = is_utf8 t ≡ true

pub record IsSelection (s : Selected) : Type 0 where
  pub workflow : IsText s.workflow
  pub base : IsText s.base
  pub candidate : IsText s.candidate
  pub trace_id : IsText s.trace_id
  pub user : IsText s.user

module _ (pages : List ExtensionPage) where
  never :
      (path : Text)
      → ((id : Text) → (path === page_path id) ≡ false)
      → any (λ page. path === page_path page.id) pages ≡ false
  never path h = all pages
    where
      all : (l : List ExtensionPage) → any (λ page. path === page_path page.id) l ≡ false
      all [] = refl
      all (page ∷ l) = rw (h page.id) (all l)

  arrives :
      (path : Text) (ts : List Text) (state : NavState)
      → ((id : Text) → (path === page_path id) ≡ false)
      → path ≡ join_path (map encode ts)
      → All IsPart ts
      → route_of ts ≡ some state
      → path_to_state path pages ≡ some state
  unfolding path_to_state
  arrives path ts state free e parts r =
      rw (find-none (λ page. path === page_path page.id) pages (never path free))
        (rw (ap segments e ∙ segments-join_path ts parts) r)

  home-arrives : path_to_state (bytes "/") pages ≡ some (at_view ViewId.overview nothing)
  unfolding path_to_state segments split decode_each
  home-arrives =
      rw
        (find-none (λ page. bytes "/" === page_path page.id) pages (never (bytes "/") (λ id. refl)))
        refl

  workflow-arrives :
      (w : Option Text) → IsText w → path_to_state (workflow_path w) pages ≡ some (shown_workflow w)
  unfolding route encode encode_byte is_plain is_utf8_from behind_first
  workflow-arrives none h =
      arrives (bytes "/workflows") (bytes "workflows" ∷ []) _ (λ id. refl) refl ((refl, refl), tt)
        refl
  workflow-arrives (some []) h =
      arrives (bytes "/workflows") (bytes "workflows" ∷ []) _ (λ id. refl) refl ((refl, refl), tt)
        refl
  workflow-arrives (some (b ∷ t)) h =
      arrives (bytes "/workflows/" ++ encode (b ∷ t)) (bytes "workflows" ∷ (b ∷ t) ∷ []) _
        (λ id. refl) (ap (λ e. bytes "/workflows/" ++ e) (sym (append-nil (encode (b ∷ t)))))
        ((refl, refl), ((h, refl), tt)) refl

  compare-arrives :
      (w b c : Option Text)
      → IsText w
      → IsText b
      → IsText c
      → path_to_state
          (core_path ViewId.compare
            (record { workflow = w; base = b; candidate = c; trace_id = none; user = none }))
          pages
        ≡ some (
            shown_core ViewId.compare
              (record { workflow = w; base = b; candidate = c; trace_id = none; user = none }))
  unfolding core_path route encode encode_byte is_plain is_utf8_from behind_first
  compare-arrives none b c hw hb hc = workflow-arrives none hw
  compare-arrives (some []) b c hw hb hc = workflow-arrives (some []) hw
  compare-arrives (some (x ∷ w)) none c hw hb hc = workflow-arrives (some (x ∷ w)) hw
  compare-arrives (some (x ∷ w)) (some []) c hw hb hc = workflow-arrives (some (x ∷ w)) hw
  compare-arrives (some (x ∷ w)) (some (y ∷ b)) none hw hb hc = workflow-arrives (some (x ∷ w)) hw
  compare-arrives (some (x ∷ w)) (some (y ∷ b)) (some []) hw hb hc =
      workflow-arrives (some (x ∷ w)) hw
  compare-arrives (some (x ∷ w)) (some (y ∷ b)) (some (z ∷ c)) hw hb hc =
      arrives (compare_path (x ∷ w) (y ∷ b) (z ∷ c))
        (bytes "workflows" ∷ (x ∷ w) ∷ bytes "compare" ∷ (y ∷ b) ∷ (z ∷ c) ∷ []) _ (λ id. refl)
        (ap (compared (encode (x ∷ w)) (encode (y ∷ b))) (sym (append-nil (encode (z ∷ c)))))
        ((refl, refl), ((hw, refl), ((refl, refl), ((hb, refl), ((hc, refl), tt))))) refl
    where
      compared : Text → Text → Text → Text
      compared p q r = bytes "/workflows/" ++ (p ++ (bytes "/compare/" ++ (q ++ (bytes "/" ++ r))))

  trace-arrives :
      (t : Option Text)
      → IsText t
      → path_to_state (if_there t (λ x. bytes "/traces/" ++ encode x) (bytes "/traces")) pages
        ≡ some (
            if_there t
              (λ x. at_view ViewId.trace (record {
                workflow = none;
                base = none;
                candidate = none;
                trace_id = some x;
                user = none;
              }))
              (at_view ViewId.trace nothing))
  unfolding route encode encode_byte is_plain is_utf8_from behind_first
  trace-arrives none h =
      arrives (bytes "/traces") (bytes "traces" ∷ []) _ (λ id. refl) refl ((refl, refl), tt) refl
  trace-arrives (some []) h =
      arrives (bytes "/traces") (bytes "traces" ∷ []) _ (λ id. refl) refl ((refl, refl), tt) refl
  trace-arrives (some (b ∷ t)) h =
      arrives (bytes "/traces/" ++ encode (b ∷ t)) (bytes "traces" ∷ (b ∷ t) ∷ []) _ (λ id. refl)
        (ap (λ e. bytes "/traces/" ++ e) (sym (append-nil (encode (b ∷ t)))))
        ((refl, refl), ((h, refl), tt)) refl

  user-arrives :
      (u : Option Text)
      → IsText u
      → path_to_state (if_there u (λ x. bytes "/clients/" ++ encode x) (bytes "/clients")) pages
        ≡ some (
            if_there u
              (λ x. at_view ViewId.user (record {
                workflow = none;
                base = none;
                candidate = none;
                trace_id = none;
                user = some x;
              }))
              (at_view ViewId.users nothing))
  unfolding route encode encode_byte is_plain is_utf8_from behind_first
  user-arrives none h =
      arrives (bytes "/clients") (bytes "clients" ∷ []) _ (λ id. refl) refl ((refl, refl), tt) refl
  user-arrives (some []) h =
      arrives (bytes "/clients") (bytes "clients" ∷ []) _ (λ id. refl) refl ((refl, refl), tt) refl
  user-arrives (some (b ∷ t)) h =
      arrives (bytes "/clients/" ++ encode (b ∷ t)) (bytes "clients" ∷ (b ∷ t) ∷ []) _ (λ id. refl)
        (ap (λ e. bytes "/clients/" ++ e) (sym (append-nil (encode (b ∷ t)))))
        ((refl, refl), ((h, refl), tt)) refl

  pub core-arrives :
      (view : ViewId) (s : Selected)
      → IsSelection s
      → path_to_state (core_path view s) pages ≡ some (shown_core view s)
  unfolding core_path route encode encode_byte is_plain is_utf8_from behind_first
  core-arrives ViewId.overview s h = home-arrives
  core-arrives ViewId.workflows s h = workflow-arrives s.workflow h.workflow
  core-arrives ViewId.compare s h =
      compare-arrives s.workflow s.base s.candidate h.workflow h.base h.candidate
  core-arrives ViewId.trace s h = trace-arrives s.trace_id h.trace_id
  core-arrives ViewId.usage s h =
      arrives (bytes "/usage") (bytes "usage" ∷ []) _ (λ id. refl) refl ((refl, refl), tt) refl
  core-arrives ViewId.users s h = user-arrives none tt
  core-arrives ViewId.user s h = user-arrives s.user h.user
  core-arrives ViewId.keys s h =
      arrives (bytes "/api-keys") (bytes "api-keys" ∷ []) _ (λ id. refl) refl ((refl, refl), tt)
        refl
  core-arrives ViewId.settings s h =
      arrives (bytes "/settings") (bytes "settings" ∷ []) _ (λ id. refl) refl ((refl, refl), tt)
        refl
  core-arrives (ViewId.extension id) s h = home-arrives

-- ===== src/Api/Client/Outcomes.antt =====
-- What a request comes to, and what the dashboard does when it fails.
use tracium.Prelude.{
  ℕ, ◌<◌, ◌≡◌, ◌≢◌, ◌⊎◌, ◌↔◌, refl, sym, ap, ◌∙◌, subst, inl, inr, true, false, Option, none, some,
  String, arith, ltb, ◌===◌, number_key, Bool-cases,
}
use tracium.Api.Client.{
  ApiClientConfig, Failure, Outcome, Response, Arrival, is_ok, settle, body_of, error_of,
  timeout_of, request, handle_error, retry, is_unauthorized, ErrorBody,
}

-- A response that is good, and what `request` makes of it
abbrev pub Reads {ℓ} : {A : Type ℓ} → Response A → Option A → Type ℓ
Reads r v =
    (is_ok r.status ≡ true)
    × (((r.status ≡ 204) × (v ≡ none)) ⊎ ((r.status ≢ 204) × (r.json ≢ none) × (v ≡ r.json)))

failure-inj : {e f : Failure} → some e ≡ some f → e ≡ f
failure-inj h = ground arith

network-failure :
    (message : String) (e : Failure)
    → some (Failure.network_error message) ≡ some e
    → handle_error e ≡ false
unfolding handle_error
network-failure message e h = ap handle_error (sym (failure-inj h))

module _ {ℓ} {A : Type ℓ} where
  -- The value of an outcome, and its failure
  abbrev value : Outcome (Option A) → Option (Option A)
  value (Outcome.done v) = some v
  value (Outcome.thrown e) = none

  abbrev failure : Outcome (Option A) → Option Failure
  failure (Outcome.done v) = none
  failure (Outcome.thrown e) = some e

  response_in : Arrival A → Option (Response A)
  response_in (Arrival.rejected message) = none
  response_in (Arrival.responded r) = some r

  response-inj : {q r : Response A} → Arrival.responded q ≡ Arrival.responded r → q ≡ r
  unfolding response_in
  response-inj e = (let e' = ap response_in e in ground (arith, e'))

  value-inj : {v w : Option A} → some v ≡ some w → v ≡ w
  value-inj e = ground arith

  body_of-value_iff : (o v : Option A) → (value (body_of o) ≡ some v) ↔ ((o ≢ none) × (v ≡ o))
  body_of-value_iff none v = (λ e. absurd (ground arith), λ h. absurd (h.0 refl))
  body_of-value_iff (some a) v =
      (λ e. (λ bad. absurd (ground (arith, bad)), sym (value-inj e)), λ h. ap some (sym h.1))

  settle-value_iff :
      (r : Response A) (v : Option A) → (value (settle (Arrival.responded r)) ≡ some v) ↔ Reads r v
  settle-value_iff r v = elim (Bool-cases (is_ok r.status)) [
    | inr bad ↦ rw bad (λ e. absurd (ground arith), λ h. absurd (ground arith))
    | inl ok ↦ elim (Bool-cases (r.status === 204)) [
      | inl empty ↦ rw ok (
          rw empty (
            λ e. (refl, inl (ground (arith, empty), sym (value-inj e))),
            λ h. elim h.1 [
              | inl (_, same) ↦ ap some (sym same)
              | inr (other, _, _) ↦ absurd (other (ground (arith, empty)))
            ],
          ))
      | inr full ↦ rw ok (
          rw full (
            λ e.
                let (there, same) = (body_of-value_iff r.json v).0 e in
                (refl, inr (λ bad. ground (arith, bad, full), there, same)),
            λ h. elim h.1 [
              | inl (bad, _) ↦ absurd (ground (arith, bad, full))
              | inr (_, there, same) ↦ (body_of-value_iff r.json v).1 (there, same)
            ],
          ))
    ]
  ]

  done-of_value : (o : Outcome (Option A)) (v : Option A) → value o ≡ some v → o ≡ Outcome.done v
  done-of_value (Outcome.done w) v e = ap Outcome.done (value-inj e)
  done-of_value (Outcome.thrown f) v e = absurd (ground arith)

  -- `request` gives a value exactly if the response is there before the time is up and its status is
  -- one of success: no value for 204, else the JSON of the body, which then must be JSON.
  pub request_done_iff :
      (config : ApiClientConfig) (aborted : String) (after_ms : ℕ) (arrival : Arrival A)
      (v : Option A)
      → (request config aborted after_ms arrival ≡ Outcome.done v) ↔ (
          (after_ms < timeout_of config.timeout_ms)
          × ((r : Response A) × (arrival ≡ Arrival.responded r) × Reads r v))
  unfolding request
  request_done_iff config aborted after_ms (Arrival.rejected message) v = (
    λ e. absurd (elim (Bool-cases (ltb after_ms (timeout_of config.timeout_ms))) [
      | inl soon ↦ (let e' = rw soon at (ap value e) in ground (arith, e'))
      | inr late ↦ (let e' = rw late at (ap value e) in ground (arith, e'))
    ]),
    λ h. absurd (let (r, same, _) = h.1 in ground (arith, same)),
  )
  request_done_iff config aborted after_ms (Arrival.responded r) v =
      elim (Bool-cases (ltb after_ms (timeout_of config.timeout_ms))) [
        | inr late ↦
            rw late
              (λ e. absurd (let e' = ap value e in ground (arith, e')), λ h. absurd (ground arith))
        | inl soon ↦ rw soon (
          λ e. (ground arith, (r, refl, (settle-value_iff r v).0 (ap value e))),
          λ h. done-of_value (settle (Arrival.responded r)) v (
              let (q, same, reads) = h.1 in
              (settle-value_iff r v).1 (subst (λ x. Reads x v) (sym (response-inj same)) reads)),
        )
      ]

  body_of-failure :
      (o : Option A) (e : Failure) → failure (body_of o) ≡ some e → handle_error e ≡ false
  unfolding handle_error
  body_of-failure none e h = ap handle_error (sym (failure-inj h))
  body_of-failure (some a) e h = absurd (ground arith)

  responded-failure :
      (r : Response A) (e : Failure)
      → failure (settle (Arrival.responded r)) ≡ some e
      → handle_error e ≡ (r.status === 401)
  unfolding handle_error is_unauthorized
  responded-failure r e h = elim (Bool-cases (is_ok r.status)) [
    | inr bad ↦
        let h' : some (Failure.api_error (error_of r.status r.error_json)) ≡ some e = rw bad at h in
        ap handle_error (sym (failure-inj h')) ∙ status_of r.error_json
    | inl ok ↦
        let not_401 : false ≡ (r.status === 401) = ground (arith, ok) in
        elim (Bool-cases (r.status === 204)) [
          | inl empty ↦
              absurd (let h' : none ≡ some e = rw empty at (rw ok at h) in ground (arith, h'))
          | inr full ↦ body_of-failure r.json e (rw full at (rw ok at h)) ∙ not_401
        ]
  ]
    where
      status_of :
          (b : Option ErrorBody)
          → handle_error (Failure.api_error (error_of r.status b)) ≡ (r.status === 401)
      status_of none = refl
      status_of (some b) = refl

  called :
      (config : ApiClientConfig) (aborted : String) (after_ms : ℕ) (arrival : Arrival A)
      (e : Failure)
      → request config aborted after_ms arrival ≡ Outcome.thrown e
      → (handle_error e ≡ true) ↔ (
          (after_ms < timeout_of config.timeout_ms)
          × ((r : Response A) × (arrival ≡ Arrival.responded r) × (r.status ≡ 401)))
  unfolding request
  called config aborted after_ms (Arrival.rejected message) e h =
      let quiet : handle_error e ≡ false =
        elim (Bool-cases (ltb after_ms (timeout_of config.timeout_ms))) [
          | inl soon ↦ network-failure _ e (rw soon at (ap failure h))
          | inr late ↦ network-failure _ e (rw late at (ap failure h))
        ] in
      (
        λ loud. absurd (ground (arith, quiet, loud)),
        λ k. absurd (let (r, same, _) = k.1 in ground (arith, same)),
      )
  called config aborted after_ms (Arrival.responded r) e h =
      elim (Bool-cases (ltb after_ms (timeout_of config.timeout_ms))) [
        | inr late ↦
            let quiet : handle_error e ≡ false = network-failure _ e (rw late at (ap failure h)) in
            (
              λ loud. absurd (ground (arith, quiet, loud)),
              λ k. absurd (let less = k.0 in ground (arith, less, late)),
            )
        | inl soon ↦
            let says : handle_error e ≡ (r.status === 401) =
              responded-failure r e (rw soon at (ap failure h)) in
            (
              λ loud. (ground (arith, soon), (r, refl, ground (arith, says, loud))),
              λ k.
                  let (q, same, is_401) = k.1 in
                  let here : r.status ≡ 401 =
                    ap (λ (x : Response A). x.status) (response-inj same) ∙ is_401 in
                  says ∙ ground (arith, here),
            )
      ]

  -- If a request fails, `onUnauthorized` is called exactly if a response is there before the time is
  -- up and says 401. Then the query is not tried again; after any other failure it is, but only once.
  pub unauthorized_iff :
      (config : ApiClientConfig) (aborted : String) (after_ms : ℕ) (arrival : Arrival A)
      (e : Failure)
      → request config aborted after_ms arrival ≡ Outcome.thrown e
      → ((handle_error e ≡ true) ↔ (
          (after_ms < timeout_of config.timeout_ms)
          × ((r : Response A) × (arrival ≡ Arrival.responded r) × (r.status ≡ 401))))
        × ((n : ℕ) → (retry n e ≡ true) ↔ ((n ≡ 0) × (handle_error e ≡ false)))
  unfolding request retry
  unauthorized_iff config aborted after_ms arrival e h =
      (called config aborted after_ms arrival e h, λ n. ground arith)

-- ===== src/ApiKeys/Demo.antt =====
-- The keys of the preview: `useDemoApiKeys` and `seedDemoKeys` of dashboard/src/modules/api-keys/hooks/
-- useApiKeys.ts. The random texts and the times, which the host gives, are arguments.
use tracium.Prelude.{
  ℕ, ◌+◌, ◌≡◌, refl, ap, false, not, List, [], ◌∷◌, ◌++◌, map, Option, none, some, arith,
  if◌then◌else◌, ◌===◌, Bool-cases, inl, inr, select, length, take,
}
use tracium.Uri.{Text, bytes}
use tracium.Extensions.{bytes_key}
use tracium.Texts.{trim, or_else, is_empty}
use tracium.ApiKeys.{ApiKeyRecord, CreatedApiKey, is_revoked, active, revoked}

abbrev pub demo_key : Text → Text → Text → Text → Option Text → Option Text → ApiKeyRecord
demo_key id name prefix created_at last_used_at revoked_at = record {
  id = id;
  workspace_id = bytes "demo";
  created_by = bytes "you@example.com";
  name = name;
  prefix = prefix;
  created_at = created_at;
  last_used_at = last_used_at;
  revoked_at = revoked_at;
}

-- `seedDemoKeys`, with the instant that is so many milliseconds ago
unfoldable pub seed_demo_keys : (ℕ → Text) → List ApiKeyRecord
seed_demo_keys iso =
    demo_key (bytes "demo-prod") (bytes "Production ingest") (bytes "trc_9f3a1b2c") (iso 777600000)
      (some (iso 240000)) none
    ∷ demo_key (bytes "demo-staging") (bytes "Staging ingest") (bytes "trc_4d2e77a0")
        (iso 432000000) (some (iso 7200000)) none
    ∷ demo_key (bytes "demo-old-laptop") (bytes "Old laptop") (bytes "trc_1a0b9c8d")
        (iso 3456000000) (some (iso 1814400000)) (some (iso 1728000000))
    ∷ []

-- `createKey`: the random texts, the time, the name and the keys there are
unfoldable pub create_key :
    Text → Text → Text → Text → List ApiKeyRecord → List ApiKeyRecord × CreatedApiKey
create_key token_random id_random now name keys =
    let token = bytes "trc_" ++ take 32 token_random in
    let key =
      demo_key (bytes "demo-" ++ take 8 id_random) (or_else (trim name) (bytes "default"))
        (take 12 token) now none none in
    (key ∷ keys, record { key = key; token = token })

abbrev pub revoke_at : Text → Text → ApiKeyRecord → ApiKeyRecord
revoke_at now id k = if k.id === id then record k { revoked_at = some now } else k

unfoldable pub revoke_key : Text → Text → List ApiKeyRecord → List ApiKeyRecord
revoke_key now id keys = map (revoke_at now id) keys

-- Every key is counted once in the footer.
active-revoked :
    (keys : List ApiKeyRecord) → length (active keys) + length (revoked keys) ≡ length keys
active-revoked [] = omega arith
active-revoked (k ∷ keys) = ground (arith, active-revoked keys)

-- The active keys are those that were active before and have another id.
pub active-revoke_key :
    (now id : Text) (keys : List ApiKeyRecord)
    → is_empty now ≡ false
    → active (revoke_key now id keys) ≡ select (λ k. not (k.id === id)) (active keys)
unfolding revoke_key
active-revoke_key now id [] h = refl
active-revoke_key now id (k ∷ keys) h =
    let rest = active-revoke_key now id keys h in
    elim (Bool-cases (k.id === id)) [
      | inl same ↦ elim (Bool-cases (is_revoked k)) [
        | inl old ↦ rw old (rw same (rw h rest))
        | inr live ↦ rw live (rw same (rw h rest))
      ]
      | inr other ↦ elim (Bool-cases (is_revoked k)) [
        | inl old ↦ rw other (rw old rest)
        | inr live ↦ rw other (rw live (rw other (ap (k ∷◌) rest)))
      ]
    ]

-- ===== src/Recovery/Tests.antt =====
-- The tests of the recovery file's regular expressions, and the theorems on its validation at a
-- legacy record.
use browserlogin_client.Prelude.{true, false, none, ◌≡◌, refl, ◌↔◌}
use browserlogin_client.Recovery.Text.{safe_id, hex64, run_id_text, iso_date, forbidden}
use browserlogin_client.Recovery.Validate.{
  archive_ok, validate, schema_ok, state_secret_free, secret_free, secret_free_fields,
}
use browserlogin_client.Recovery.Legacy.{legacy_ok, migrated, migrate}
use browserlogin_client.Recovery.Coherence.{Coherent, validate-Coherent, migrate-valid}
use browserlogin_client.Coordinator.Tests.Sample.{env, running_state, legacy_record, time}

text_tests :
    (safe_id "profile-1" ≡ true)
    × (safe_id "" ≡ false)
    × (safe_id "a\nb" ≡ false)
    × (iso_date "2026-01-02T03:04:05.678Z" ≡ true)
    × (iso_date "2026-01-02" ≡ false)
    × (run_id_text "0123456789abcdef0123456789abcdef" ≡ true)
    × (hex64 "0123456789abcdef0123456789abcdef" ≡ false)
    × (forbidden "X-Api_Key" ≡ true)
    × (forbidden "apikey" ≡ true)
    × (forbidden "/home/ann/TOKENS" ≡ true)
    × (forbidden "/home/ann/work" ≡ false)
unfolding safe_id iso_date run_id_text hex64 forbidden
text_tests = (refl, refl, refl, refl, refl, refl, refl, refl, refl, refl, refl)

validate-Coherent_example : (validate running_state ≡ none) ↔ (
    (schema_ok running_state ≡ true)
    × (state_secret_free running_state ≡ true)
    × Coherent running_state)
validate-Coherent_example = validate-Coherent running_state

migrate-valid_example : validate (migrated env.join "/r" time legacy_record) ≡ none
unfolding archive_ok migrate migrated legacy_ok safe_id run_id_text hex64 iso_date forbidden
    state_secret_free secret_free_fields secret_free
migrate-valid_example =
    migrate-valid env.join "/r" time legacy_record (migrated env.join "/r" time legacy_record) refl
      refl refl refl refl

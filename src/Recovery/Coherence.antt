-- ===== src/Recovery/Coherence.antt =====
-- What `validateRecoveryState` accepts, said field by field; and that it accepts what the legacy
-- migration builds.
use browserlogin_client.Prelude.{
  String, Bool, true, false, not, none, some, ◌≡◌, refl, truthy, is_some, arith, ◌↔◌, ◌⊎◌, inl, inr,
  Bool-cases, List, str_eq, eq_iff, if◌then◌else◌,
}
use browserlogin_client.Json.{is_true}
use browserlogin_client.Recovery.{
  start_intent, license, running, upload_pending, done, force_stop, upload_ambiguous, RecoveryState,
}
use mathlib.Core.Path.{subst}
use browserlogin_client.Recovery.Text.{safe_id, iso_date}
use browserlogin_client.Recovery.Legacy.{LegacyState, legacy_ok, migrated, migrate}
use browserlogin_client.Recovery.Validate.{
  bad_schema, schema_ok, state_secret_free, payload_get, state_fault, validate,
}

-- The fields agree with the status and with each other.
pub record Coherent (s : RecoveryState) : Type 0 where
  pub unlicensed : s.status ≡ start_intent → s.license_acquired ≡ false
  pub launched : s.status ≡ running → s.browser_launched ≡ true
  pub packed :
      (s.status ≡ upload_pending) ⊎ (s.status ≡ upload_ambiguous) → truthy s.archive_artifact ≡ true
  pub committed : s.status ≡ done → (truthy s.stop_key ≡ true) × (is_some s.stop_payload ≡ true)
  pub forced : s.status ≡ force_stop → is_true (payload_get "force" s.stop_payload) ≡ true
  pub remote :
      (s.status ≡ start_intent) ⊎ (s.status ≡ license) ⊎ (truthy s.remote_session_id ≡ true)
  pub identified :
      (is_some s.runner_start_time ≡ is_some s.runner_pid)
      × (is_some s.runner_cmdline_hash ≡ is_some s.runner_pid)

state_fault-Coherent :
    (s : RecoveryState) → state_fault s ≡ none → (state_secret_free s ≡ true) × Coherent s
unfolding state_fault
state_fault-Coherent s h = (
  ground arith,
  record {
    unlicensed = λ e. ground arith;
    launched = λ e. ground arith;
    packed = λ e. ground arith;
    committed = λ e. ground arith;
    forced = λ e. ground arith;
    remote = ground arith;
    identified = ground arith;
  },
)

Coherent-state_fault :
    (s : RecoveryState) → state_secret_free s ≡ true → Coherent s → state_fault s ≡ none
unfolding state_fault
Coherent-state_fault s h c =
    let u = c.unlicensed in
    let l = c.launched in
    let p = c.packed in
    let k = c.committed in
    let f = c.forced in let r = c.remote in let i = c.identified in ground arith

-- A recovery state passes `validateRecoveryState` exactly when it has the schema's shape, carries no
-- secret material, and is coherent.
pub validate-Coherent :
    (s : RecoveryState)
    → (validate s ≡ none) ↔ ((schema_ok s ≡ true) × (state_secret_free s ≡ true) × Coherent s)
unfolding validate
validate-Coherent s = (into (schema_ok s) refl, λ h. rw (h.0) (Coherent-state_fault s h.1 h.2))
  where
    into :
        (b : Bool)
        → schema_ok s ≡ b
        → (if b then state_fault s else some bad_schema) ≡ none
        → (schema_ok s ≡ true) × (state_secret_free s ≡ true) × Coherent s
    into true e h = let c = state_fault-Coherent s h in (e, c.0, c.1)
    into false e h = cc

-- A text that `SAFE_ID` accepts is not empty.
safe_id-truthy : (t : String) → safe_id t ≡ true → truthy (some t) ≡ true
unfolding safe_id
safe_id-truthy t h = by_empty (Bool-cases (str_eq t ""))
  where
    by_empty : (str_eq t "" ≡ true) ⊎ (str_eq t "" ≡ false) → not (str_eq t "") ≡ true
    by_empty (inl e) =
        let empty : t ≡ "" = (eq_iff t "").0 e in
        let absurd : safe_id "" ≡ true = subst (λ u. safe_id u ≡ true) empty h in cc
    by_empty (inr e) = ground arith

migrated-Coherent :
    (join : List String → String) (root now : String) (l : LegacyState)
    → safe_id l.remote_session_id ≡ true
    → safe_id l.pending_archive_artifact ≡ true
    → Coherent (migrated join root now l)
unfolding migrated
migrated-Coherent join root now l r a = record {
  unlicensed = λ e. cc;
  launched = λ e. cc;
  packed = λ e. safe_id-truthy l.pending_archive_artifact a;
  committed = λ e. cc;
  forced = λ e. cc;
  remote = inr (inr (safe_id-truthy l.remote_session_id r));
  identified = (refl, refl);
}

migrated-schema_ok :
    (join : List String → String) (root now : String) (l : LegacyState)
    → legacy_ok l ≡ true
    → iso_date now ≡ true
    → safe_id (migrated join root now l).work_dir ≡ true
    → safe_id (migrated join root now l).cache_dir ≡ true
    → schema_ok (migrated join root now l) ≡ true
unfolding migrated legacy_ok schema_ok
migrated-schema_ok join root now l h t w c = ground arith

migrated-valid :
    (join : List String → String) (root now : String) (l : LegacyState)
    → legacy_ok l ≡ true
    → iso_date now ≡ true
    → safe_id (migrated join root now l).work_dir ≡ true
    → safe_id (migrated join root now l).cache_dir ≡ true
    → state_secret_free (migrated join root now l) ≡ true
    → validate (migrated join root now l) ≡ none
unfolding legacy_ok
migrated-valid join root now l ok t w c f = (validate-Coherent (migrated join root now l)).1 (
  migrated-schema_ok join root now l ok t w c,
  f,
  migrated-Coherent join root now l (ground arith) (ground arith),
)

-- A legacy record that the migration accepts becomes a state that `validateRecoveryState` accepts,
-- provided that the time and the two directories computed for it fit the schema and that nothing in
-- it looks like a secret.
pub migrate-valid :
    (join : List String → String) (root now : String) (l : LegacyState) (s : RecoveryState)
    → migrate join root now l ≡ some s
    → iso_date now ≡ true
    → safe_id s.work_dir ≡ true
    → safe_id s.cache_dir ≡ true
    → state_secret_free s ≡ true
    → validate s ≡ none
unfolding migrate
migrate-valid join root now l s e t w c f = by_ok (legacy_ok l) refl e
  where
    some-inj : {a b : RecoveryState} → some a ≡ some b → a ≡ b
    some-inj e = cc

    by_ok :
        (b : Bool)
        → legacy_ok l ≡ b
        → (if b then some (migrated join root now l) else none) ≡ some s
        → validate s ≡ none
    by_ok true ok e =
        let m : migrated join root now l ≡ s = some-inj e in
        subst (λ v. validate v ≡ none) m
          (migrated-valid join root now l ok t (rw m w) (rw m c) (rw m f))
    by_ok false ok e = cc

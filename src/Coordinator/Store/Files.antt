-- ===== src/Coordinator/Store/Files.antt =====
-- What reading, writing and removing a recovery file does to the assertions about it.
use browserlogin_client.Prelude.{
  String, false, not, Option, none, some, ◌≡◌, refl, ap, ◌∙◌, str_eq, eq_iff, eq_refl, arith,
}
use browserlogin_client.Recovery.{RecoveryState}
use browserlogin_client.Recovery.Legacy.{LegacyState, migrate}
use browserlogin_client.Recovery.Validate.{Fault, validate}
use browserlogin_client.Coordinator.World.{
  Stored, current, legacy, other, Disk, Written, saved, failed_before, failed_after, Effect, Env,
  Options, World,
}
use browserlogin_client.Coordinator.Exec.{M, logged}
use browserlogin_client.Coordinator.Spec.{
  Spec, Spec-pure, Spec-throw, Spec-gets, Spec-call, Spec-observe, Spec-modify, Spec-bind,
  Spec-weaken, Spec-finally, Spec-throw_if, Spec-fact,
}
use browserlogin_client.Coordinator.Store.{
  put, path_for, accept, or_bad_schema, check, decode, accepted, present, load, end_write, write,
  save, remove, with_lock, with_transition, save_retry, some_state, require_state, stamp,
}
use browserlogin_client.Coordinator.Guard.{is_guarded, Rule, IsRule, At, Gone, Reads}
use browserlogin_client.Coordinator.Guard.Steps.{
  At-none, Keeps-call, Keeps-observe, Keeps-stamp, Keeps-stamp_later, At-logged,
}

-- The assertion while a file's content is looked at.
abbrev Holding : Env → Options → Rule → String → Option Stored → World → Type 0
Holding env opts G path found w = (w.disk path ≡ found) × At env opts G none w

put_self : (d : Disk) (path : String) (v : Option Stored) → put d path v path ≡ v
put_self d path v = rw (eq_refl path) refl

-- What a load returned: a state is the one in its profile's file.
abbrev pub Loaded : Env → Options → Rule → String → Option RecoveryState → World → Type 0
Loaded env opts G profile none w = At env opts G none w
Loaded env opts G profile (some s) w = (s.profile_id ≡ profile) × At env opts G (some s) w

module _ {env : Env} {opts : Options} {G : Rule} where
  -- A check that passes returns its state.
  check-returns :
      {o : Option RecoveryState} (s : RecoveryState)
      → Spec
          (At env opts G o)
          (check env opts s)
          (λ v w. ((v ≡ s) × (validate s ≡ none)) × At env opts G o w)
          (At env opts G none)
  unfolding check
  check-returns s = passed (validate s) refl
    where
      passed :
          {o : Option RecoveryState} (f : Option Fault)
          → validate s ≡ f
          → Spec
              (At env opts G o)
              (accept env opts s f)
              (λ v w. ((v ≡ s) × (validate s ≡ none)) × At env opts G o w)
              (At env opts G none)
      passed none e = Spec-pure s (λ w h. ((refl, e), h))
      passed (some f) e = Spec-throw _ At-none

  module _ (rule : IsRule env opts G) where
    end_write-At :
        (s : RecoveryState) (ended : Written)
        → validate s ≡ none
        → Spec
            (At env opts G none)
            (end_write env opts (path_for env opts s.profile_id) s ended)
            (λ _. At env opts G (some s))
            (At env opts G none)
    unfolding end_write
    end_write-At s saved valid = record {
      at = λ w h. record {
        guarded = rule.saved s w valid h.guarded;
        stored = rw (put_self w.disk _ _) refl;
      };
    }
    end_write-At s (failed_before f) valid = record { at = λ w h. h }
    end_write-At s (failed_after f) valid = record {
      at = λ w h. record { guarded = rule.saved s w valid h.guarded; stored = tt };
    }

    write-At :
        {o : Option RecoveryState} (s : RecoveryState)
        → validate s ≡ none
        → Spec
            (At env opts G o)
            (write env opts (path_for env opts s.profile_id) s)
            (λ _. At env opts G (some s))
            (At env opts G none)
    unfolding write
    write-At s valid =
        Spec-bind _ _ (Keeps-observe rule _ _ refl)
          (λ ended. Spec-weaken At-none (λ _ w h. h) (λ w h. h) (end_write-At s ended valid))

    -- A saved state is the one in its profile's file.
    pub save-At :
        {o : Option RecoveryState} (s : RecoveryState)
        → Spec
            (At env opts G o)
            (save env opts s)
            (λ _. At env opts G (some s))
            (At env opts G none)
    unfolding save
    save-At s = Spec-bind _ _ (check-returns s) λ v.
        Spec-fact λ e. rw (e.0) (Spec-bind _ _ (Keeps-call rule _ _ refl) (λ _. write-At s e.1))

    pub save_retry-At :
        {o : Option RecoveryState} (s : RecoveryState)
        → Spec
            (At env opts G o)
            (save_retry env opts s)
            (λ _. At env opts G none)
            (At env opts G none)
    unfolding save_retry
    save_retry-At s = Spec-bind _ _ (Keeps-stamp_later rule) λ later.
        Spec-bind _ _ (Keeps-stamp rule)
          λ now. Spec-weaken (λ w h. h) (λ _. At-none) (λ w h. h) (save-At _)

    -- A removed file is gone.
    pub remove-Gone :
        {o : Option RecoveryState} (profile : String)
        → Spec
            (At env opts G o)
            (remove env opts profile)
            (λ _. Gone env opts G profile)
            (At env opts G none)
    unfolding remove
    remove-Gone profile = Spec-bind _ _ (Keeps-call rule _ _ refl) λ _. Spec-modify _ (λ w h.
        record { guarded = rule.removed profile w h.guarded; absent = put_self w.disk _ none })

  module _ (rule : IsRule env opts G) where
    stamp-Holding :
        (path : String) (found : Option Stored)
        → Spec
            (Holding env opts G path found)
            (stamp env opts)
            (λ _. Holding env opts G path found)
            (At env opts G none)
    unfolding stamp
    stamp-Holding path found =
        Spec-bind _ _ (Spec-observe _ _ (λ w h _. (h.0, At-logged rule _ w refl h.1)))
          (λ t. Spec-pure _ (λ w h. h))

    or_bad_schema-Reads :
        (l : LegacyState) (path now : String) (m : Option RecoveryState)
        → migrate env.join opts.root now l ≡ m
        → Spec
            (Holding env opts G path (some (legacy l)))
            (or_bad_schema env opts m)
            (λ v w.
              Reads env opts (some (legacy l)) v × Holding env opts G path (some (legacy l)) w)
            (At env opts G none)
    unfolding or_bad_schema
    or_bad_schema-Reads l path now none e = Spec-throw _ (λ w h. h.1)
    or_bad_schema-Reads l path now (some s) e = Spec-pure s (λ w h. ((now, e), h))

    decode-Reads :
        (stored : Stored) (path : String)
        → Spec
            (Holding env opts G path (some stored))
            (decode env opts stored)
            (λ v w. Reads env opts (some stored) v × Holding env opts G path (some stored) w)
            (At env opts G none)
    unfolding decode
    decode-Reads (current s) path = Spec-pure s (λ w h. (refl, h))
    decode-Reads (legacy l) path =
        Spec-bind _ _ (stamp-Holding path _) (λ now. or_bad_schema-Reads l path now _ refl)
    decode-Reads other path = Spec-throw _ (λ w h. h.1)

    check-Holding :
        (s : RecoveryState) (path : String) (found : Option Stored)
        → Spec
            (Holding env opts G path found)
            (check env opts s)
            (λ v w. (v ≡ s) × Holding env opts G path found w)
            (At env opts G none)
    unfolding check
    check-Holding s path found = passed (validate s)
      where
        passed :
            (f : Option Fault)
            → Spec
                (Holding env opts G path found)
                (accept env opts s f)
                (λ v w. (v ≡ s) × Holding env opts G path found w)
                (At env opts G none)
        passed none = Spec-pure s (λ w h. (refl, h))
        passed (some f) = Spec-throw _ (λ w h. h.1)

    same_profile-At :
        (s : RecoveryState) (profile : String) (stored : Stored) (w : World)
        → Reads env opts (some stored) s
        → not (str_eq s.profile_id profile) ≡ false
        → Holding env opts G (path_for env opts profile) (some stored) w
        → Loaded env opts G profile (some s) w
    same_profile-At s profile stored w reads same h =
        let e : s.profile_id ≡ profile = (eq_iff s.profile_id profile).0 (ground arith) in
        let f : w.disk (path_for env opts s.profile_id) ≡ some stored =
          ap (λ p. w.disk (path_for env opts p)) e ∙ h.0 in
        (e, record { guarded = h.1.guarded; stored = rw f reads })

    accepted-At :
        (profile : String) (stored : Stored)
        → Spec
            (Holding env opts G (path_for env opts profile) (some stored))
            (accepted env opts profile stored)
            (Loaded env opts G profile)
            (At env opts G none)
    unfolding accepted
    accepted-At profile stored = Spec-bind _ _ (decode-Reads stored _) λ v. Spec-fact λ reads.
        Spec-bind _ _ (check-Holding v _ _) λ u. Spec-fact λ e.
          Spec-bind _ _ (Spec-throw_if _ _ (λ w h. h.1)) λ _.
            Spec-fact
              λ same. Spec-pure _ (λ w h. same_profile-At u profile stored w (rw e reads) same h)

    -- A state that is loaded is the one in its profile's file.
    pub load-At :
        {o : Option RecoveryState} (profile : String)
        → Spec
            (At env opts G o)
            (load env opts profile)
            (Loaded env opts G profile)
            (At env opts G none)
    unfolding load present
    load-At profile =
        Spec-bind {R = λ _. At env opts G none} _ _
          (Spec-weaken At-none (λ _ w h. h) (λ w h. h) (Keeps-call rule _ _ refl))
          (λ _. Spec-bind _ _ (Spec-gets _ (λ w h. (refl, h))) (present-At profile))
      where
        present-At :
            (profile : String) (found : Option Stored)
            → Spec
                (Holding env opts G (path_for env opts profile) found)
                (present env opts profile found)
                (Loaded env opts G profile)
                (At env opts G none)
        present-At profile none = Spec-pure none (λ w h. h.1)
        present-At profile (some stored) = accepted-At profile stored

    -- A required state likewise.
    pub require_state-At :
        {o : Option RecoveryState} (profile : String)
        → Spec
            (At env opts G o)
            (require_state env opts profile)
            (λ s. Loaded env opts G profile (some s))
            (At env opts G none)
    unfolding require_state some_state
    require_state-At profile = Spec-bind _ _ (load-At profile) (λ found. required found)
      where
        required :
            (found : Option RecoveryState)
            → Spec
                (Loaded env opts G profile found)
                (some_state env opts found)
                (λ s. Loaded env opts G profile (some s))
                (At env opts G none)
        required none = Spec-throw _ (λ w h. h)
        required (some s) = Spec-pure s (λ w h. h)

-- A method keeps its specification under the transition locks, if logging a call does.
module _ (env : Env) (opts : Options) {A : Type 0} {P : World → Type 0} {Q : A → World → Type 0}
    {E : World → Type 0}
    (keep : (e : Effect) (w : World) → is_guarded e ≡ false → P w → P (logged w e))
    (keep_ok : (a : A) (e : Effect) (w : World) → is_guarded e ≡ false → Q a w → Q a (logged w e))
    (keep_err : (e : Effect) (w : World) → is_guarded e ≡ false → E w → E (logged w e))
    (weaker : (w : World) → P w → E w) where
  with_lock-Spec : (lock : String) (m : M A) → Spec P m Q E → Spec P (with_lock env opts lock m) Q E
  unfolding with_lock
  with_lock-Spec lock m h =
      Spec-bind _ _
        (Spec-call {Q = λ _. P} _ _ (λ w p _. keep _ w refl p) (λ w p. weaker _ (keep _ w refl p)))
        λ _. Spec-finally m _ (λ a v. keep_ok a _ v refl) (λ v. keep_err _ v refl) h

  pub with_transition-Spec :
      (profile : String) (m : M A) → Spec P m Q E → Spec P (with_transition env opts profile m) Q E
  unfolding with_transition
  with_transition-Spec profile m h =
      Spec-bind _ _
        (Spec-call {Q = λ _. P} _ _ (λ w p _. keep _ w refl p) (λ w p. weaker _ (keep _ w refl p)))
        λ _. with_lock-Spec _ _ (with_lock-Spec _ m h)

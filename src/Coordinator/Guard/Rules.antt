-- ===== src/Coordinator/Guard/Rules.antt =====
-- Rules of two shapes: what each call of the trace met, and that every recovery file is well kept.
use mathlib.Core.Path.{subst}
use browserlogin_client.Prelude.{
  String, true, false, Option, none, some, ◌≡◌, refl, sym, ◌∙◌, ap, List, All, str_eq, eq_iff, [],
  ◌∷◌, ◌++◌, Bool-cases, inl, inr, ◌⊎◌, if◌then◌else◌, Bool,
}
use browserlogin_client.Recovery.{RecoveryState}
use browserlogin_client.Recovery.Validate.{validate}
use browserlogin_client.Coordinator.World.{
  Stored, current, Disk, Effect, Entry, Env, Options, World,
}
use browserlogin_client.Coordinator.Exec.{entry}
use browserlogin_client.Coordinator.Store.{path_for, put}
use browserlogin_client.Coordinator.Guard.{is_guarded, Rule, IsRule}

abbrev pub Allows : Type 1
Allows = Effect → Disk → Type 0

-- Every call so far was allowed.
abbrev pub IsGuarded : Allows → World → Type 0
IsGuarded allows w = All (λ (e : Entry). allows e.effect e.disk) w.trace

module _ (env : Env) (opts : Options) where
  -- A recovery file that holds a state holds a valid one, under its profile's name.
  abbrev pub WellFiled : Disk → Type 0
  WellFiled d =
      (path : String) (s : RecoveryState)
      → d path ≡ some (current s)
      → (validate s ≡ none) × (path ≡ path_for env opts s.profile_id)

  -- Both.
  pub record Consistent (allows : Allows) (w : World) : Type 0 where
    pub calls : IsGuarded allows w
    pub files : WellFiled w.disk

  abbrev pub ConsistentRule : Allows → Rule
  ConsistentRule allows = record { allows = allows; Holds = Consistent allows }

  put-WellFiled :
      (d : Disk) (path : String) (v : Option Stored)
      → ((s : RecoveryState)
          → v ≡ some (current s)
          → (validate s ≡ none) × (path ≡ path_for env opts s.profile_id))
      → WellFiled d
      → WellFiled (put d path v)
  put-WellFiled d path v valid h p s = by_name (Bool-cases (str_eq path p))
    where
      by_name :
          (str_eq path p ≡ true) ⊎ (str_eq path p ≡ false)
          → put d path v p ≡ some (current s)
          → (validate s ≡ none) × (p ≡ path_for env opts s.profile_id)
      by_name (inl same) e =
          let named : path ≡ p = (eq_iff path p).0 same in
          let found = valid s (ap (λ (b : Bool). if b then v else d p) (sym same) ∙ e) in
          (found.0, sym named ∙ found.1)
      by_name (inr other) e = h p s (ap (λ (b : Bool). if b then v else d p) (sym other) ∙ e)

  current-inj : {s t : RecoveryState} → some (current s) ≡ some (current t) → s ≡ t
  current-inj e = cc

  pub ConsistentRule-IsRule :
      (allows : Allows)
      → ((e : Effect) (d : Disk) → is_guarded e ≡ false → allows e d)
      → IsRule env opts (ConsistentRule allows)
  ConsistentRule-IsRule allows free = record {
    unguarded = free;
    after = λ e w a h. record { calls = (a, h.calls); files = h.files };
    framed = λ w v d t h. record { calls = rw t h.calls; files = rw d h.files };
    saved = λ s w valid h. record {
      calls = h.calls;
      files =
          put-WellFiled w.disk (path_for env opts s.profile_id) (some (current s))
            (λ t e. (
              subst (λ u. validate u ≡ none) (current-inj e) valid,
              ap (λ (u : RecoveryState). path_for env opts u.profile_id) (current-inj e),
            ))
            h.files;
    };
    removed = λ profile w h. record {
      calls = h.calls;
      files = put-WellFiled w.disk (path_for env opts profile) none (λ t e. cc) h.files;
    };
  }

-- The rule that asks nothing: what is left of a proof is what it says of the recovery file.
abbrev pub NoRule : Rule
NoRule = record { allows = λ e d. Unit; Holds = λ w. Unit }

pub NoRule-IsRule : (env : Env) (opts : Options) → IsRule env opts NoRule
NoRule-IsRule env opts = record {
  unguarded = λ e d q. tt;
  after = λ e w a h. tt;
  framed = λ w v d t h. tt;
  saved = λ s w v h. tt;
  removed = λ p w h. tt;
}

-- The calls made since a world's trace was the older one: each of them was allowed.
abbrev pub Since : Allows → List Entry → List Entry → Type 0
Since allows older newer =
    (calls : List Entry) × (newer ≡ calls ++ older)
    × All (λ (e : Entry). allows e.effect e.disk) calls

abbrev pub SinceRule : Allows → World → Rule
SinceRule allows w = record { allows = allows; Holds = λ v. Since allows w.trace v.trace }

pub Since-self : (allows : Allows) (t : List Entry) → Since allows t t
Since-self allows t = ([], refl, tt)

pub SinceRule-IsRule :
    (env : Env) (opts : Options) (allows : Allows) (w : World)
    → ((e : Effect) (d : Disk) → is_guarded e ≡ false → allows e d)
    → IsRule env opts (SinceRule allows w)
SinceRule-IsRule env opts allows w free = record {
  unguarded = free;
  after = λ e v a h. (entry v e ∷ h.0, ap (λ t. entry v e ∷ t) h.1, (a, h.2));
  framed = λ u v d t h. rw t h;
  saved = λ s v valid h. h;
  removed = λ p v h. h;
}

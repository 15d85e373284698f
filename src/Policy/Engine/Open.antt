-- ===== src/Policy/Engine/Open.antt =====
-- What `evaluate_open` decides, for every answer of the agent and whatever other tasks do while
-- the prompt is shown.
use mathlib.Core.Path.{subst}
use file_guard.Prelude.{
  ◌≡◌, refl, ◌⊎◌, inl, inr, Bool, true, false, Option, none, some, arith, ℕ_eq, Bytes_eq,
  Option_Bytes_eq, Bool_eq,
}
use file_guard.Files.FilePath.{FilePath}
use file_guard.Process.{ProcessInfo}
use file_guard.Prompt.{UserChoice, prompt}
use file_guard.Policy.Rule.{
  allow, deny, Access, read, write, any_access, Access_eq, Decision, is_allowed,
}
use file_guard.Policy.Entry.{RuleEntry_eq, Environment}
use file_guard.Policy.Repository.{RuleRepository}
use file_guard.Policy.Session.{process_id, is_session_allowed}
use file_guard.Policy.Manager.{lookup_rule}
use file_guard.Policy.Engine.{
  PolicyEngine, Resolution, settled, ask, prompt_access, settle, outcome, default_for,
  resolve_direction, resolve, apply_choice, Wait, prompt_and_apply, evaluate_open,
}

-- Whether an open asks for a direction.
abbrev pub needed : Bool → Bool → Access → Bool
needed needs_read needs_write read = needs_read
needed needs_read needs_write write = needs_write
needed needs_read needs_write any_access = false

module _ (env : Environment) (r : RuleRepository) (engine : PolicyEngine r) (process : ProcessInfo)
    (file : FilePath) where
  abbrev pub Denied : Access → Type 0
  Denied access = lookup_rule env engine.manager.rules process file access ≡ some deny

  -- A rule or a session grant allows the direction.
  abbrev pub Authorised : Access → Type 0
  Authorised access =
      (lookup_rule env engine.manager.rules process file access ≡ some allow)
      ⊎ ((lookup_rule env engine.manager.rules process file access ≡ none)
          × (is_session_allowed engine.session (process_id process) file access ≡ true))

  direction-Denied :
      (access : Access)
      → Denied access
      → resolve_direction env r engine process file true access ≡ none
  unfolding resolve_direction
  direction-Denied access h = rw (h, resolve_direction)

  direction-true :
      (access : Access)
      → resolve_direction env r engine process file true access ≡ some true
      → Authorised access
  unfolding resolve_direction
  direction-true access h = ground arith

  -- When `lookup_rule` denies a direction that the open needs, the open is denied: nobody is asked
  -- and nothing changes.
  pub evaluate_open-deny :
      (wait : Wait env r) (needs_read needs_write : Bool) (access : Access)
      → needed needs_read needs_write access ≡ true
      → Denied access
      → evaluate_open env r wait engine process file needs_read needs_write
        ≡ (Decision.deny_always, engine)
  unfolding evaluate_open
  evaluate_open-deny wait true nw read n h = ground (arith, direction-Denied read h)
  evaluate_open-deny wait false nw read n h = cc
  evaluate_open-deny wait nr false write n h = cc
  evaluate_open-deny wait nr true write n h = ground (arith, direction-Denied write h)
  evaluate_open-deny wait nr nw any_access n h = cc

  -- The choices of a user, or of the default, that let an open pass.
  abbrev pub Permits : UserChoice → Type 0
  Permits UserChoice.allow_once = Unit
  Permits UserChoice.allow_always = Unit
  Permits UserChoice.allow_session = Unit
  Permits UserChoice.deny_once = ⊥
  Permits UserChoice.deny_always = ⊥

  apply_choice-Permits :
      (e : PolicyEngine r) (choice : UserChoice)
      → is_allowed (apply_choice env r e process file choice).0 ≡ true
      → Permits choice
  unfolding apply_choice outcome is_allowed
  apply_choice-Permits e UserChoice.allow_once h = tt
  apply_choice-Permits e UserChoice.allow_always h = tt
  apply_choice-Permits e UserChoice.allow_session h = tt
  apply_choice-Permits e UserChoice.deny_once h = cc
  apply_choice-Permits e UserChoice.deny_always h = ground arith

  -- What one direction of an allowed open rests on.
  abbrev pub Basis : Wait env r → Bool → Bool → Access → Type 0
  Basis wait nr nw access =
      Authorised access
      ⊎ (¬ Denied access
          × Permits (prompt (wait (prompt_access nr nw) engine).0 (default_for env r engine file)))

  direction-not-Denied :
      (access : Access) (b : Bool)
      → resolve_direction env r engine process file true access ≡ some b
      → ¬ Denied access
  unfolding resolve_direction
  direction-not-Denied access b h d = ground arith

  -- What `resolve` says of the two directions.
  Directions : Bool → Bool → Resolution → Type 0
  Directions nr nw (settled Decision.allow_always) =
      (resolve_direction env r engine process file nr read ≡ some true)
      × (resolve_direction env r engine process file nw write ≡ some true)
  Directions nr nw (settled Decision.deny_always) = Unit
  Directions nr nw (settled _) = ⊥
  Directions nr nw (ask access) =
      (access ≡ prompt_access nr nw)
      × ((b : Bool) × (resolve_direction env r engine process file nr read ≡ some b))
      × ((b : Bool) × (resolve_direction env r engine process file nw write ≡ some b))

  resolve-Directions : (nr nw : Bool) → Directions nr nw (resolve env r engine process file nr nw)
  unfolding resolve Directions
  resolve-Directions nr nw =
      go (resolve_direction env r engine process file nr read)
        (resolve_direction env r engine process file nw write) refl refl
    where
      go :
          (x y : Option Bool)
          → resolve_direction env r engine process file nr read ≡ x
          → resolve_direction env r engine process file nw write ≡ y
          → Directions nr nw (settle x y (prompt_access nr nw))
      go none y p q = tt
      go (some b) none p q = tt
      go (some true) (some true) p q = (p, q)
      go (some true) (some false) p q = (refl, (true, p), (false, q))
      go (some false) (some c) p q = (refl, (false, p), (c, q))

  direction-basis :
      (wait : Wait env r) (nr nw : Bool) (a : Access)
      → resolve_direction env r engine process file nr read ≡ some true
      → resolve_direction env r engine process file nw write ≡ some true
      → needed nr nw a ≡ true
      → Authorised a
  direction-basis wait true nw read p q n = direction-true read p
  direction-basis wait false nw read p q n = cc
  direction-basis wait nr true write p q n = direction-true write q
  direction-basis wait nr false write p q n = cc
  direction-basis wait nr nw any_access p q n = cc

  needed-not-Denied :
      (nr nw : Bool) (a : Access) (b c : Bool)
      → resolve_direction env r engine process file nr read ≡ some b
      → resolve_direction env r engine process file nw write ≡ some c
      → needed nr nw a ≡ true
      → ¬ Denied a
  needed-not-Denied true nw read b c p q n = direction-not-Denied read b p
  needed-not-Denied false nw read b c p q n = cc
  needed-not-Denied nr true write b c p q n = direction-not-Denied write c q
  needed-not-Denied nr false write b c p q n = cc
  needed-not-Denied nr nw any_access b c p q n = cc

  prompted : Wait env r → Access → UserChoice
  prompted wait asked = prompt (wait asked engine).0 (default_for env r engine file)

  prompt-Permits :
      (wait : Wait env r) (asked : Access)
      → is_allowed (prompt_and_apply env r wait engine process file asked).0 ≡ true
      → Permits (prompted wait asked)
  unfolding prompt_and_apply prompted
  prompt-Permits wait asked h = apply_choice-Permits (wait asked engine).1 (prompted wait asked) h

  settled-basis :
      (wait : Wait env r) (nr nw : Bool) (d : Decision) (a : Access)
      → Directions nr nw (settled d)
      → is_allowed d ≡ true
      → needed nr nw a ≡ true
      → Authorised a
  unfolding Directions is_allowed
  settled-basis wait nr nw Decision.allow_always a (p, q) h n = direction-basis wait nr nw a p q n
  settled-basis wait nr nw Decision.deny_always a d h n = cc
  settled-basis wait nr nw Decision.allow_session a d h n = absurd d
  settled-basis wait nr nw Decision.allow_once a d h n = absurd d
  settled-basis wait nr nw Decision.deny_once a d h n = absurd d

  asked-basis :
      (wait : Wait env r) (nr nw : Bool) (asked a : Access)
      → Directions nr nw (ask asked)
      → is_allowed (prompt_and_apply env r wait engine process file asked).0 ≡ true
      → needed nr nw a ≡ true
      → ¬ Denied a × Permits (prompted wait (prompt_access nr nw))
  unfolding Directions
  asked-basis wait nr nw asked a (same, (b, p), (c, q)) h n =
      (needed-not-Denied nr nw a b c p q n, rw (← same) (prompt-Permits wait asked h))

  Authorised-direction :
      (n : Bool) (a : Access)
      → (n ≡ true → Authorised a)
      → resolve_direction env r engine process file n a ≡ some true
  unfolding resolve_direction
  Authorised-direction true a h = ground (arith, h refl)
  Authorised-direction false a h = refl

  pub Resolution-cases :
      (x : Resolution) → ((d : Decision) × (x ≡ settled d)) ⊎ ((a : Access) × (x ≡ ask a))
  Resolution-cases (settled d) = inl (d, refl)
  Resolution-cases (ask a) = inr (a, refl)

  -- An open that is allowed is allowed in each needed direction by a rule or a session grant, or
  -- no rule denies that direction and the one prompt was answered, by the user or by default,
  -- with an allow.
  pub evaluate_open-allowed :
      (wait : Wait env r) (needs_read needs_write : Bool) (access : Access)
      → is_allowed (evaluate_open env r wait engine process file needs_read needs_write).0 ≡ true
      → needed needs_read needs_write access ≡ true
      → Basis wait needs_read needs_write access
  unfolding evaluate_open prompted
  evaluate_open-allowed wait nr nw a h n =
      elim (Resolution-cases (resolve env r engine process file nr nw)) [
        | inl (d, e) ↦ inl (
            settled-basis wait nr nw d a (subst (Directions nr nw) e (resolve-Directions nr nw))
              (rw (e, evaluate_open) at h) n)
        | inr (asked, e) ↦ inr (
            asked-basis wait nr nw asked a (subst (Directions nr nw) e (resolve-Directions nr nw))
              (rw (e, evaluate_open) at h) n)
      ]

  -- An open whose every needed direction is authorised passes with no prompt and no change.
  pub evaluate_open-Authorised :
      (wait : Wait env r) (needs_read needs_write : Bool)
      → (needs_read ≡ true → Authorised read)
      → (needs_write ≡ true → Authorised write)
      → evaluate_open env r wait engine process file needs_read needs_write
        ≡ (Decision.allow_always, engine)
  unfolding evaluate_open
  evaluate_open-Authorised wait nr nw hr hw =
      ground (arith, Authorised-direction nr read hr, Authorised-direction nw write hw)

-- ===== src/Policy/Engine/Grant.antt =====
-- What a session grant does for the opens that follow it.
use file_guard.Prelude.{
  ◌≡◌, refl, ap, ◌∙◌, ◌≢◌, inl, inr, Bool, true, false, Option, none, some, arith, Result-cases,
  ℕ_eq, Bytes_eq, Option_Bytes_eq, Bool_eq,
}
use file_guard.Files.FilePath.{FilePath}
use file_guard.Process.{ProcessInfo}
use file_guard.Prompt.{UserChoice, prompt}
use file_guard.Policy.Rule.{
  Action, allow, deny, Access, read, write, any_access, Access_eq, Decision,
}
use file_guard.Policy.Entry.{RuleEntry_eq, Environment}
use file_guard.Policy.Repository.{RuleRepository}
use file_guard.Policy.Session.{
  ProcessId, process_id, SessionState, grant_session, is_session_allowed,
}
use file_guard.Policy.Session.Grants.{SameProcess, is_session_allowed-grant_session}
use file_guard.Policy.Manager.{RuleManager}
use file_guard.Policy.Engine.{
  persisted_rule, persist_rule, PolicyEngine, Resolution, settled, prompt_access, settle, outcome,
  default_for, resolve_direction, resolve, apply_choice, Wait, prompt_and_apply, evaluate_open,
}
use file_guard.Policy.Engine.Open.{Denied, Authorised, Resolution-cases, evaluate_open-Authorised}

SameProcess-refl : (p : ProcessId) → SameProcess p p
SameProcess-refl p = record {
  pid = refl;
  start_time = refl;
  binary_path = refl;
  binary_sha256 = refl;
  script = refl;
}

module _ (r : RuleRepository) where
  -- The engines that can follow one: the rules were changed, or an open of any file by any process
  -- ended with an answer of the user, which is applied to the engine as it is then. An open that is
  -- settled without a prompt does not change the engine.
  pub data Later : PolicyEngine r → PolicyEngine r → Type 0 where
    now : (engine : PolicyEngine r) → Later engine engine
    rules_changed :
        (engine later : PolicyEngine r) (manager : RuleManager r)
        → Later engine later
        → Later engine (record later { manager = manager })
    answered :
        (engine later : PolicyEngine r) (env : Environment) (process : ProcessInfo)
        (file : FilePath) (choice : UserChoice)
        → Later engine later
        → Later engine (apply_choice env r later process file choice).1

  persist_rule-session :
      (env : Environment) (engine : PolicyEngine r) (process : ProcessInfo) (file : FilePath)
      (access : Access) (action : Action)
      → (persist_rule env r engine process file access action).1.session ≡ engine.session
  unfolding persist_rule
  persist_rule-session env engine process file access action =
      elim (Result-cases (persisted_rule env process file access action)) [
        | inl (rule, made) ↦ rw (made, persist_rule) refl
        | inr (e, failed) ↦ rw (failed, persist_rule) refl
      ]

  -- A session grant that an engine holds is held by every later one.
  Later-allowed :
      (engine later : PolicyEngine r) (proc : ProcessId) (file : FilePath) (a : Access)
      → Later engine later
      → is_session_allowed engine.session proc file a ≡ true
      → is_session_allowed later.session proc file a ≡ true
  unfolding apply_choice
  Later-allowed _ _ proc file a (now engine) h = h
  Later-allowed _ _ proc file a (rules_changed engine later manager before) h =
      Later-allowed engine later proc file a before h
  Later-allowed _ _ proc file a (answered engine later env p f UserChoice.allow_once before) h =
      Later-allowed engine later proc file a before h
  Later-allowed _ _ proc file a (answered engine later env p f UserChoice.deny_once before) h =
      Later-allowed engine later proc file a before h
  Later-allowed _ _ proc file a (answered engine later env p f UserChoice.allow_session before) h =
      (is_session_allowed-grant_session later.session (process_id p) proc f file any_access a).1
        (inl (Later-allowed engine later proc file a before h))
  Later-allowed _ _ proc file a (answered engine later env p f UserChoice.allow_always before) h =
      ap (λ s. is_session_allowed s proc file a)
        (persist_rule-session env later p f any_access allow)
      ∙ Later-allowed engine later proc file a before h
  Later-allowed _ _ proc file a (answered engine later env p f UserChoice.deny_always before) h =
      ap (λ s. is_session_allowed s proc file a)
        (persist_rule-session env later p f any_access deny)
      ∙ Later-allowed engine later proc file a before h

module _ (env : Environment) (r : RuleRepository) (process : ProcessInfo) (file : FilePath) where
  -- The session holds a grant for both directions.
  HasGrant : PolicyEngine r → Type 0
  HasGrant engine =
      (a : Access) → is_session_allowed engine.session (process_id process) file a ≡ true

  granted :
      (s : SessionState) (a : Access)
      → is_session_allowed
          (grant_session s (process_id process) file any_access)
          (process_id process)
          file
          a
        ≡ true
  granted s a =
      (is_session_allowed-grant_session s (process_id process) (process_id process) file file
          any_access a).1
        (inr (SameProcess-refl (process_id process), refl, inr refl))

  apply_choice-HasGrant :
      (engine : PolicyEngine r) (choice : UserChoice)
      → (apply_choice env r engine process file choice).0 ≡ Decision.allow_session
      → HasGrant (apply_choice env r engine process file choice).1
  unfolding apply_choice outcome HasGrant
  apply_choice-HasGrant engine UserChoice.allow_session h = granted engine.session
  apply_choice-HasGrant engine UserChoice.allow_once h = cc
  apply_choice-HasGrant engine UserChoice.allow_always h = absurd (ground arith)
  apply_choice-HasGrant engine UserChoice.deny_once h = cc
  apply_choice-HasGrant engine UserChoice.deny_always h = absurd (ground arith)

  Authorised-by_grant :
      (engine : PolicyEngine r) (a : Access)
      → HasGrant engine
      → ¬ Denied env r engine process file a
      → Authorised env r engine process file a
  unfolding HasGrant
  Authorised-by_grant engine a grant free = ground (arith, grant a)

  settle-ne : (x y : Option Bool) (a : Access) → settle x y a ≢ settled Decision.allow_session
  unfolding settle
  settle-ne none y a h = cc
  settle-ne (some b) none a h = cc
  settle-ne (some true) (some true) a h = cc
  settle-ne (some true) (some false) a h = cc
  settle-ne (some false) (some c) a h = cc

  resolved :
      (nr nw : Bool) (engine : PolicyEngine r) {x : Resolution}
      → resolve env r engine process file nr nw ≡ x
      → settle
          (resolve_direction env r engine process file nr read)
          (resolve_direction env r engine process file nw write)
          (prompt_access nr nw)
        ≡ x
  unfolding resolve
  resolved nr nw engine e = e

  by_choice :
      (wait : Wait env r) (engine : PolicyEngine r) (asked : Access)
      → (prompt_and_apply env r wait engine process file asked).0 ≡ Decision.allow_session
      → HasGrant (prompt_and_apply env r wait engine process file asked).1
  unfolding prompt_and_apply
  by_choice wait engine asked h =
      apply_choice-HasGrant (wait asked engine).1
        (prompt (wait asked engine).0 (default_for env r engine file)) h

  evaluate_open-HasGrant :
      (wait : Wait env r) (engine : PolicyEngine r) (nr nw : Bool)
      → (evaluate_open env r wait engine process file nr nw).0 ≡ Decision.allow_session
      → HasGrant (evaluate_open env r wait engine process file nr nw).1
  unfolding evaluate_open
  evaluate_open-HasGrant wait engine nr nw h =
      elim (Resolution-cases env r engine process file (resolve env r engine process file nr nw)) [
        | inl (d, e) ↦
            let same : d ≡ Decision.allow_session = rw (e, evaluate_open) at h in
            absurd (
              settle-ne (resolve_direction env r engine process file nr read)
                (resolve_direction env r engine process file nw write) (prompt_access nr nw)
                (resolved nr nw engine e ∙ ap settled same))
        | inr (asked, e) ↦
            rw (e, evaluate_open) (by_choice wait engine asked (rw (e, evaluate_open) at h))
      ]

  -- Once an open was answered with "allow this session", every later open of the file by that
  -- process, in any direction, passes with no prompt and no change, as long as no rule denies it:
  -- whatever rules were changed and whatever answers to other opens were applied in between.
  pub session_grant_lasts :
      (wait wait' : Wait env r) (engine later : PolicyEngine r) (nr nw nr' nw' : Bool)
      → let opened = evaluate_open env r wait engine process file nr nw in
        opened.0 ≡ Decision.allow_session
        → Later r opened.1 later
        → (nr' ≡ true → ¬ Denied env r later process file read)
        → (nw' ≡ true → ¬ Denied env r later process file write)
        → evaluate_open env r wait' later process file nr' nw' ≡ (Decision.allow_always, later)
  unfolding HasGrant
  session_grant_lasts wait wait' engine later nr nw nr' nw' h steps free_read free_write =
      let opened = evaluate_open env r wait engine process file nr nw in
      let grant : HasGrant later = λ a.
        Later-allowed r opened.1 later (process_id process) file a steps
          (evaluate_open-HasGrant wait engine nr nw h a) in
      evaluate_open-Authorised env r later process file wait' nr' nw'
        (λ n. Authorised-by_grant later read grant (free_read n))
        (λ n. Authorised-by_grant later write grant (free_write n))

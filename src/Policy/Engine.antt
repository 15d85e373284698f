-- ===== src/Policy/Engine.antt =====
-- `PolicyEngine` of src/policy/engine.rs. A prompt takes long, and other tasks may change the
-- engine meanwhile: `wait` gives the agent's answer and the engine as it is then.
pub mod Open
pub mod Grant
pub mod Persist
pub mod Permanent
use file_guard.Files.Expand.{expand_path}
use file_guard.Prelude.{
  ◌-◌, String, Bool, true, false, not, ◌&&◌, Option, none, some, List, [], ◌∷◌, if◌then◌else◌, ℕ_eq,
  discrete_eq, Bytes, Bytes_eq, Option_Bytes_eq, Bool_eq, Result, ok, err, ◌>>=◌, ◌>>◌, ensure,
  ok_or,
}
use file_guard.Files.FilePath.{FilePath, ◌=path=◌, to_str}
use file_guard.Process.{ProcessInfo, is_interpreter}
use file_guard.Prompt.{DefaultAction, UserChoice, PromptOutcome, prompt}
use file_guard.Policy.Rule.{
  Action, allow, deny, Access, read, write, any_access, Access_eq, sha256, ScriptIdentity, Rule,
  Decision,
}
use file_guard.Policy.Session.{
  process_id, script_eq, process_id_eq, grant_key_eq, SessionState, grant_session,
  is_session_allowed,
}
use file_guard.Policy.Session
use file_guard.Policy.Manager
use file_guard.Policy.Entry.{RuleEntry, RuleEntry_eq, Environment, lexical, script_path}
use file_guard.Policy.Repository.{RuleRepository}
use file_guard.Policy.Manager.{lookup_rule, RuleManager, add_persistent_rule}

pub record WatchEntry : Type 0 where
  pub path : Bytes
  pub default_action : Option DefaultAction

abbrev pub FileDefaults : Type 0
FileDefaults = List (FilePath × DefaultAction)

pub record PolicyEngine (r : RuleRepository) : Type 0 where
  pub manager : RuleManager r
  pub session : SessionState
  pub global_default : DefaultAction
  pub file_defaults : FileDefaults

-- `HashMap::insert` and `HashMap::get`, with paths as keys.
unfoldable pub insert_default : FilePath → DefaultAction → FileDefaults → FileDefaults
insert_default file default [] = (file, default) ∷ []
insert_default file default ((known, old) ∷ rest) =
    if known =path= file
    then (known, default) ∷ rest
    else (known, old) ∷ insert_default file default rest

unfoldable pub get_default : FilePath → FileDefaults → Option DefaultAction
get_default file [] = none
get_default file ((known, default) ∷ rest) =
    if known =path= file then some default else get_default file rest

module _ (env : Environment) where
  -- The loop of `PolicyEngine::new` over the watched files.
  unfoldable pub collect_defaults : List WatchEntry → FileDefaults → Result String FileDefaults
  unfolding insert_default
  collect_defaults [] defaults = ok defaults
  collect_defaults (watch ∷ rest) defaults = elim watch.default_action [
    | none ↦ collect_defaults rest defaults
    | some default ↦ (do
      expanded ← expand_path env.target_home watch.path
      file ← lexical env expanded
      collect_defaults rest (insert_default file default defaults))
  ]

-- What the rules and the session grants say of an open: it is settled, or the user is asked.
pub data Resolution : Type 0 where
  settled : Decision → Resolution
  ask : Access → Resolution

unfoldable pub prompt_access : Bool → Bool → Access
prompt_access true true = any_access
prompt_access false true = write
prompt_access true false = read
prompt_access false false = read

unfoldable pub settle : Option Bool → Option Bool → Access → Resolution
settle none _ access = settled Decision.deny_always
settle (some _) none access = settled Decision.deny_always
settle (some r) (some w) access = if r && w then settled Decision.allow_always else ask access

unfoldable pub is_none : Option FilePath → Bool
is_none none = true
is_none (some _) = false

unfoldable pub outcome : Decision → Decision → Result String (Unit {0}) → Decision
outcome always once (ok _) = always
outcome always once (err _) = once

module _ (env : Environment) where
  unfoldable pub persisted_script : ProcessInfo → Result String (Option ScriptIdentity)
  persisted_script process = elim process.script [
    | none ↦ ok none
    | some path ↦ (do
      script_path ← ok_or (to_str path) "rule script path must be valid UTF-8"
      hash ← env.hash_file path
      ok (some (record { path = script_path; pin = sha256 hash })))
  ]

  -- The rule that `persist_rule` adds.
  unfoldable pub persisted_rule : ProcessInfo → FilePath → Access → Action → Result String Rule
  unfolding is_none
  persisted_rule process file access action = do
    ensure (not (is_interpreter process.binary_name && is_none process.script))
        "cannot create a permanent interpreter rule without a resolved script"
    script ← persisted_script process
    ok (record {
      file = file;
      binary = process.binary_path;
      action = action;
      access = access;
      identity = sha256 process.binary_sha256;
      script = script;
    })

module _ (env : Environment) (r : RuleRepository) where
  -- `PolicyEngine::new`
  unfoldable pub new_engine :
      List WatchEntry → List RuleEntry → DefaultAction → r.State → Result String (PolicyEngine r)
  unfolding collect_defaults
  new_engine watches configured default store = do
    defaults ← collect_defaults env watches []
    manager ← Manager.new env r configured store
    ok (record {
      manager = manager;
      session = Session.new;
      global_default = default;
      file_defaults = defaults;
    })

  unfoldable pub default_for : PolicyEngine r → FilePath → DefaultAction
  unfolding get_default
  default_for engine file = elim (get_default file engine.file_defaults) [
    | none ↦ engine.global_default
    | some default ↦ default
  ]

  -- One round of the loop: `none` is a deny, else whether the direction is authorised already.
  unfoldable pub resolve_direction :
      PolicyEngine r → ProcessInfo → FilePath → Bool → Access → Option Bool
  resolve_direction engine process file false access = some true
  resolve_direction engine process file true access =
      elim (lookup_rule env engine.manager.rules process file access) [
        | some deny ↦ none
        | some allow ↦ some true
        | none ↦ some (is_session_allowed engine.session (process_id process) file access)
      ]

  -- `evaluate_open` up to the prompt.
  unfoldable pub resolve : PolicyEngine r → ProcessInfo → FilePath → Bool → Bool → Resolution
  unfolding settle
  resolve engine process file needs_read needs_write =
      settle (resolve_direction engine process file needs_read read)
        (resolve_direction engine process file needs_write write)
        (prompt_access needs_read needs_write)

  unfoldable pub persist_rule :
      PolicyEngine r
      → ProcessInfo
      → FilePath
      → Access
      → Action
      → Result String (Unit {0}) × PolicyEngine r
  persist_rule engine process file access action =
      elim (persisted_rule env process file access action) [
        | err e ↦ (err e, engine)
        | ok rule ↦
            let (result, manager) = add_persistent_rule env r engine.manager rule in
            (result, record engine { manager = manager })
      ]

  -- The `match` of `prompt_and_apply`.
  unfoldable pub apply_choice :
      PolicyEngine r → ProcessInfo → FilePath → UserChoice → Decision × PolicyEngine r
  unfolding persist_rule outcome
  apply_choice engine process file UserChoice.allow_once = (Decision.allow_once, engine)
  apply_choice engine process file UserChoice.allow_always =
      let (result, engine') = persist_rule engine process file any_access allow in
      (outcome Decision.allow_always Decision.allow_once result, engine')
  apply_choice engine process file UserChoice.allow_session = (
    Decision.allow_session,
    record engine { session = grant_session engine.session (process_id process) file any_access },
  )
  apply_choice engine process file UserChoice.deny_once = (Decision.deny_once, engine)
  apply_choice engine process file UserChoice.deny_always =
      let (result, engine') = persist_rule engine process file any_access deny in
      (outcome Decision.deny_always Decision.deny_once result, engine')

  -- The agent's answer to a prompt, and the engine when it arrives.
  abbrev pub Wait : Type 0
  Wait = Access → PolicyEngine r → Result String PromptOutcome × PolicyEngine r

  unfoldable pub prompt_and_apply :
      Wait → PolicyEngine r → ProcessInfo → FilePath → Access → Decision × PolicyEngine r
  unfolding apply_choice default_for
  prompt_and_apply wait engine process file access =
      let (reply, engine') = wait access engine in
      apply_choice engine' process file (prompt reply (default_for engine file))

  unfoldable pub evaluate_open :
      Wait → PolicyEngine r → ProcessInfo → FilePath → Bool → Bool → Decision × PolicyEngine r
  unfolding resolve prompt_and_apply
  evaluate_open wait engine process file needs_read needs_write =
      elim (resolve engine process file needs_read needs_write) [
        | settled decision ↦ (decision, engine)
        | ask access ↦ prompt_and_apply wait engine process file access
      ]

-- ===== src/Policy/Engine/Permanent.antt =====
-- A permanent answer takes effect: the rule that it leaves behind matches the process that was
-- asked for, for every direction.
use mathlib.Core.List.{Memᴰ}
use file_guard.Prelude.{
  String, ◌≡◌, refl, sym, ap, ◌∙◌, inl, inr, Bool, true, Option, none, some, map, arith,
  Option-cases, ℕ_eq, ==_refl, Bytes, Bytes_eq, Option_Bytes_eq, Bool_eq, ok, ◌>>=◌, Result-cases,
  ok_inj,
}
use file_guard.Files.FilePath.{FilePath, =path=-refl, to_str}
use file_guard.Files.Utf8.{to_ascii_lowercase}
use file_guard.Files.Expand.{expand_path}
use file_guard.Process.{ProcessInfo}
use file_guard.Policy.Rule.{
  Action, allow, deny, Access, any_access, Access_eq, covers, IdentityPin, sha256, pin_sha256,
  ScriptIdentity, Rule, Decision,
}
use file_guard.Policy.Entry.{
  RuleEntry, RuleEntry_eq, Environment, normalize_hash, identity_pin, rule_action, path_of, lexical,
  compile_script, prepare_rule_entry,
}
use file_guard.Policy.Entry.Normal.{to_str-eq, expand_path-absolute, lexical-normal}
use file_guard.Policy.Entry.Fields.{prepare_rule_entry-PreparedFrom}
use file_guard.Policy.Repository.{RuleRepository, IsRepository}
use file_guard.Policy.Manager.{
  ActiveRule, script_pin_matches, script_matches, pin_matches, identity_matches, in_scope, verdict,
  lookup_rule, RuleManager, script_of, entry_action, entry_of_rule, add_managed_rule,
  add_persistent_rule,
}
use file_guard.Policy.Manager.Lookup.{lookup_rule-deny_iff, lookup_rule-allow_iff}
use file_guard.Prompt.{UserChoice}
use file_guard.Policy.Manager.Compiled.{AllCompiled}
use file_guard.Policy.Manager.Mirror.{Mirrors}
use file_guard.Policy.Engine.Persist.{added_is_active}
use file_guard.Policy.Engine.{
  PolicyEngine, outcome, persisted_script, persisted_rule, persist_rule, apply_choice,
}

-- What the rest of the daemon gives for a process and a watched file: normal paths, and hashes
-- in lower case as `hex::encode` writes them.
pub record IsNormalised (env : Environment) (process : ProcessInfo) (file : FilePath) : Type 0 where
  pub watched : lexical env file ≡ ok file
  pub hash : map to_ascii_lowercase process.binary_sha256 ≡ process.binary_sha256
  pub script : (path : FilePath) → process.script ≡ some path → lexical env path ≡ ok path
  pub script_hash :
      (path : FilePath) (h : Bytes)
      → process.script ≡ some path
      → env.hash_file path ≡ ok h
      → map to_ascii_lowercase h ≡ h

normalize_hash-lower :
    (h : Bytes) (field : String) (out : Option Bytes)
    → map to_ascii_lowercase h ≡ h
    → normalize_hash (some h) field ≡ ok out
    → out ≡ some h
unfolding normalize_hash
normalize_hash-lower h field out low e = ground arith

identity_pin-lower :
    (h : Bytes) (field : String) (pin : IdentityPin)
    → map to_ascii_lowercase h ≡ h
    → identity_pin (some h) field ≡ ok pin
    → pin ≡ sha256 h
unfolding identity_pin
identity_pin-lower h field pin low e = ground arith

-- The fields of the written entry.
record WrittenFrom (rule : Rule) (entry : RuleEntry) : Type 0 where
  file : to_str rule.file ≡ some entry.file
  binary : to_str rule.binary ≡ some entry.binary
  action : entry.action ≡ entry_action rule.action
  access : entry.access ≡ rule.access
  hash : entry.hash ≡ pin_sha256 rule.identity
  script : entry.script ≡ (script_of rule.script).0
  script_hash : entry.script_hash ≡ (script_of rule.script).1

entry_of_rule-WrittenFrom :
    (rule : Rule) (entry : RuleEntry) → entry_of_rule rule ≡ ok entry → WrittenFrom rule entry
unfolding entry_of_rule
entry_of_rule-WrittenFrom rule entry h = elim (Option-cases (to_str rule.file)) [
  | inl unreadable ↦ absurd (ground arith)
  | inr (file, f) ↦ elim (Option-cases (to_str rule.binary)) [
    | inl unreadable ↦ absurd (ground arith)
    | inr (binary, b) ↦ record {
      file = ground arith;
      binary = ground arith;
      action = ground arith;
      access = ground arith;
      hash = ground arith;
      script = ground arith;
      script_hash = ground arith;
    }
  ]
]

-- The fields of the rule that is persisted.
record PersistedFrom (env : Environment) (process : ProcessInfo) (f : FilePath) (a : Access)
    (act : Action) (rule : Rule) : Type 0 where
  file : rule.file ≡ f
  binary : rule.binary ≡ process.binary_path
  action : rule.action ≡ act
  access : rule.access ≡ a
  identity : rule.identity ≡ sha256 process.binary_sha256
  script : persisted_script env process ≡ ok rule.script

persisted_rule-PersistedFrom :
    (env : Environment) (process : ProcessInfo) (file : FilePath) (access : Access)
    (action : Action) (rule : Rule)
    → persisted_rule env process file access action ≡ ok rule
    → PersistedFrom env process file access action rule
unfolding persisted_rule
persisted_rule-PersistedFrom env process file access action rule h =
    elim (Result-cases (persisted_script env process)) [
      | inr (e, failed) ↦ absurd (ground arith)
      | inl (script, s) ↦ record {
        file = ground arith;
        binary = ground arith;
        action = ground arith;
        access = ground arith;
        identity = ground arith;
        script = ground arith;
      }
    ]

-- The compiled form of a written script matches the script that it was written for.
module _ (env : Environment) (process : ProcessInfo) (f : FilePath) where
  no_script :
      (script compiled : Option ScriptIdentity) (hash : Option Bytes)
      → process.script ≡ none
      → persisted_script env process ≡ ok script
      → normalize_hash (script_of script).1 "script_sha256" ≡ ok hash
      → compile_script env (script_of script).0 hash ≡ ok compiled
      → script_matches env compiled process ≡ true
  unfolding persisted_script normalize_hash compile_script script_matches script_of
  no_script script compiled hash e p h c = ground arith

  script_compiled :
      (path : FilePath) (text found : Bytes) (compiled : Option ScriptIdentity)
      (hash : Option Bytes)
      → to_str path ≡ some text
      → lexical env path ≡ ok path
      → map to_ascii_lowercase found ≡ found
      → normalize_hash (some found) "script_sha256" ≡ ok hash
      → compile_script env (some text) hash ≡ ok compiled
      → compiled ≡ some (record { path = text; pin = sha256 found })
  unfolding compile_script
  script_compiled path text found compiled hash readable l low h c =
      let kept : hash ≡ some found = normalize_hash-lower found "script_sha256" hash low h in
      elim (Result-cases (identity_pin hash "script_sha256")) [
        | inr (x, failed) ↦ absurd (ground (arith, to_str-eq path text readable))
        | inl (pin, pinned) ↦
            let same : pin ≡ sha256 found =
              identity_pin-lower found "script_sha256" pin low (rw kept at pinned) in
            ground (arith, to_str-eq path text readable)
      ]

  compiled_matches :
      (path : FilePath) (text found : Bytes)
      → process.script ≡ some path
      → to_str path ≡ some text
      → env.hash_file path ≡ ok found
      → script_matches env (some (record { path = text; pin = sha256 found })) process ≡ true
  unfolding script_matches script_pin_matches
  compiled_matches path text found e readable hashed =
      rw (e, readable) (ground (arith, ==_refl (some text), ==_refl found))

  written_script :
      (path : FilePath) (text found : Bytes) (script : Option ScriptIdentity)
      → process.script ≡ some path
      → to_str path ≡ some text
      → env.hash_file path ≡ ok found
      → persisted_script env process ≡ ok script
      → script ≡ some (record { path = text; pin = sha256 found })
  unfolding persisted_script
  written_script path text found script e readable hashed p = ground arith

  some_script :
      (path : FilePath) (script compiled : Option ScriptIdentity) (hash : Option Bytes)
      → IsNormalised env process f
      → process.script ≡ some path
      → persisted_script env process ≡ ok script
      → normalize_hash (script_of script).1 "script_sha256" ≡ ok hash
      → compile_script env (script_of script).0 hash ≡ ok compiled
      → script_matches env compiled process ≡ true
  unfolding persisted_script script_of pin_sha256
  some_script path script compiled hash n e p h c = elim (Option-cases (to_str path)) [
    | inl unreadable ↦ absurd (ground arith)
    | inr (text, readable) ↦ elim (Result-cases (env.hash_file path)) [
      | inr (x, failed) ↦ absurd (ground arith)
      | inl (found, hashed) ↦
          let written : script ≡ some (record { path = text; pin = sha256 found }) =
            written_script path text found script e readable hashed p in
          let made : compiled ≡ some (record { path = text; pin = sha256 found }) =
            script_compiled path text found compiled hash readable (n.script path e)
              (n.script_hash path found e hashed) (rw written at h) (rw written at c) in
          rw made (compiled_matches path text found e readable hashed)
    ]
  ]

  script_round_trip :
      (script compiled : Option ScriptIdentity) (hash : Option Bytes)
      → IsNormalised env process f
      → persisted_script env process ≡ ok script
      → normalize_hash (script_of script).1 "script_sha256" ≡ ok hash
      → compile_script env (script_of script).0 hash ≡ ok compiled
      → script_matches env compiled process ≡ true
  script_round_trip script compiled hash n p h c = elim (Option-cases process.script) [
    | inl e ↦ no_script script compiled hash e p h c
    | inr (path, e) ↦ some_script path script compiled hash n e p h c
  ]

module _ (env : Environment) (process : ProcessInfo) (f : FilePath) (action : Action) where
  compiled_file :
      (expanded file : FilePath) (text : Bytes)
      → lexical env f ≡ ok f
      → to_str f ≡ some text
      → expand_path env.target_home text ≡ ok expanded
      → lexical env expanded ≡ ok file
      → file ≡ f
  unfolding path_of
  compiled_file expanded file text normal_f readable x l =
      let (_, (names, listed), _) = lexical-normal env f f normal_f in
      let same : text ≡ f.bytes = ap (λ (p : FilePath). p.bytes) (to_str-eq f text readable) in
      let whole : expanded ≡ f =
        ground (arith, expand_path-absolute env.target_home f names listed) in
      ok_inj (sym (rw whole at l) ∙ normal_f)

  action_round_trip : (x : Action) → rule_action (entry_action x) ≡ x
  unfolding rule_action entry_action
  action_round_trip allow = refl
  action_round_trip deny = refl

  all_tests_pass :
      (rule : Rule) (req : Access)
      → rule.file ≡ f
      → rule.binary ≡ process.binary_path
      → rule.access ≡ any_access
      → rule.identity ≡ sha256 process.binary_sha256
      → script_matches env rule.script process ≡ true
      → rule.action ≡ action
      → verdict env rule process f req ≡ some action
  unfolding verdict in_scope identity_matches covers pin_matches
  all_tests_pass rule req file binary access identity script act = ground (
    arith,
    =path=-refl f,
    =path=-refl process.binary_path,
    ==_refl any_access,
    ==_refl process.binary_sha256,
  )

  -- The rule that a permanent answer writes down matches its own process.
  verdict_of_persisted :
      (rule : Rule) (entry : RuleEntry) (p : RuleEntry × Rule) (req : Access)
      → IsNormalised env process f
      → persisted_rule env process f any_access action ≡ ok rule
      → entry_of_rule rule ≡ ok entry
      → prepare_rule_entry env entry ≡ ok p
      → verdict env p.1 process f req ≡ some action
  unfolding pin_sha256
  verdict_of_persisted rule entry p req n made written prepared =
      let a = persisted_rule-PersistedFrom env process f any_access action rule made in
      let w = entry_of_rule-WrittenFrom rule entry written in
      let q = prepare_rule_entry-PreparedFrom env entry p.0 p.1 prepared in
      let c = q.compiled in
      let file : p.1.file ≡ f =
        compiled_file c.expanded p.1.file entry.file n.watched (rw a.file at w.file) c.expand
          c.file in
      let binary : p.1.binary ≡ process.binary_path =
        c.binary ∙ to_str-eq rule.binary entry.binary w.binary ∙ a.binary in
      let script : script_matches env p.1.script process ≡ true =
        script_round_trip env process f rule.script p.1.script q.script_hash n a.script
          (rw w.script_hash at q.normal_script_hash) (rw w.script at c.script) in
      let kept : q.hash ≡ some process.binary_sha256 =
        normalize_hash-lower process.binary_sha256 "sha256" q.hash n.hash
          (rw (w.hash ∙ ap pin_sha256 a.identity) at q.normal_hash) in
      let identity : p.1.identity ≡ sha256 process.binary_sha256 =
        identity_pin-lower process.binary_sha256 "sha256" p.1.identity n.hash
          (rw kept at c.identity) in
      let access : p.1.access ≡ any_access = c.access ∙ w.access ∙ a.access in
      let act : p.1.action ≡ action =
        c.action ∙ ap rule_action w.action ∙ action_round_trip rule.action ∙ a.action in
      all_tests_pass p.1 req file binary access identity script act

module _ (env : Environment) (r : RuleRepository) (laws : IsRepository r) (process : ProcessInfo)
    (f : FilePath) where
  -- A manager whose memory mirrors the repository and whose rules are compiled from their entries.
  abbrev pub IsSound : RuleManager r → Type 0
  IsSound m = Mirrors env r laws m × AllCompiled env r m

  add_succeeded :
      (m : RuleManager r) (entry : RuleEntry)
      → ((add_managed_rule env r m entry).0 >>= (λ _. ok (tt {0}))) ≡ ok (tt {0})
      → (b : Bool) × ((add_managed_rule env r m entry).0 ≡ ok b)
  add_succeeded m entry h = elim (Result-cases (add_managed_rule env r m entry).0) [
    | inl found ↦ found
    | inr (e, failed) ↦ absurd (ground arith)
  ]

  prepare_succeeded :
      (m : RuleManager r) (entry : RuleEntry) (b : Bool)
      → (add_managed_rule env r m entry).0 ≡ ok b
      → (p : RuleEntry × Rule) × (prepare_rule_entry env entry ≡ ok p)
  unfolding add_managed_rule
  prepare_succeeded m entry b h = elim (Result-cases (prepare_rule_entry env entry)) [
    | inl found ↦ found
    | inr (e, failed) ↦ absurd (ground arith)
  ]

  persist_rule-verdict :
      (engine : PolicyEngine r) (action : Action) (req : Access)
      → IsSound engine.manager
      → IsNormalised env process f
      → (persist_rule env r engine process f any_access action).0 ≡ ok tt
      → (rule : ActiveRule) × Memᴰ rule
          (persist_rule env r engine process f any_access action).1.manager.rules
        × (verdict env rule.compiled process f req ≡ some action)
  unfolding persist_rule add_persistent_rule
  persist_rule-verdict engine action req sound n h =
      elim (Result-cases (persisted_rule env process f any_access action)) [
        | inr (e, failed) ↦ absurd (ground arith)
        | inl (rule, made) ↦ elim (Result-cases (entry_of_rule rule)) [
          | inr (e, failed) ↦ absurd (ground arith)
          | inl (entry, written) ↦
              let (b, added) =
                add_succeeded engine.manager entry
                  (rw (made, persist_rule, written, add_persistent_rule) at h) in
              let (p, prepared) = prepare_succeeded engine.manager entry b added in
              let (active, member, same) =
                added_is_active env r laws engine.manager entry p b sound.0 sound.1 prepared
                  added in
              rw (made, persist_rule, written, add_persistent_rule)
                (
                  active,
                  member,
                  rw same (
                      verdict_of_persisted env process f action rule entry p req n made written
                        prepared),
                )
        ]
      ]

  -- When the answer "deny always" is recorded (the decision says so), by a manager that mirrors
  -- its repository and has compiled its rules, for a file and a process in normal form,
  -- `lookup_rule` then denies the file to that process in every direction.
  pub deny_always_lasts :
      (engine : PolicyEngine r) (req : Access)
      → IsSound engine.manager
      → IsNormalised env process f
      → let answered = apply_choice env r engine process f UserChoice.deny_always in
        answered.0 ≡ Decision.deny_always
        → lookup_rule env answered.1.manager.rules process f req ≡ some deny
  unfolding apply_choice outcome
  deny_always_lasts engine req sound n h =
      (lookup_rule-deny_iff env process f req
          (persist_rule env r engine process f any_access deny).1.manager.rules).1
        (persist_rule-verdict engine deny req sound n (ground arith))

  -- When the answer "allow always" is recorded (the decision says so), by a manager that mirrors
  -- its repository and has compiled its rules, for a file and a process in normal form,
  -- `lookup_rule` then allows the file to that process in every direction that no matching rule
  -- denies.
  pub allow_always_lasts :
      (engine : PolicyEngine r) (req : Access)
      → IsSound engine.manager
      → IsNormalised env process f
      → let answered = apply_choice env r engine process f UserChoice.allow_always in
        answered.0 ≡ Decision.allow_always
        → ¬ (lookup_rule env answered.1.manager.rules process f req ≡ some deny)
        → lookup_rule env answered.1.manager.rules process f req ≡ some allow
  unfolding apply_choice outcome
  allow_always_lasts engine req sound n h free =
      let rules = (persist_rule env r engine process f any_access allow).1.manager.rules in
      (lookup_rule-allow_iff env process f req rules).1 (
        persist_rule-verdict engine allow req sound n (ground arith),
        λ found. free ((lookup_rule-deny_iff env process f req rules).1 found),
      )

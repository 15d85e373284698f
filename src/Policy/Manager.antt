-- ===== src/Policy/Manager.antt =====
-- `RuleManager` of src/policy/engine.rs: the active rules, matched against a process and edited
-- together with the repository of learned rules. The lock makes each call one step. Warnings
-- that are only logged are left out.
pub mod Lookup
pub mod Rows
pub mod Mirror
pub mod Compiled
use file_guard.Prelude.{
  ℕ, ◌+◌, ◌-◌, String, Bool, true, false, not, ◌&&◌, Option, none, some, List, [], ◌∷◌, ◌++◌, map,
  if◌then◌else◌, ◌==◌, ℕ_eq, discrete_eq, Bytes, Bytes_eq, Option_Bytes_eq, Bool_eq, length, any,
  Result, ok, err, ◌>>=◌, ◌>>◌, ok_or, collect,
}
use file_guard.Files.FilePath.{FilePath, ◌=path=◌, to_str}
use file_guard.Process.{ProcessInfo}
use file_guard.Policy.Rule.{
  Action, allow, deny, Access, Access_eq, covers, IdentityPin, sha256, unpinned, pin_sha256,
  ScriptIdentity, Rule,
}
use file_guard.Policy.Entry.{
  RuleAction, allow_rule, deny_rule, RuleEntry, RuleEntry_eq, RulePinUpdate, Environment,
  apply_rule_edit, prepare_rule_entry,
}
use file_guard.Policy.Repository.{StoredRule, RuleRepository}

pub record ActiveRule : Type 0 where
  pub entry : RuleEntry
  pub compiled : Rule
  pub learned_id : Option ℕ

pub record ManagedRule : Type 0 where
  pub entry : RuleEntry
  pub learned_id : Option ℕ

unfoldable pub has_id : ℕ → ActiveRule → Bool
has_id id rule = elim rule.learned_id [ none ↦ false | some other ↦ other == id ]

-- `rules.iter().any(|active| active.entry == entry)`
unfoldable pub has_entry : RuleEntry → List ActiveRule → Bool
has_entry entry rules = any (λ active. active.entry == entry) rules

-- The rule at `position(|rule| rule.learned_id == Some(id))`.
unfoldable pub find_learned : ℕ → List ActiveRule → Option ActiveRule
unfolding has_id
find_learned id [] = none
find_learned id (rule ∷ rules) = if has_id id rule then some rule else find_learned id rules

unfoldable pub replace_learned : ℕ → RuleEntry → Rule → List ActiveRule → List ActiveRule
unfolding has_id
replace_learned id entry compiled [] = []
replace_learned id entry compiled (rule ∷ rules) =
    if has_id id rule
    then record rule { entry = entry; compiled = compiled } ∷ rules
    else rule ∷ replace_learned id entry compiled rules

unfoldable pub remove_learned : ℕ → List ActiveRule → List ActiveRule
unfolding has_id
remove_learned id [] = []
remove_learned id (rule ∷ rules) = if has_id id rule then rules else rule ∷ remove_learned id rules

module _ (env : Environment) where
  -- The script's half of `identity_matches`.
  unfoldable pub script_pin_matches : IdentityPin → Option FilePath → Bool
  script_pin_matches unpinned script = true
  script_pin_matches (sha256 expected) none = false
  script_pin_matches (sha256 expected) (some script) = elim (env.hash_file script) [
    | ok actual ↦ actual == expected
    | err _ ↦ false
  ]

  unfoldable pub script_text : Option FilePath → Option Bytes
  script_text none = none
  script_text (some script) = to_str script

  unfoldable pub script_matches : Option ScriptIdentity → ProcessInfo → Bool
  unfolding script_pin_matches script_text
  script_matches none process = true
  script_matches (some expected) process =
      script_text process.script == some expected.path
      && script_pin_matches expected.pin process.script

  unfoldable pub pin_matches : IdentityPin → ProcessInfo → Bool
  pin_matches unpinned process = true
  pin_matches (sha256 expected) process = process.binary_sha256 == expected

  unfoldable pub identity_matches : Rule → ProcessInfo → Bool
  unfolding script_matches pin_matches
  identity_matches rule process =
      pin_matches rule.identity process && script_matches rule.script process

  -- The filter of the loop.
  unfoldable pub in_scope : Rule → ProcessInfo → FilePath → Access → Bool
  in_scope rule process file req =
      (rule.file =path= file) && (rule.binary =path= process.binary_path) && covers rule.access req

  unfoldable pub verdict : Rule → ProcessInfo → FilePath → Access → Option Action
  verdict rule process file req =
      if in_scope rule process file req && identity_matches rule process
      then some rule.action
      else none

  unfoldable pub lookup_loop :
      Bool → List ActiveRule → ProcessInfo → FilePath → Access → Option Action
  lookup_loop matched_allow [] process file req = if matched_allow then some allow else none
  lookup_loop matched_allow (rule ∷ rules) process file req =
      elim (verdict rule.compiled process file req) [
        | none ↦ lookup_loop matched_allow rules process file req
        | some deny ↦ some deny
        | some allow ↦ lookup_loop true rules process file req
      ]

  unfoldable pub lookup_rule : List ActiveRule → ProcessInfo → FilePath → Access → Option Action
  unfolding lookup_loop verdict
  lookup_rule rules = lookup_loop false rules

  unfoldable pub activate : Option ℕ → RuleEntry → Result String ActiveRule
  activate id entry = do
    prepared ← prepare_rule_entry env entry
    ok (record { entry = prepared.0; compiled = prepared.1; learned_id = id })

pub record RuleManager (r : RuleRepository) : Type 0 where
  pub rules : List ActiveRule
  pub store : r.State

abbrev pub active_rule : RuleEntry × Rule → ℕ → ActiveRule
active_rule (entry, compiled) id = record {
  entry = entry;
  compiled = compiled;
  learned_id = some id;
}

-- `prepared.iter().find(|(entry, _)| entry == &stored.entry)`, its compiled rule.
unfoldable pub find_compiled : RuleEntry → List (RuleEntry × Rule) → Option Rule
find_compiled entry [] = none
find_compiled entry ((known, compiled) ∷ prepared) =
    if known == entry then some compiled else find_compiled entry prepared

-- The entries that no active rule has.
unfoldable pub new_entries : List (RuleEntry × Rule) → List ActiveRule → List RuleEntry
unfolding has_entry
new_entries [] rules = []
new_entries ((entry, compiled) ∷ prepared) rules =
    let rest = new_entries prepared rules in if has_entry entry rules then rest else entry ∷ rest

-- The loop over the inserted rows; what was pushed before an error stays.
unfoldable pub push_inserted :
    List (RuleEntry × Rule)
    → List StoredRule
    → List ActiveRule
    → Result String (Unit {0}) × List ActiveRule
unfolding find_compiled
push_inserted prepared [] rules = (ok tt, rules)
push_inserted prepared (stored ∷ inserted) rules = elim (find_compiled stored.entry prepared) [
  | none ↦ (err "rule repository returned an unknown rule", rules)
  | some compiled ↦
      push_inserted prepared inserted
        (rules ++ (active_rule (stored.entry, compiled) stored.id ∷ []))
]

unfoldable pub script_of : Option ScriptIdentity → Option Bytes × Option Bytes
script_of none = (none, none)
script_of (some script) = (some script.path, pin_sha256 script.pin)

unfoldable pub entry_action : Action → RuleAction
entry_action allow = allow_rule
entry_action deny = deny_rule

-- The entry that `add_persistent_rule` writes down for a rule.
unfoldable pub entry_of_rule : Rule → Result String RuleEntry
unfolding script_of entry_action pin_sha256
entry_of_rule rule = do
  file ← ok_or (to_str rule.file) "rule file path must be valid UTF-8"
  binary ← ok_or (to_str rule.binary) "rule binary path must be valid UTF-8"
  let (script, script_hash) = script_of rule.script
  ok (record {
    file = file;
    binary = binary;
    action = entry_action rule.action;
    access = rule.access;
    hash = pin_sha256 rule.identity;
    script = script;
    script_hash = script_hash;
  })

module _ (env : Environment) (r : RuleRepository) where
  -- `RuleManager::new`
  unfoldable pub new : List RuleEntry → r.State → Result String (RuleManager r)
  unfolding activate
  new configured store = do
    rules ← collect (activate env none) configured
    stored ← r.list store
    learned ← collect (λ row. activate env (some row.id) row.entry) stored
    ok (record { rules = rules ++ learned; store = store })

  unfoldable pub finish_add :
      RuleManager r
      → RuleEntry × Rule
      → Result String (Option StoredRule) × r.State
      → Result String Bool × RuleManager r
  finish_add m prepared (err e, store) = (err e, record m { store = store })
  finish_add m prepared (ok none, store) = (ok false, record m { store = store })
  finish_add m prepared (ok (some stored), store) =
      (ok true, record { rules = m.rules ++ (active_rule prepared stored.id ∷ []); store = store })

  unfoldable pub add_prepared :
      RuleManager r → RuleEntry × Rule → Result String Bool × RuleManager r
  unfolding finish_add has_entry
  add_prepared m prepared =
      if has_entry prepared.0 m.rules
      then (ok false, m)
      else finish_add m prepared (r.insert m.store prepared.0)

  unfoldable pub add_managed_rule : RuleManager r → RuleEntry → Result String Bool × RuleManager r
  unfolding add_prepared
  add_managed_rule m entry = elim (prepare_rule_entry env entry) [
    | err e ↦ (err e, m)
    | ok prepared ↦ add_prepared m prepared
  ]

  pub finish_import :
      RuleManager r
      → List (RuleEntry × Rule)
      → Result String (List StoredRule) × r.State
      → Result String ℕ × RuleManager r
  unfolding push_inserted
  finish_import m prepared (err e, store) = (err e, record m { store = store })
  finish_import m prepared (ok inserted, store) =
      let (result, rules) = push_inserted prepared inserted m.rules in
      (result >>= (λ _. ok (length inserted)), record { rules = rules; store = store })

  unfoldable pub import_managed_rules :
      RuleManager r → List RuleEntry → Result String ℕ × RuleManager r
  unfolding finish_import new_entries
  import_managed_rules m entries = elim (collect (prepare_rule_entry env) entries) [
    | err e ↦ (err e, m)
    | ok prepared ↦ finish_import m prepared (r.insert_many m.store (new_entries prepared m.rules))
  ]

  pub finish_edit :
      RuleManager r
      → ℕ
      → RuleEntry × Rule
      → Result String (Unit {0}) × r.State
      → Result String RuleEntry × RuleManager r
  unfolding replace_learned
  finish_edit m id prepared (err e, store) = (err e, record m { store = store })
  finish_edit m id prepared (ok _, store) = (
    ok prepared.0,
    record { rules = replace_learned id prepared.0 prepared.1 m.rules; store = store },
  )

  pub edit_prepared : RuleManager r → ℕ → RuleEntry × Rule → Result String RuleEntry × RuleManager r
  unfolding finish_edit has_id
  edit_prepared m id prepared =
      if any (λ active. not (has_id id active) && active.entry == prepared.0) m.rules
      then (err "an identical rule already exists", m)
      else finish_edit m id prepared (r.replace m.store id prepared.0)

  unfoldable pub edit_managed_rule :
      RuleManager r
      → ℕ
      → Option RuleAction
      → Option Access
      → RulePinUpdate
      → Result String RuleEntry × RuleManager r
  unfolding edit_prepared find_learned apply_rule_edit
  edit_managed_rule m id action access pin = elim (find_learned id m.rules) [
    | none ↦ (err "learned rule is not active", m)
    | some rule ↦ elim (prepare_rule_entry env (apply_rule_edit rule.entry action access pin)) [
      | err e ↦ (err e, m)
      | ok prepared ↦ edit_prepared m id prepared
    ]
  ]

  pub finish_remove :
      RuleManager r
      → ℕ
      → RuleEntry
      → Result String (Unit {0}) × r.State
      → Result String RuleEntry × RuleManager r
  unfolding remove_learned
  finish_remove m id entry (err e, store) = (err e, record m { store = store })
  finish_remove m id entry (ok _, store) =
      (ok entry, record { rules = remove_learned id m.rules; store = store })

  unfoldable pub remove_managed_rule : RuleManager r → ℕ → Result String RuleEntry × RuleManager r
  unfolding finish_remove find_learned
  remove_managed_rule m id = elim (find_learned id m.rules) [
    | none ↦ (err "learned rule is not active", m)
    | some rule ↦ finish_remove m id rule.entry (r.remove m.store id)
  ]

  unfoldable pub add_persistent_rule :
      RuleManager r → Rule → Result String (Unit {0}) × RuleManager r
  add_persistent_rule m rule = elim (entry_of_rule rule) [
    | err e ↦ (err e, m)
    | ok entry ↦ let (result, m') = add_managed_rule m entry in (result >>= (λ _. ok tt), m')
  ]

-- The calls of the control socket on the rules.
pub data RuleCall : Type 0 where
  add : RuleEntry → RuleCall
  import_rules : List RuleEntry → RuleCall
  edit : ℕ → Option RuleAction → Option Access → RulePinUpdate → RuleCall
  remove : ℕ → RuleCall

module _ (env : Environment) (r : RuleRepository) where
  unfoldable pub serve_call : RuleManager r → RuleCall → RuleManager r
  serve_call m (add entry) = (add_managed_rule env r m entry).1
  serve_call m (import_rules entries) = (import_managed_rules env r m entries).1
  serve_call m (edit id action access pin) = (edit_managed_rule env r m id action access pin).1
  serve_call m (remove id) = (remove_managed_rule env r m id).1

  -- The manager after a sequence of calls, in the order in which they took the lock.
  unfoldable pub serve_calls : RuleManager r → List RuleCall → RuleManager r
  unfolding serve_call
  serve_calls m [] = m
  serve_calls m (call ∷ calls) = serve_calls (serve_call m call) calls

module _ (r : RuleRepository) where
  unfoldable pub managed_rules : RuleManager r → List ManagedRule
  managed_rules m =
      map (λ rule. record { entry = rule.entry; learned_id = rule.learned_id }) m.rules

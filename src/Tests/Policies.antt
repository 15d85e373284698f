-- ===== src/Tests/Policies.antt =====
-- Concrete decisions of the policy: src/policy/engine.rs.
use file_guard.Prelude.{
  ◌≡◌, refl, ◌↔◌, ◌⊎◌, inl, true, false, Option, none, some, List, [], ◌∷◌, ℕ_discrete, ℕ_eq,
  Bytes-discrete, Bytes_eq, Option_Bytes-discrete, Option_Bytes_eq, Bool-discrete, Bool_eq,
  replicate, ok, err,
}
use mathlib.Core.List.{Memᴰ}
use file_guard.Files.Utf8.{valid_utf8, is_ascii_hexdigit, to_ascii_lowercase}
use file_guard.Files.FilePath.{
  FilePath, split_slash, body, relative, components_of, components, ◌=path=◌, has_root, is_absolute,
  to_str, join,
}
use file_guard.Files.Lexical.{render_names, render, push_components, absolute_lexical}
use file_guard.Files.Expand.{expand_file_path, expand_path}
use file_guard.Process.{ProcessInfo, ascii, is_interpreter}
use file_guard.Prompt.{deny_default, UserChoice, decided_by_user, default_choice, prompt}
use file_guard.Policy.Rule.{
  Action, allow, deny, Access, read, write, any_access, Access-discrete, Access_eq, covers,
  from_open_flags, unpinned, pin_sha256, Rule, Decision, is_allowed,
}
use file_guard.Policy.Session.{
  process_id, script_eq, process_id_eq, grant_key_eq, contains, grant_session, is_session_allowed,
}
use file_guard.Policy.Session.Grants.{SameProcess, is_session_allowed-grant_session}
use file_guard.Policy.Entry.{
  RuleAction, allow_rule, deny_rule, RuleEntry, RuleEntry-discrete, RuleEntry_eq, Environment,
  or_keep, apply_pin, apply_rule_edit, is_hash, normalize_hash, identity_pin, rule_action, path_of,
  script_path, lexical, compile_script, rule_from_entry, prepare_rule_entry,
}
use file_guard.Policy.Entry.Normal.{prepare_rule_entry_idem}
use file_guard.Policy.Repository.Memory
use file_guard.Policy.Repository.Memory.{MemoryRuleState, memory, new_memory, memory-IsRepository}
use file_guard.Policy.Manager
use file_guard.Policy.Manager.{
  ActiveRule, ManagedRule, has_id, has_entry, find_learned, replace_learned, remove_learned,
  script_pin_matches, script_text, script_matches, pin_matches, identity_matches, in_scope, verdict,
  lookup_loop, lookup_rule, activate, RuleManager, active_rule, find_compiled, new_entries,
  push_inserted, script_of, entry_action, entry_of_rule, finish_add, add_prepared, add_managed_rule,
  finish_import, import_managed_rules, finish_edit, edit_prepared, edit_managed_rule, finish_remove,
  remove_managed_rule, add_persistent_rule, RuleCall, add, import_rules, edit, remove, serve_call,
  serve_calls, managed_rules,
}
use file_guard.Policy.Manager.Lookup.{Found, lookup_rule-deny_iff, lookup_rule-allow_iff}
use file_guard.Policy.Manager.Mirror.{Mirrors, serve_calls-Mirrors}
use file_guard.Policy.Manager.Compiled.{AllCompiled, serve_calls-AllCompiled}
use file_guard.Policy.Engine.{
  PolicyEngine, insert_default, get_default, collect_defaults, prompt_access, settle, is_none,
  outcome, persisted_script, persisted_rule, new_engine, default_for, resolve_direction, resolve,
  persist_rule, apply_choice, Wait, prompt_and_apply, evaluate_open,
}
use file_guard.Policy.Engine.Open.{
  Denied, evaluate_open-deny, Basis, evaluate_open-allowed, evaluate_open-Authorised,
}
use file_guard.Policy.Engine.Grant.{now, answered, session_grant_lasts}
use file_guard.Policy.Engine.Persist.{added_is_active}
use file_guard.Policy.Engine.Permanent.{IsNormalised, deny_always_lasts, allow_always_lasts}

abbrev pub no_files : Environment
no_files = record {
  target_home = ok none;
  current_dir = ok (record { bytes = ascii "/" });
  hash_file = λ path. err "no such file";
}

abbrev pub key_file : FilePath
key_file = record { bytes = ascii "/k" }

abbrev pub reader : ProcessInfo
reader = record {
  pid = 9;
  start_time = 5;
  binary_path = record { bytes = ascii "/b" };
  binary_name = ascii "b";
  binary_sha256 = replicate 64 b'a';
  script = none;
  parent_chain = [];
}

abbrev pub entry_of : RuleAction → RuleEntry
entry_of action = record {
  file = ascii "/k";
  binary = ascii "/b";
  action = action;
  access = any_access;
  hash = none;
  script = none;
  script_hash = none;
}

abbrev pub rule_of : Action → Rule
rule_of action = record {
  file = key_file;
  binary = record { bytes = ascii "/b" };
  action = action;
  access = any_access;
  identity = unpinned;
  script = none;
}

abbrev pub active_of : RuleAction → Action → ActiveRule
active_of stored action = record {
  entry = entry_of stored;
  compiled = rule_of action;
  learned_id = none;
}

abbrev pub engine_with : List ActiveRule → PolicyEngine memory
unfolding memory
engine_with rules = record {
  manager = record { rules = rules; store = new_memory };
  session = record { session_allows = [] };
  global_default = deny_default;
  file_defaults = [];
}

-- The agent answers at once.
abbrev pub answering : UserChoice → Wait no_files memory
answering choice access engine = (ok (decided_by_user choice), engine)

deny_found : lookup_rule no_files (active_of deny_rule deny ∷ []) reader key_file read ≡ some deny
unfolding valid_utf8 is_ascii_hexdigit to_ascii_lowercase split_slash body relative components_of
    components ◌=path=◌ has_root is_absolute to_str join render_names render push_components
    absolute_lexical expand_file_path expand_path is_interpreter default_choice prompt covers
    from_open_flags pin_sha256 is_allowed process_id script_eq process_id_eq grant_key_eq
    Manager.new contains grant_session is_session_allowed or_keep apply_pin apply_rule_edit is_hash
    normalize_hash identity_pin rule_action path_of script_path lexical compile_script
    rule_from_entry prepare_rule_entry has_id has_entry find_learned replace_learned remove_learned
    script_pin_matches script_text script_matches pin_matches identity_matches in_scope verdict
    lookup_loop lookup_rule activate find_compiled new_entries push_inserted script_of entry_action
    entry_of_rule finish_add add_prepared add_managed_rule import_managed_rules edit_managed_rule
    remove_managed_rule add_persistent_rule serve_call serve_calls managed_rules insert_default
    get_default collect_defaults prompt_access settle is_none outcome persisted_script
    persisted_rule new_engine default_for resolve_direction resolve persist_rule apply_choice
    prompt_and_apply evaluate_open Memory.insert_loop Memory.insert_many Memory.last Memory.insert
    Memory.has_row Memory.replace Memory.remove Memory.memory Memory.new_memory Bytes-discrete
    Option_Bytes-discrete Bool-discrete ℕ_discrete Access-discrete RuleEntry-discrete
deny_found = refl

allow_found :
    lookup_rule no_files (active_of allow_rule allow ∷ []) reader key_file read ≡ some allow
unfolding valid_utf8 is_ascii_hexdigit to_ascii_lowercase split_slash body relative components_of
    components ◌=path=◌ has_root is_absolute to_str join render_names render push_components
    absolute_lexical expand_file_path expand_path is_interpreter default_choice prompt covers
    from_open_flags pin_sha256 is_allowed process_id script_eq process_id_eq grant_key_eq
    Manager.new contains grant_session is_session_allowed or_keep apply_pin apply_rule_edit is_hash
    normalize_hash identity_pin rule_action path_of script_path lexical compile_script
    rule_from_entry prepare_rule_entry has_id has_entry find_learned replace_learned remove_learned
    script_pin_matches script_text script_matches pin_matches identity_matches in_scope verdict
    lookup_loop lookup_rule activate find_compiled new_entries push_inserted script_of entry_action
    entry_of_rule finish_add add_prepared add_managed_rule import_managed_rules edit_managed_rule
    remove_managed_rule add_persistent_rule serve_call serve_calls managed_rules insert_default
    get_default collect_defaults prompt_access settle is_none outcome persisted_script
    persisted_rule new_engine default_for resolve_direction resolve persist_rule apply_choice
    prompt_and_apply evaluate_open Memory.insert_loop Memory.insert_many Memory.last Memory.insert
    Memory.has_row Memory.replace Memory.remove Memory.memory Memory.new_memory Bytes-discrete
    Option_Bytes-discrete Bool-discrete ℕ_discrete Access-discrete RuleEntry-discrete
allow_found = refl

evaluate_open-deny_example :
    evaluate_open no_files memory
      (answering UserChoice.allow_once)
      (engine_with (active_of deny_rule deny ∷ []))
      reader
      key_file
      true
      false
    ≡ (Decision.deny_always, engine_with (active_of deny_rule deny ∷ []))
unfolding memory
evaluate_open-deny_example =
    evaluate_open-deny no_files memory (engine_with (active_of deny_rule deny ∷ [])) reader key_file
      (answering UserChoice.allow_once) true false read refl deny_found

evaluate_open-Authorised_example :
    evaluate_open no_files memory
      (answering UserChoice.deny_once)
      (engine_with (active_of allow_rule allow ∷ []))
      reader
      key_file
      true
      false
    ≡ (Decision.allow_always, engine_with (active_of allow_rule allow ∷ []))
unfolding memory
evaluate_open-Authorised_example =
    evaluate_open-Authorised no_files memory (engine_with (active_of allow_rule allow ∷ [])) reader
      key_file (answering UserChoice.deny_once) true false (λ n. inl allow_found) (λ n. cc)

asked_once :
    is_allowed
      (evaluate_open no_files memory
        (answering UserChoice.allow_once)
        (engine_with [])
        reader
        key_file
        true
        false).0
    ≡ true
unfolding valid_utf8 is_ascii_hexdigit to_ascii_lowercase split_slash body relative components_of
    components ◌=path=◌ has_root is_absolute to_str join render_names render push_components
    absolute_lexical expand_file_path expand_path is_interpreter default_choice prompt covers
    from_open_flags pin_sha256 is_allowed process_id script_eq process_id_eq grant_key_eq
    Manager.new contains grant_session is_session_allowed or_keep apply_pin apply_rule_edit is_hash
    normalize_hash identity_pin rule_action path_of script_path lexical compile_script
    rule_from_entry prepare_rule_entry has_id has_entry find_learned replace_learned remove_learned
    script_pin_matches script_text script_matches pin_matches identity_matches in_scope verdict
    lookup_loop lookup_rule activate find_compiled new_entries push_inserted script_of entry_action
    entry_of_rule finish_add add_prepared add_managed_rule import_managed_rules edit_managed_rule
    remove_managed_rule add_persistent_rule serve_call serve_calls managed_rules insert_default
    get_default collect_defaults prompt_access settle is_none outcome persisted_script
    persisted_rule new_engine default_for resolve_direction resolve persist_rule apply_choice
    prompt_and_apply evaluate_open Memory.insert_loop Memory.insert_many Memory.last Memory.insert
    Memory.has_row Memory.replace Memory.remove Memory.memory Memory.new_memory Bytes-discrete
    Option_Bytes-discrete Bool-discrete ℕ_discrete Access-discrete RuleEntry-discrete
asked_once = refl

evaluate_open-allowed_example :
    Basis no_files memory
      (engine_with [])
      reader
      key_file
      (answering UserChoice.allow_once)
      true
      false
      read
unfolding memory
evaluate_open-allowed_example =
    evaluate_open-allowed no_files memory (engine_with []) reader key_file
      (answering UserChoice.allow_once) true false read asked_once refl

lookup_rule-deny_iff_example :
    (lookup_rule no_files (active_of deny_rule deny ∷ []) reader key_file read ≡ some deny)
    ↔ Found no_files reader key_file read deny (active_of deny_rule deny ∷ [])
unfolding memory
lookup_rule-deny_iff_example =
    lookup_rule-deny_iff no_files reader key_file read (active_of deny_rule deny ∷ [])

lookup_rule-allow_iff_example :
    (lookup_rule no_files (active_of allow_rule allow ∷ []) reader key_file read ≡ some allow) ↔ (
      Found no_files reader key_file read allow (active_of allow_rule allow ∷ [])
      × ¬ Found no_files reader key_file read deny (active_of allow_rule allow ∷ []))
unfolding memory
lookup_rule-allow_iff_example =
    lookup_rule-allow_iff no_files reader key_file read (active_of allow_rule allow ∷ [])

abbrev pub empty_manager : RuleManager memory
unfolding memory
empty_manager = record { rules = []; store = new_memory }

abbrev some_calls : List RuleCall
some_calls = add (entry_of deny_rule) ∷ add (entry_of allow_rule) ∷ remove 1 ∷ []

empty_mirror : Mirrors no_files memory memory-IsRepository empty_manager
unfolding memory new_memory
empty_mirror = memory-IsRepository.rows-list new_memory [] refl

serve_calls-Mirrors_example :
    Mirrors no_files memory memory-IsRepository
      (serve_calls no_files memory empty_manager some_calls)
unfolding memory
serve_calls-Mirrors_example =
    serve_calls-Mirrors no_files memory memory-IsRepository some_calls empty_manager empty_mirror

serve_calls-AllCompiled_example :
    AllCompiled no_files memory (serve_calls no_files memory empty_manager some_calls)
unfolding memory
serve_calls-AllCompiled_example =
    serve_calls-AllCompiled no_files memory some_calls empty_manager tt

abbrev configured_manager : RuleManager memory
unfolding memory
configured_manager = record { rules = active_of deny_rule deny ∷ []; store = new_memory }

abbrev start_store : memory.State
unfolding memory
start_store = new_memory

configured_built :
    Manager.new no_files memory (entry_of deny_rule ∷ []) start_store ≡ ok configured_manager
unfolding valid_utf8 is_ascii_hexdigit to_ascii_lowercase split_slash body relative components_of
    components ◌=path=◌ has_root is_absolute to_str join render_names render push_components
    absolute_lexical expand_file_path expand_path is_interpreter default_choice prompt covers
    from_open_flags pin_sha256 is_allowed process_id script_eq process_id_eq grant_key_eq
    Manager.new contains grant_session is_session_allowed or_keep apply_pin apply_rule_edit is_hash
    normalize_hash identity_pin rule_action path_of script_path lexical compile_script
    rule_from_entry prepare_rule_entry has_id has_entry find_learned replace_learned remove_learned
    script_pin_matches script_text script_matches pin_matches identity_matches in_scope verdict
    lookup_loop lookup_rule activate find_compiled new_entries push_inserted script_of entry_action
    entry_of_rule finish_add add_prepared add_managed_rule import_managed_rules edit_managed_rule
    remove_managed_rule add_persistent_rule serve_call serve_calls managed_rules insert_default
    get_default collect_defaults prompt_access settle is_none outcome persisted_script
    persisted_rule new_engine default_for resolve_direction resolve persist_rule apply_choice
    prompt_and_apply evaluate_open Memory.insert_loop Memory.insert_many Memory.last Memory.insert
    Memory.has_row Memory.replace Memory.remove Memory.memory Memory.new_memory Bytes-discrete
    Option_Bytes-discrete Bool-discrete ℕ_discrete Access-discrete RuleEntry-discrete
configured_built = refl

is_session_allowed-grant_session_example :
    (is_session_allowed
        (grant_session (record { session_allows = [] }) (process_id reader) key_file any_access)
        (process_id reader)
        key_file
        write
      ≡ true)
    ↔ ((is_session_allowed (record { session_allows = [] }) (process_id reader) key_file write
          ≡ true)
        ⊎ (SameProcess (process_id reader) (process_id reader)
            × (components key_file ≡ components key_file)
            × ((any_access ≡ write) ⊎ (any_access ≡ any_access))))
unfolding memory
is_session_allowed-grant_session_example =
    is_session_allowed-grant_session (record { session_allows = [] }) (process_id reader)
      (process_id reader) key_file key_file any_access write

abbrev session_opened : Decision × PolicyEngine memory
session_opened =
    evaluate_open no_files memory (answering UserChoice.allow_session) (engine_with []) reader
      key_file true false

session_answered : session_opened.0 ≡ Decision.allow_session
unfolding valid_utf8 is_ascii_hexdigit to_ascii_lowercase split_slash body relative components_of
    components ◌=path=◌ has_root is_absolute to_str join render_names render push_components
    absolute_lexical expand_file_path expand_path is_interpreter default_choice prompt covers
    from_open_flags pin_sha256 is_allowed process_id script_eq process_id_eq grant_key_eq
    Manager.new contains grant_session is_session_allowed or_keep apply_pin apply_rule_edit is_hash
    normalize_hash identity_pin rule_action path_of script_path lexical compile_script
    rule_from_entry prepare_rule_entry has_id has_entry find_learned replace_learned remove_learned
    script_pin_matches script_text script_matches pin_matches identity_matches in_scope verdict
    lookup_loop lookup_rule activate find_compiled new_entries push_inserted script_of entry_action
    entry_of_rule finish_add add_prepared add_managed_rule import_managed_rules edit_managed_rule
    remove_managed_rule add_persistent_rule serve_call serve_calls managed_rules insert_default
    get_default collect_defaults prompt_access settle is_none outcome persisted_script
    persisted_rule new_engine default_for resolve_direction resolve persist_rule apply_choice
    prompt_and_apply evaluate_open Memory.insert_loop Memory.insert_many Memory.last Memory.insert
    Memory.has_row Memory.replace Memory.remove Memory.memory Memory.new_memory Bytes-discrete
    Option_Bytes-discrete Bool-discrete ℕ_discrete Access-discrete RuleEntry-discrete
session_answered = refl

-- The engine after another process was allowed for the session, too.
abbrev later_engine : PolicyEngine memory
later_engine =
    (apply_choice no_files memory session_opened.1 (record reader { pid = 99 }) key_file
      UserChoice.allow_session).1

nothing-Denied : (a : Access) → ¬ Denied no_files memory later_engine reader key_file a
unfolding valid_utf8 is_ascii_hexdigit to_ascii_lowercase split_slash body relative components_of
    components ◌=path=◌ has_root is_absolute to_str join render_names render push_components
    absolute_lexical expand_file_path expand_path is_interpreter default_choice prompt covers
    from_open_flags pin_sha256 is_allowed process_id script_eq process_id_eq grant_key_eq
    Manager.new contains grant_session is_session_allowed or_keep apply_pin apply_rule_edit is_hash
    normalize_hash identity_pin rule_action path_of script_path lexical compile_script
    rule_from_entry prepare_rule_entry has_id has_entry find_learned replace_learned remove_learned
    script_pin_matches script_text script_matches pin_matches identity_matches in_scope verdict
    lookup_loop lookup_rule activate find_compiled new_entries push_inserted script_of entry_action
    entry_of_rule finish_add add_prepared add_managed_rule import_managed_rules edit_managed_rule
    remove_managed_rule add_persistent_rule serve_call serve_calls managed_rules insert_default
    get_default collect_defaults prompt_access settle is_none outcome persisted_script
    persisted_rule new_engine default_for resolve_direction resolve persist_rule apply_choice
    prompt_and_apply evaluate_open Memory.insert_loop Memory.insert_many Memory.last Memory.insert
    Memory.has_row Memory.replace Memory.remove Memory.memory Memory.new_memory Bytes-discrete
    Option_Bytes-discrete Bool-discrete ℕ_discrete Access-discrete RuleEntry-discrete
nothing-Denied a e = none_some e
  where
    none_some : ¬ (◌≡◌ {A = Option Action} none (some deny))
    none_some k = cc

session_grant_lasts_example :
    evaluate_open no_files memory
      (answering UserChoice.deny_once)
      later_engine
      reader
      key_file
      true
      true
    ≡ (Decision.allow_always, later_engine)
unfolding memory
session_grant_lasts_example =
    session_grant_lasts no_files memory reader key_file (answering UserChoice.allow_session)
      (answering UserChoice.deny_once) (engine_with []) later_engine true false true true
      session_answered
      (answered session_opened.1 session_opened.1 no_files (record reader { pid = 99 }) key_file
        UserChoice.allow_session (now session_opened.1))
      (λ n. nothing-Denied read) (λ n. nothing-Denied write)

deny_prepared :
    prepare_rule_entry no_files (entry_of deny_rule) ≡ ok (entry_of deny_rule, rule_of deny)
unfolding valid_utf8 is_ascii_hexdigit to_ascii_lowercase split_slash body relative components_of
    components ◌=path=◌ has_root is_absolute to_str join render_names render push_components
    absolute_lexical expand_file_path expand_path is_interpreter default_choice prompt covers
    from_open_flags pin_sha256 is_allowed process_id script_eq process_id_eq grant_key_eq
    Manager.new contains grant_session is_session_allowed or_keep apply_pin apply_rule_edit is_hash
    normalize_hash identity_pin rule_action path_of script_path lexical compile_script
    rule_from_entry prepare_rule_entry has_id has_entry find_learned replace_learned remove_learned
    script_pin_matches script_text script_matches pin_matches identity_matches in_scope verdict
    lookup_loop lookup_rule activate find_compiled new_entries push_inserted script_of entry_action
    entry_of_rule finish_add add_prepared add_managed_rule import_managed_rules edit_managed_rule
    remove_managed_rule add_persistent_rule serve_call serve_calls managed_rules insert_default
    get_default collect_defaults prompt_access settle is_none outcome persisted_script
    persisted_rule new_engine default_for resolve_direction resolve persist_rule apply_choice
    prompt_and_apply evaluate_open Memory.insert_loop Memory.insert_many Memory.last Memory.insert
    Memory.has_row Memory.replace Memory.remove Memory.memory Memory.new_memory Bytes-discrete
    Option_Bytes-discrete Bool-discrete ℕ_discrete Access-discrete RuleEntry-discrete
deny_prepared = refl

prepare_rule_entry_idem_example :
    prepare_rule_entry no_files (entry_of deny_rule) ≡ ok (entry_of deny_rule, rule_of deny)
unfolding memory
prepare_rule_entry_idem_example =
    prepare_rule_entry_idem no_files (entry_of deny_rule) (entry_of deny_rule) (rule_of deny)
      deny_prepared

deny_added : (add_managed_rule no_files memory empty_manager (entry_of deny_rule)).0 ≡ ok true
unfolding valid_utf8 is_ascii_hexdigit to_ascii_lowercase split_slash body relative components_of
    components ◌=path=◌ has_root is_absolute to_str join render_names render push_components
    absolute_lexical expand_file_path expand_path is_interpreter default_choice prompt covers
    from_open_flags pin_sha256 is_allowed process_id script_eq process_id_eq grant_key_eq
    Manager.new contains grant_session is_session_allowed or_keep apply_pin apply_rule_edit is_hash
    normalize_hash identity_pin rule_action path_of script_path lexical compile_script
    rule_from_entry prepare_rule_entry has_id has_entry find_learned replace_learned remove_learned
    script_pin_matches script_text script_matches pin_matches identity_matches in_scope verdict
    lookup_loop lookup_rule activate find_compiled new_entries push_inserted script_of entry_action
    entry_of_rule finish_add add_prepared add_managed_rule import_managed_rules edit_managed_rule
    remove_managed_rule add_persistent_rule serve_call serve_calls managed_rules insert_default
    get_default collect_defaults prompt_access settle is_none outcome persisted_script
    persisted_rule new_engine default_for resolve_direction resolve persist_rule apply_choice
    prompt_and_apply evaluate_open Memory.insert_loop Memory.insert_many Memory.last Memory.insert
    Memory.has_row Memory.replace Memory.remove Memory.memory Memory.new_memory Bytes-discrete
    Option_Bytes-discrete Bool-discrete ℕ_discrete Access-discrete RuleEntry-discrete
deny_added = refl

added_is_active_example :
    (rule : ActiveRule) × Memᴰ rule
      (add_managed_rule no_files memory empty_manager (entry_of deny_rule)).1.rules
    × (rule.compiled ≡ rule_of deny)
unfolding memory
added_is_active_example =
    added_is_active no_files memory memory-IsRepository empty_manager (entry_of deny_rule)
      (entry_of deny_rule, rule_of deny) true empty_mirror tt deny_prepared deny_added

reader-IsNormalised : IsNormalised no_files reader key_file
unfolding valid_utf8 is_ascii_hexdigit to_ascii_lowercase split_slash body relative components_of
    components ◌=path=◌ has_root is_absolute to_str join render_names render push_components
    absolute_lexical expand_file_path expand_path is_interpreter default_choice prompt covers
    from_open_flags pin_sha256 is_allowed process_id script_eq process_id_eq grant_key_eq
    Manager.new contains grant_session is_session_allowed or_keep apply_pin apply_rule_edit is_hash
    normalize_hash identity_pin rule_action path_of script_path lexical compile_script
    rule_from_entry prepare_rule_entry has_id has_entry find_learned replace_learned remove_learned
    script_pin_matches script_text script_matches pin_matches identity_matches in_scope verdict
    lookup_loop lookup_rule activate find_compiled new_entries push_inserted script_of entry_action
    entry_of_rule finish_add add_prepared add_managed_rule import_managed_rules edit_managed_rule
    remove_managed_rule add_persistent_rule serve_call serve_calls managed_rules insert_default
    get_default collect_defaults prompt_access settle is_none outcome persisted_script
    persisted_rule new_engine default_for resolve_direction resolve persist_rule apply_choice
    prompt_and_apply evaluate_open Memory.insert_loop Memory.insert_many Memory.last Memory.insert
    Memory.has_row Memory.replace Memory.remove Memory.memory Memory.new_memory Bytes-discrete
    Option_Bytes-discrete Bool-discrete ℕ_discrete Access-discrete RuleEntry-discrete
reader-IsNormalised = record {
  watched = refl;
  hash = refl;
  script = λ path e. cc;
  script_hash = λ path h e k. cc;
}

denied_always :
    (apply_choice no_files memory (engine_with []) reader key_file UserChoice.deny_always).0
    ≡ Decision.deny_always
unfolding valid_utf8 is_ascii_hexdigit to_ascii_lowercase split_slash body relative components_of
    components ◌=path=◌ has_root is_absolute to_str join render_names render push_components
    absolute_lexical expand_file_path expand_path is_interpreter default_choice prompt covers
    from_open_flags pin_sha256 is_allowed process_id script_eq process_id_eq grant_key_eq
    Manager.new contains grant_session is_session_allowed or_keep apply_pin apply_rule_edit is_hash
    normalize_hash identity_pin rule_action path_of script_path lexical compile_script
    rule_from_entry prepare_rule_entry has_id has_entry find_learned replace_learned remove_learned
    script_pin_matches script_text script_matches pin_matches identity_matches in_scope verdict
    lookup_loop lookup_rule activate find_compiled new_entries push_inserted script_of entry_action
    entry_of_rule finish_add add_prepared add_managed_rule import_managed_rules edit_managed_rule
    remove_managed_rule add_persistent_rule serve_call serve_calls managed_rules insert_default
    get_default collect_defaults prompt_access settle is_none outcome persisted_script
    persisted_rule new_engine default_for resolve_direction resolve persist_rule apply_choice
    prompt_and_apply evaluate_open Memory.insert_loop Memory.insert_many Memory.last Memory.insert
    Memory.has_row Memory.replace Memory.remove Memory.memory Memory.new_memory Bytes-discrete
    Option_Bytes-discrete Bool-discrete ℕ_discrete Access-discrete RuleEntry-discrete
denied_always = refl

allowed_always :
    (apply_choice no_files memory (engine_with []) reader key_file UserChoice.allow_always).0
    ≡ Decision.allow_always
unfolding valid_utf8 is_ascii_hexdigit to_ascii_lowercase split_slash body relative components_of
    components ◌=path=◌ has_root is_absolute to_str join render_names render push_components
    absolute_lexical expand_file_path expand_path is_interpreter default_choice prompt covers
    from_open_flags pin_sha256 is_allowed process_id script_eq process_id_eq grant_key_eq
    Manager.new contains grant_session is_session_allowed or_keep apply_pin apply_rule_edit is_hash
    normalize_hash identity_pin rule_action path_of script_path lexical compile_script
    rule_from_entry prepare_rule_entry has_id has_entry find_learned replace_learned remove_learned
    script_pin_matches script_text script_matches pin_matches identity_matches in_scope verdict
    lookup_loop lookup_rule activate find_compiled new_entries push_inserted script_of entry_action
    entry_of_rule finish_add add_prepared add_managed_rule import_managed_rules edit_managed_rule
    remove_managed_rule add_persistent_rule serve_call serve_calls managed_rules insert_default
    get_default collect_defaults prompt_access settle is_none outcome persisted_script
    persisted_rule new_engine default_for resolve_direction resolve persist_rule apply_choice
    prompt_and_apply evaluate_open Memory.insert_loop Memory.insert_many Memory.last Memory.insert
    Memory.has_row Memory.replace Memory.remove Memory.memory Memory.new_memory Bytes-discrete
    Option_Bytes-discrete Bool-discrete ℕ_discrete Access-discrete RuleEntry-discrete
allowed_always = refl

deny_always_lasts_example :
    lookup_rule no_files
      (apply_choice no_files memory
        (engine_with [])
        reader
        key_file
        UserChoice.deny_always).1.manager.rules
      reader
      key_file
      write
    ≡ some deny
unfolding memory
deny_always_lasts_example =
    deny_always_lasts no_files memory memory-IsRepository reader key_file (engine_with []) write
      (empty_mirror, tt) reader-IsNormalised denied_always

none_denies : ¬ (
    lookup_rule no_files
      (apply_choice no_files memory
        (engine_with [])
        reader
        key_file
        UserChoice.allow_always).1.manager.rules
      reader
      key_file
      write
    ≡ some deny)
unfolding valid_utf8 is_ascii_hexdigit to_ascii_lowercase split_slash body relative components_of
    components ◌=path=◌ has_root is_absolute to_str join render_names render push_components
    absolute_lexical expand_file_path expand_path is_interpreter default_choice prompt covers
    from_open_flags pin_sha256 is_allowed process_id script_eq process_id_eq grant_key_eq
    Manager.new contains grant_session is_session_allowed or_keep apply_pin apply_rule_edit is_hash
    normalize_hash identity_pin rule_action path_of script_path lexical compile_script
    rule_from_entry prepare_rule_entry has_id has_entry find_learned replace_learned remove_learned
    script_pin_matches script_text script_matches pin_matches identity_matches in_scope verdict
    lookup_loop lookup_rule activate find_compiled new_entries push_inserted script_of entry_action
    entry_of_rule finish_add add_prepared add_managed_rule import_managed_rules edit_managed_rule
    remove_managed_rule add_persistent_rule serve_call serve_calls managed_rules insert_default
    get_default collect_defaults prompt_access settle is_none outcome persisted_script
    persisted_rule new_engine default_for resolve_direction resolve persist_rule apply_choice
    prompt_and_apply evaluate_open Memory.insert_loop Memory.insert_many Memory.last Memory.insert
    Memory.has_row Memory.replace Memory.remove Memory.memory Memory.new_memory Bytes-discrete
    Option_Bytes-discrete Bool-discrete ℕ_discrete Access-discrete RuleEntry-discrete
none_denies e = allow_deny e
  where
    allow_deny : ¬ (◌≡◌ {A = Option Action} (some allow) (some deny))
    allow_deny k = cc

allow_always_lasts_example :
    lookup_rule no_files
      (apply_choice no_files memory
        (engine_with [])
        reader
        key_file
        UserChoice.allow_always).1.manager.rules
      reader
      key_file
      write
    ≡ some allow
unfolding memory
allow_always_lasts_example =
    allow_always_lasts no_files memory memory-IsRepository reader key_file (engine_with []) write
      (empty_mirror, tt) reader-IsNormalised allowed_always none_denies

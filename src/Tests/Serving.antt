-- ===== src/Tests/Serving.antt =====
-- Concrete requests on a mounted file: src/fuse_fs/credential_fs.rs.
use file_guard.Prelude.{
  ◌%◌, ◌%◌, List, some, ◌+◌, ◌≤◌, ◌≡◌, refl, ◌↔◌, inr, true, false, none, [], ◌∷◌, arith,
  ℕ_discrete, ℕ_eq, Bytes, Bytes-discrete, Bytes_eq, Option_Bytes-discrete, Option_Bytes_eq,
  Bool-discrete, Bool_eq, length, get_elem?, ok, err,
}
use file_guard.Prelude.Int.{ℤ-discrete}
use file_guard.Files.Utf8.{valid_utf8, is_ascii_hexdigit, to_ascii_lowercase}
use file_guard.Files.FilePath.{
  FilePath, split_slash, body, relative, components_of, components, ◌=path=◌, has_root, is_absolute,
  to_str, join,
}
use file_guard.Files.Lexical.{render_names, render, push_components, absolute_lexical}
use file_guard.Files.Expand.{expand_file_path, expand_path}
use file_guard.Process.{ascii, is_interpreter}
use file_guard.Prompt.{UserChoice, default_choice, prompt}
use file_guard.Policy.Rule.{
  read, write, Access-discrete, Access_eq, covers, from_open_flags, pin_sha256, is_allowed,
}
use file_guard.Policy.Session.{
  process_id, script_eq, process_id_eq, grant_key_eq, contains, grant_session, is_session_allowed,
}
use file_guard.Policy.Entry.{
  RuleEntry-discrete, RuleEntry_eq, or_keep, apply_pin, apply_rule_edit, is_hash, normalize_hash,
  identity_pin, rule_action, path_of, script_path, lexical, compile_script, rule_from_entry,
  prepare_rule_entry,
}
use file_guard.Policy.Repository.Memory
use file_guard.Policy.Repository.Memory.{MemoryRuleState, memory, new_memory, memory-IsRepository}
use file_guard.Policy.Manager
use file_guard.Policy.Manager.{
  ActiveRule, ManagedRule, has_id, has_entry, find_learned, replace_learned, remove_learned,
  script_pin_matches, script_text, script_matches, pin_matches, identity_matches, in_scope, verdict,
  lookup_loop, lookup_rule, activate, RuleManager, active_rule, find_compiled, new_entries,
  push_inserted, script_of, entry_action, entry_of_rule, finish_add, add_prepared, add_managed_rule,
  finish_import, import_managed_rules, finish_edit, edit_prepared, edit_managed_rule, finish_remove,
  remove_managed_rule, add_persistent_rule, RuleCall, add, import_rules, edit, remove, serve_call,
  serve_calls, managed_rules,
}
use file_guard.Policy.Engine.{
  insert_default, get_default, collect_defaults, prompt_access, settle, is_none, outcome,
  persisted_script, persisted_rule, new_engine, default_for, resolve_direction, resolve,
  persist_rule, apply_choice, prompt_and_apply, evaluate_open,
}
use file_guard.Record.{
  metadata, existed, mount_intent, SnapshotRecord, present_entry, u64_mod, next_revision, version,
  marker_version, successor, Timestamp-discrete, ObjectIdentity-discrete,
  Option_ObjectIdentity-discrete, RestoreOrigin-discrete, UnmountNext-discrete,
  RestorePlan-discrete, RestoreResult-discrete, Lifecycle-discrete, ExtendedAttribute-discrete,
  RestoreMetadata-discrete, OriginalState-discrete, RecordVersion-discrete, RecordHeader-discrete,
  SnapshotRecord-discrete, Timestamp_eq, Option_ObjectIdentity_eq, ObjectIdentity_eq,
  RestoreOrigin_eq, Lifecycle_eq, OriginalState_eq, RecordVersion_eq, SnapshotRecord_eq,
}
use file_guard.Record.Checks.{
  nanoseconds_in_range, validate_timestamp, validate_identity, lt_bytes, after_previous, has_byte,
  validate_xattrs, validate_metadata, validate_token, validate_entry_name,
  identities_match_after_rename,
}
use file_guard.Record.Structure.{
  unwrap, is_some, require_present_original, validate_detached_identity, validate_detached_original,
  validate_bound_detached, validate_restore_detached, validate_optional, validate_displaced,
  validate_restore_plan, validate_restore_result, validate_lifecycle_structure,
  restore_intent_matches_header, is_installed_origin, lifecycle_requires_placeholder,
}
use file_guard.Record.Snapshot.{
  is_capture, reason_given, validate_placeholder, validate_original, captured_size, path_from_hex,
  path_to_hex, record_lexical, normalized_paths, validate_snapshot, validate_final,
  validate_finalization,
}
use file_guard.Fuse.Content.{
  max_content_len, efbig, slice_content, checked_write_end, resize, copy_at, written_contents,
  changes_permissions,
}
use file_guard.Fuse.Content.Ranges.{checked_write_end-ok_iff, written_contents-outside}
use file_guard.Fuse.Commit.{
  BackingStore, from_store, is_mount_intent, next_contents, observe, settle_commit, update_contents,
  update_contents-ok, Stored,
}
use file_guard.Fuse.Shared.{
  OpenHandle, Shared, invalid, find_handle, insert_handle, remove_handle, register_handle,
  may_write, may_read, current_size, replace_content, apply_write, apply_truncate, truncate_on_open,
}
use file_guard.Fuse.Shared.Updates.{
  apply_write-ok, read_after_write, apply_truncate-ok, apply_write-err,
}
use file_guard.Fuse.Mount.{
  build_file_attr, Reply, bytes_read, Mount, needs, Caller, mount_entry, new_mount, uid_permitted,
  decide_open, attributes, getattr, lookup, access_probe, flush, release, read_file, mutation_errno,
  open_checks, setattr_checks, write_file, truncate_file, truncate_handle, finish_setattr,
  grant_handle, grant_truncated, finish_open,
}
use file_guard.Fuse.Mount.Runs.{Opening, Event, last_open, after_open, Run, mounted, opens, Granted}
use file_guard.Fuse.Mount.Grants.{read_file-Granted, apply_write-Granted}
use file_guard.Tests.Records.{plain, revision_at, file_path}
use file_guard.Tests.Policies.{no_files, reader, answering, engine_with}

abbrev mounted_record : SnapshotRecord
mounted_record = revision_at 3 (mount_intent none) none none

-- A store that holds the mounted record and commits whatever it is given.
abbrev ready : BackingStore
ready = record {
  Contents = Unit;
  load = λ kept path. (ok (present_entry mounted_record), kept);
  commit = λ kept path expected next.
      (ok (record { generation = next.header.generation; revision = next.header.revision }), kept);
}

abbrev writer : OpenHandle
writer = record { access = write; can_read = true }

abbrev shared_with : Bytes → Shared
shared_with contents = record {
  content = record mounted_record { contents = contents };
  handles = (1, writer) ∷ [];
  next_fh = 2;
}

checked_write_end-ok_iff_example :
    (checked_write_end 3 4 ≡ ok 7) ↔ ((3 + 4 ≤ max_content_len) × (7 ≡ 3 + 4))
checked_write_end-ok_iff_example = checked_write_end-ok_iff 3 4 7

written_contents-outside_example :
    get_elem? (written_contents 1 (1 + length (ascii "xy")) (ascii "xy") (ascii "abcd")) 3
    ≡ get_elem? (ascii "abcd") 3
written_contents-outside_example =
    written_contents-outside (1) (ascii "xy") (ascii "abcd") 3 (omega arith) (inr (omega arith))

updated :
    (update_contents plain ready tt mounted_record (ascii "z")).0
    ≡ ok (next_contents plain mounted_record (ascii "z"))
unfolding slice_content checked_write_end resize copy_at written_contents changes_permissions
    from_store is_mount_intent next_contents observe settle_commit update_contents find_handle
    insert_handle remove_handle register_handle may_write may_read current_size replace_content
    apply_write apply_truncate truncate_on_open metadata existed next_revision version
    marker_version successor Timestamp-discrete ObjectIdentity-discrete
    Option_ObjectIdentity-discrete RestoreOrigin-discrete UnmountNext-discrete RestorePlan-discrete
    RestoreResult-discrete Lifecycle-discrete ExtendedAttribute-discrete RestoreMetadata-discrete
    OriginalState-discrete RecordVersion-discrete RecordHeader-discrete SnapshotRecord-discrete
    unwrap is_some require_present_original validate_detached_identity validate_detached_original
    validate_bound_detached validate_restore_detached validate_optional validate_displaced
    validate_restore_plan validate_restore_result validate_lifecycle_structure
    restore_intent_matches_header is_installed_origin lifecycle_requires_placeholder is_capture
    reason_given validate_placeholder validate_original captured_size path_from_hex path_to_hex
    record_lexical normalized_paths validate_snapshot validate_final validate_finalization
    split_slash body relative components_of components ◌=path=◌ has_root is_absolute to_str join
    Bytes-discrete ℤ-discrete ℕ_discrete Access-discrete Option_Bytes-discrete
updated = refl

update_contents-ok_example :
    (next_contents plain mounted_record (ascii "z") ≡ record {
      header = record mounted_record.header {
        revision = (mounted_record.header.revision + 1) % u64_mod;
        content_sha256 = plain.sha256 (ascii "z");
        logical_present = true;
      };
      contents = ascii "z";
    })
    × (is_some mounted_record.header.blocked_reason ≡ false)
    × (is_mount_intent mounted_record.header.lifecycle ≡ true)
    × ((path : FilePath) × (path_from_hex plain mounted_record.header.path_hex ≡ ok path)
        × Stored plain ready tt path mounted_record
            (next_contents plain mounted_record (ascii "z"))
            (update_contents plain ready tt mounted_record (ascii "z")).1)
update_contents-ok_example =
    update_contents-ok plain ready tt mounted_record
      (next_contents plain mounted_record (ascii "z")) (ascii "z") updated

write_done : (apply_write plain ready (shared_with (ascii "abc")) tt 1 1 (ascii "xyz")).0 ≡ ok 3
unfolding slice_content checked_write_end resize copy_at written_contents changes_permissions
    from_store is_mount_intent next_contents observe settle_commit update_contents find_handle
    insert_handle remove_handle register_handle may_write may_read current_size replace_content
    apply_write apply_truncate truncate_on_open metadata existed next_revision version
    marker_version successor Timestamp-discrete ObjectIdentity-discrete
    Option_ObjectIdentity-discrete RestoreOrigin-discrete UnmountNext-discrete RestorePlan-discrete
    RestoreResult-discrete Lifecycle-discrete ExtendedAttribute-discrete RestoreMetadata-discrete
    OriginalState-discrete RecordVersion-discrete RecordHeader-discrete SnapshotRecord-discrete
    unwrap is_some require_present_original validate_detached_identity validate_detached_original
    validate_bound_detached validate_restore_detached validate_optional validate_displaced
    validate_restore_plan validate_restore_result validate_lifecycle_structure
    restore_intent_matches_header is_installed_origin lifecycle_requires_placeholder is_capture
    reason_given validate_placeholder validate_original captured_size path_from_hex path_to_hex
    record_lexical normalized_paths validate_snapshot validate_final validate_finalization
    split_slash body relative components_of components ◌=path=◌ has_root is_absolute to_str join
    Bytes-discrete ℤ-discrete ℕ_discrete Access-discrete Option_Bytes-discrete
write_done = refl

apply_write-ok_example :
    (may_write (find_handle 1 (shared_with (ascii "abc")).handles) ≡ true)
    × (1 + length (ascii "xyz") ≤ max_content_len)
    × (3 ≡ length (ascii "xyz"))
    × ((apply_write plain ready (shared_with (ascii "abc")) tt 1 1 (ascii "xyz")).1
        ≡ record (shared_with (ascii "abc")) {
          content = next_contents plain (shared_with (ascii "abc")).content (
              written_contents 1
                (1 + length (ascii "xyz"))
                (ascii "xyz")
                (shared_with (ascii "abc")).content.contents);
        })
apply_write-ok_example =
    apply_write-ok plain ready (shared_with (ascii "abc")) tt 1 1 (ascii "xyz") 3 write_done

read_after_write_example :
    slice_content
      (apply_write plain ready (shared_with (ascii "abc")) tt 1 1 (ascii "xyz")).1.content.contents
      1
      3
    ≡ ascii "xyz"
read_after_write_example =
    read_after_write plain ready (shared_with (ascii "abc")) tt 1 1 (ascii "xyz") 3 write_done

write_refused :
    (apply_write plain ready (shared_with (ascii "abc")) tt 1 max_content_len (ascii "x")).0
    ≡ err (invalid efbig)
unfolding slice_content checked_write_end resize copy_at written_contents changes_permissions
    from_store is_mount_intent next_contents observe settle_commit update_contents find_handle
    insert_handle remove_handle register_handle may_write may_read current_size replace_content
    apply_write apply_truncate truncate_on_open metadata existed next_revision version
    marker_version successor Timestamp-discrete ObjectIdentity-discrete
    Option_ObjectIdentity-discrete RestoreOrigin-discrete UnmountNext-discrete RestorePlan-discrete
    RestoreResult-discrete Lifecycle-discrete ExtendedAttribute-discrete RestoreMetadata-discrete
    OriginalState-discrete RecordVersion-discrete RecordHeader-discrete SnapshotRecord-discrete
    unwrap is_some require_present_original validate_detached_identity validate_detached_original
    validate_bound_detached validate_restore_detached validate_optional validate_displaced
    validate_restore_plan validate_restore_result validate_lifecycle_structure
    restore_intent_matches_header is_installed_origin lifecycle_requires_placeholder is_capture
    reason_given validate_placeholder validate_original captured_size path_from_hex path_to_hex
    record_lexical normalized_paths validate_snapshot validate_final validate_finalization
    split_slash body relative components_of components ◌=path=◌ has_root is_absolute to_str join
    Bytes-discrete ℤ-discrete ℕ_discrete Access-discrete Option_Bytes-discrete
write_refused = refl

apply_write-err_example :
    (apply_write plain ready (shared_with (ascii "abc")) tt 1 max_content_len (ascii "x")).1
    ≡ shared_with (ascii "abc")
apply_write-err_example =
    apply_write-err plain ready (shared_with (ascii "abc")) tt 1 max_content_len (ascii "x")
      (invalid efbig) write_refused

truncate_done : (apply_truncate plain ready (shared_with (ascii "abc")) tt 2).0 ≡ ok tt
unfolding slice_content checked_write_end resize copy_at written_contents changes_permissions
    from_store is_mount_intent next_contents observe settle_commit update_contents find_handle
    insert_handle remove_handle register_handle may_write may_read current_size replace_content
    apply_write apply_truncate truncate_on_open metadata existed next_revision version
    marker_version successor Timestamp-discrete ObjectIdentity-discrete
    Option_ObjectIdentity-discrete RestoreOrigin-discrete UnmountNext-discrete RestorePlan-discrete
    RestoreResult-discrete Lifecycle-discrete ExtendedAttribute-discrete RestoreMetadata-discrete
    OriginalState-discrete RecordVersion-discrete RecordHeader-discrete SnapshotRecord-discrete
    unwrap is_some require_present_original validate_detached_identity validate_detached_original
    validate_bound_detached validate_restore_detached validate_optional validate_displaced
    validate_restore_plan validate_restore_result validate_lifecycle_structure
    restore_intent_matches_header is_installed_origin lifecycle_requires_placeholder is_capture
    reason_given validate_placeholder validate_original captured_size path_from_hex path_to_hex
    record_lexical normalized_paths validate_snapshot validate_final validate_finalization
    split_slash body relative components_of components ◌=path=◌ has_root is_absolute to_str join
    Bytes-discrete ℤ-discrete ℕ_discrete Access-discrete Option_Bytes-discrete
truncate_done = refl

apply_truncate-ok_example :
    (2 ≤ max_content_len)
    × ((apply_truncate plain ready (shared_with (ascii "abc")) tt 2).1
        ≡ record (shared_with (ascii "abc")) {
          content =
              next_contents plain
                (shared_with (ascii "abc")).content
                (resize 2 (shared_with (ascii "abc")).content.contents);
        })
apply_truncate-ok_example =
    apply_truncate-ok plain ready (shared_with (ascii "abc")) tt 2 truncate_done

abbrev fresh : Mount memory ready
unfolding memory
fresh = record {
  watched_path = file_path;
  owner_uid = 1000;
  presentation = metadata mounted_record.header.original;
  shared = record { content = mounted_record; handles = []; next_fh = 1 };
  kept = tt;
  engine = engine_with [];
}

is_fresh : new_mount memory ready file_path (ok file_path) tt (engine_with []) ≡ ok fresh
unfolding valid_utf8 is_ascii_hexdigit to_ascii_lowercase split_slash body relative components_of
    components ◌=path=◌ has_root is_absolute to_str join render_names render push_components
    absolute_lexical expand_file_path expand_path is_interpreter default_choice prompt covers
    from_open_flags pin_sha256 is_allowed process_id script_eq process_id_eq grant_key_eq
    Manager.new contains grant_session is_session_allowed or_keep apply_pin apply_rule_edit is_hash
    normalize_hash identity_pin rule_action path_of script_path lexical compile_script
    rule_from_entry prepare_rule_entry has_id has_entry find_learned replace_learned remove_learned
    script_pin_matches script_text script_matches pin_matches identity_matches in_scope verdict
    lookup_loop lookup_rule activate find_compiled new_entries push_inserted script_of entry_action
    entry_of_rule finish_add add_prepared add_managed_rule import_managed_rules edit_managed_rule
    remove_managed_rule add_persistent_rule serve_call serve_calls managed_rules insert_default
    get_default collect_defaults prompt_access settle is_none outcome persisted_script
    persisted_rule new_engine default_for resolve_direction resolve persist_rule apply_choice
    prompt_and_apply evaluate_open Memory.insert_loop Memory.insert_many Memory.last Memory.insert
    Memory.has_row Memory.replace Memory.remove Memory.memory Memory.new_memory Bytes-discrete
    Option_Bytes-discrete Bool-discrete ℕ_discrete Access-discrete RuleEntry-discrete metadata
    existed next_revision version marker_version successor Timestamp-discrete
    ObjectIdentity-discrete Option_ObjectIdentity-discrete RestoreOrigin-discrete
    UnmountNext-discrete RestorePlan-discrete RestoreResult-discrete Lifecycle-discrete
    ExtendedAttribute-discrete RestoreMetadata-discrete OriginalState-discrete
    RecordVersion-discrete RecordHeader-discrete SnapshotRecord-discrete nanoseconds_in_range
    validate_timestamp validate_identity lt_bytes after_previous has_byte validate_xattrs
    validate_metadata validate_token validate_entry_name identities_match_after_rename unwrap
    is_some require_present_original validate_detached_identity validate_detached_original
    validate_bound_detached validate_restore_detached validate_optional validate_displaced
    validate_restore_plan validate_restore_result validate_lifecycle_structure
    restore_intent_matches_header is_installed_origin lifecycle_requires_placeholder is_capture
    reason_given validate_placeholder validate_original captured_size path_from_hex path_to_hex
    record_lexical normalized_paths validate_snapshot validate_final validate_finalization
    slice_content checked_write_end resize copy_at written_contents changes_permissions from_store
    is_mount_intent next_contents observe settle_commit update_contents find_handle insert_handle
    remove_handle register_handle may_write may_read current_size replace_content apply_write
    apply_truncate truncate_on_open build_file_attr mount_entry new_mount uid_permitted decide_open
    attributes getattr lookup access_probe flush release read_file mutation_errno open_checks
    setattr_checks write_file truncate_file truncate_handle finish_setattr grant_handle
    grant_truncated finish_open ℤ-discrete
is_fresh = refl

abbrev owner : Caller
owner = record { caller_uid = 1000; identified = ok reader }

serves_both : open_checks memory ready 1 2 ≡ needs true true false
unfolding valid_utf8 is_ascii_hexdigit to_ascii_lowercase split_slash body relative components_of
    components ◌=path=◌ has_root is_absolute to_str join render_names render push_components
    absolute_lexical expand_file_path expand_path is_interpreter default_choice prompt covers
    from_open_flags pin_sha256 is_allowed process_id script_eq process_id_eq grant_key_eq
    Manager.new contains grant_session is_session_allowed or_keep apply_pin apply_rule_edit is_hash
    normalize_hash identity_pin rule_action path_of script_path lexical compile_script
    rule_from_entry prepare_rule_entry has_id has_entry find_learned replace_learned remove_learned
    script_pin_matches script_text script_matches pin_matches identity_matches in_scope verdict
    lookup_loop lookup_rule activate find_compiled new_entries push_inserted script_of entry_action
    entry_of_rule finish_add add_prepared add_managed_rule import_managed_rules edit_managed_rule
    remove_managed_rule add_persistent_rule serve_call serve_calls managed_rules insert_default
    get_default collect_defaults prompt_access settle is_none outcome persisted_script
    persisted_rule new_engine default_for resolve_direction resolve persist_rule apply_choice
    prompt_and_apply evaluate_open Memory.insert_loop Memory.insert_many Memory.last Memory.insert
    Memory.has_row Memory.replace Memory.remove Memory.memory Memory.new_memory Bytes-discrete
    Option_Bytes-discrete Bool-discrete ℕ_discrete Access-discrete RuleEntry-discrete metadata
    existed next_revision version marker_version successor Timestamp-discrete
    ObjectIdentity-discrete Option_ObjectIdentity-discrete RestoreOrigin-discrete
    UnmountNext-discrete RestorePlan-discrete RestoreResult-discrete Lifecycle-discrete
    ExtendedAttribute-discrete RestoreMetadata-discrete OriginalState-discrete
    RecordVersion-discrete RecordHeader-discrete SnapshotRecord-discrete nanoseconds_in_range
    validate_timestamp validate_identity lt_bytes after_previous has_byte validate_xattrs
    validate_metadata validate_token validate_entry_name identities_match_after_rename unwrap
    is_some require_present_original validate_detached_identity validate_detached_original
    validate_bound_detached validate_restore_detached validate_optional validate_displaced
    validate_restore_plan validate_restore_result validate_lifecycle_structure
    restore_intent_matches_header is_installed_origin lifecycle_requires_placeholder is_capture
    reason_given validate_placeholder validate_original captured_size path_from_hex path_to_hex
    record_lexical normalized_paths validate_snapshot validate_final validate_finalization
    slice_content checked_write_end resize copy_at written_contents changes_permissions from_store
    is_mount_intent next_contents observe settle_commit update_contents find_handle insert_handle
    remove_handle register_handle may_write may_read current_size replace_content apply_write
    apply_truncate truncate_on_open build_file_attr mount_entry new_mount uid_permitted decide_open
    attributes getattr lookup access_probe flush release read_file mutation_errno open_checks
    setattr_checks write_file truncate_file truncate_handle finish_setattr grant_handle
    grant_truncated finish_open ℤ-discrete
serves_both = refl

-- The mount and its log after an open for reading and writing that the user allowed once.
abbrev answer : Mount memory ready × Reply
answer =
    finish_open memory ready plain fresh
      (decide_open memory ready no_files (answering UserChoice.allow_once) (engine_with [])
        file_path 1000 owner true true).0
      true true false

abbrev serving : Mount memory ready
serving = answer.0

abbrev log : List (Event memory)
log =
    after_open memory answer.1 no_files (answering UserChoice.allow_once) (engine_with []) owner
      true true []

serving-Run : Run plain memory ready file_path 1000 log serving
unfolding fresh
serving-Run =
    opens [] fresh no_files (answering UserChoice.allow_once) (engine_with []) owner 1 2 true true
      false answer (mounted (ok file_path) tt (engine_with []) fresh is_fresh refl) serves_both refl

read_served : read_file memory ready serving 1 1 0 10 ≡ bytes_read []
unfolding valid_utf8 is_ascii_hexdigit to_ascii_lowercase split_slash body relative components_of
    components ◌=path=◌ has_root is_absolute to_str join render_names render push_components
    absolute_lexical expand_file_path expand_path is_interpreter default_choice prompt covers
    from_open_flags pin_sha256 is_allowed process_id script_eq process_id_eq grant_key_eq
    Manager.new contains grant_session is_session_allowed or_keep apply_pin apply_rule_edit is_hash
    normalize_hash identity_pin rule_action path_of script_path lexical compile_script
    rule_from_entry prepare_rule_entry has_id has_entry find_learned replace_learned remove_learned
    script_pin_matches script_text script_matches pin_matches identity_matches in_scope verdict
    lookup_loop lookup_rule activate find_compiled new_entries push_inserted script_of entry_action
    entry_of_rule finish_add add_prepared add_managed_rule import_managed_rules edit_managed_rule
    remove_managed_rule add_persistent_rule serve_call serve_calls managed_rules insert_default
    get_default collect_defaults prompt_access settle is_none outcome persisted_script
    persisted_rule new_engine default_for resolve_direction resolve persist_rule apply_choice
    prompt_and_apply evaluate_open Memory.insert_loop Memory.insert_many Memory.last Memory.insert
    Memory.has_row Memory.replace Memory.remove Memory.memory Memory.new_memory Bytes-discrete
    Option_Bytes-discrete Bool-discrete ℕ_discrete Access-discrete RuleEntry-discrete metadata
    existed next_revision version marker_version successor Timestamp-discrete
    ObjectIdentity-discrete Option_ObjectIdentity-discrete RestoreOrigin-discrete
    UnmountNext-discrete RestorePlan-discrete RestoreResult-discrete Lifecycle-discrete
    ExtendedAttribute-discrete RestoreMetadata-discrete OriginalState-discrete
    RecordVersion-discrete RecordHeader-discrete SnapshotRecord-discrete nanoseconds_in_range
    validate_timestamp validate_identity lt_bytes after_previous has_byte validate_xattrs
    validate_metadata validate_token validate_entry_name identities_match_after_rename unwrap
    is_some require_present_original validate_detached_identity validate_detached_original
    validate_bound_detached validate_restore_detached validate_optional validate_displaced
    validate_restore_plan validate_restore_result validate_lifecycle_structure
    restore_intent_matches_header is_installed_origin lifecycle_requires_placeholder is_capture
    reason_given validate_placeholder validate_original captured_size path_from_hex path_to_hex
    record_lexical normalized_paths validate_snapshot validate_final validate_finalization
    slice_content checked_write_end resize copy_at written_contents changes_permissions from_store
    is_mount_intent next_contents observe settle_commit update_contents find_handle insert_handle
    remove_handle register_handle may_write may_read current_size replace_content apply_write
    apply_truncate truncate_on_open build_file_attr mount_entry new_mount uid_permitted decide_open
    attributes getattr lookup access_probe flush release read_file mutation_errno open_checks
    setattr_checks write_file truncate_file truncate_handle finish_setattr grant_handle
    grant_truncated finish_open ℤ-discrete
read_served = refl

read_file-Granted_example :
    (last : Opening memory) × (last_open memory 1 log ≡ some last)
    × Granted memory file_path 1000 last read
read_file-Granted_example =
    read_file-Granted plain memory ready file_path 1000 log serving 1 1 0 10 [] serving-Run
      read_served

write_served : (apply_write plain ready serving.shared serving.kept 1 0 (ascii "k")).0 ≡ ok 1
unfolding valid_utf8 is_ascii_hexdigit to_ascii_lowercase split_slash body relative components_of
    components ◌=path=◌ has_root is_absolute to_str join render_names render push_components
    absolute_lexical expand_file_path expand_path is_interpreter default_choice prompt covers
    from_open_flags pin_sha256 is_allowed process_id script_eq process_id_eq grant_key_eq
    Manager.new contains grant_session is_session_allowed or_keep apply_pin apply_rule_edit is_hash
    normalize_hash identity_pin rule_action path_of script_path lexical compile_script
    rule_from_entry prepare_rule_entry has_id has_entry find_learned replace_learned remove_learned
    script_pin_matches script_text script_matches pin_matches identity_matches in_scope verdict
    lookup_loop lookup_rule activate find_compiled new_entries push_inserted script_of entry_action
    entry_of_rule finish_add add_prepared add_managed_rule import_managed_rules edit_managed_rule
    remove_managed_rule add_persistent_rule serve_call serve_calls managed_rules insert_default
    get_default collect_defaults prompt_access settle is_none outcome persisted_script
    persisted_rule new_engine default_for resolve_direction resolve persist_rule apply_choice
    prompt_and_apply evaluate_open Memory.insert_loop Memory.insert_many Memory.last Memory.insert
    Memory.has_row Memory.replace Memory.remove Memory.memory Memory.new_memory Bytes-discrete
    Option_Bytes-discrete Bool-discrete ℕ_discrete Access-discrete RuleEntry-discrete metadata
    existed next_revision version marker_version successor Timestamp-discrete
    ObjectIdentity-discrete Option_ObjectIdentity-discrete RestoreOrigin-discrete
    UnmountNext-discrete RestorePlan-discrete RestoreResult-discrete Lifecycle-discrete
    ExtendedAttribute-discrete RestoreMetadata-discrete OriginalState-discrete
    RecordVersion-discrete RecordHeader-discrete SnapshotRecord-discrete nanoseconds_in_range
    validate_timestamp validate_identity lt_bytes after_previous has_byte validate_xattrs
    validate_metadata validate_token validate_entry_name identities_match_after_rename unwrap
    is_some require_present_original validate_detached_identity validate_detached_original
    validate_bound_detached validate_restore_detached validate_optional validate_displaced
    validate_restore_plan validate_restore_result validate_lifecycle_structure
    restore_intent_matches_header is_installed_origin lifecycle_requires_placeholder is_capture
    reason_given validate_placeholder validate_original captured_size path_from_hex path_to_hex
    record_lexical normalized_paths validate_snapshot validate_final validate_finalization
    slice_content checked_write_end resize copy_at written_contents changes_permissions from_store
    is_mount_intent next_contents observe settle_commit update_contents find_handle insert_handle
    remove_handle register_handle may_write may_read current_size replace_content apply_write
    apply_truncate truncate_on_open build_file_attr mount_entry new_mount uid_permitted decide_open
    attributes getattr lookup access_probe flush release read_file mutation_errno open_checks
    setattr_checks write_file truncate_file truncate_handle finish_setattr grant_handle
    grant_truncated finish_open ℤ-discrete
write_served = refl

apply_write-Granted_example :
    (last : Opening memory) × (last_open memory 1 log ≡ some last)
    × Granted memory file_path 1000 last write
apply_write-Granted_example =
    apply_write-Granted plain memory ready file_path 1000 log serving 1 0 (ascii "k") 1 serving-Run
      write_served

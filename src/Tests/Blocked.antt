-- ===== src/Tests/Blocked.antt =====
-- A blocked record in a small database: src/store/sqlite.rs.
use file_guard.Prelude.{
  ◌≡◌, refl, Option, none, some, List, [], ◌∷◌, ℕ_discrete, ℕ_eq, Bytes, Bytes-discrete, Bytes_eq,
  Option_Bytes-discrete, Option_Bytes_eq, Bool-discrete, Bool_eq, ok, err,
}
use file_guard.Files.Utf8.{valid_utf8, is_ascii_hexdigit, to_ascii_lowercase}
use file_guard.Files.FilePath.{
  split_slash, body, relative, components_of, components, ◌=path=◌, has_root, is_absolute,
}
use file_guard.Files.Lexical.{render_names, render, push_components, absolute_lexical}
use file_guard.Process.{ascii}
use file_guard.Record.{
  metadata, existed, present_entry, serialization, StoreResult, next_revision, version,
  Timestamp-discrete, ObjectIdentity-discrete, Option_ObjectIdentity-discrete,
  RestoreOrigin-discrete, UnmountNext-discrete, RestorePlan-discrete, RestoreResult-discrete,
  Lifecycle-discrete, ExtendedAttribute-discrete, RestoreMetadata-discrete, OriginalState-discrete,
  RecordVersion-discrete, RecordHeader-discrete, SnapshotRecord-discrete, Timestamp_eq,
  Option_ObjectIdentity_eq, ObjectIdentity_eq, RestoreOrigin_eq, Lifecycle_eq, OriginalState_eq,
  RecordVersion_eq, SnapshotRecord_eq, UnmountNext_eq,
}
use file_guard.Record.Checks.{
  nanoseconds_in_range, validate_timestamp, validate_identity, lt_bytes, after_previous, has_byte,
  validate_xattrs, validate_metadata, validate_token, validate_entry_name,
  identities_match_after_rename,
}
use file_guard.Record.Structure.{
  unwrap, is_some, require_present_original, validate_detached_identity, validate_detached_original,
  validate_bound_detached, validate_restore_detached, validate_optional, validate_displaced,
  validate_restore_plan, validate_restore_result, validate_lifecycle_structure,
  restore_intent_matches_header, is_installed_origin, lifecycle_requires_placeholder,
}
use file_guard.Record.Snapshot.{
  is_capture, reason_given, validate_placeholder, validate_original, captured_size, path_from_hex,
  path_to_hex, record_lexical, normalized_paths, validate_snapshot,
}
use file_guard.Record.Transition.{
  binds_restoration, displaced_as_planned, completes_restoration, starts_restoration,
  starts_offline_restoration, same_result, transition, lifecycle_transition_is_valid, same_capture,
  installs, plans_install, mounted_update, placeholder_kept, blocking, validate_progress,
  validate_successor_fields, is_first_capture, validate_against, validate_successor,
}
use file_guard.Store.Rows.{
  StoredRow, Json, revision_from_sql, revision_to_sql, phase_column, decode_row,
  decode_finalization,
}
use file_guard.Store.Sqlite.{
  load_finalization, load_found, load_record, end_transaction, transact, row_of, write_row,
  changed_one, stage_commit,
}
use file_guard.Store.Provenance.{Write, write_commit, write_finish_finalization, after_writes}
use file_guard.Store.Blocked.{load_record-blocked}
use file_guard.Prelude.Int.{pos, ℤ-discrete}
use file_guard.Tests.Records.{plain, root_dir_path, file_path}
use file_guard.Tests.Storage.{put, table, lawful_with, empty_tables}
use file_guard.Tests.Transactions.{mounted_record, stopped_record}

-- A coding that reads the blocked header and writes none.
abbrev stopped_header : Json
stopped_header = record {
  encode_snapshot_header = λ header. err (serialization "read only");
  decode_snapshot_header = λ bytes. ok stopped_record.header;
  encode_finalization_header = λ marker. err (serialization "read only");
  decode_finalization_header = λ bytes. err (serialization "a marker");
}

none_encoded :
    {bytes : Bytes} → ¬ (◌≡◌ {A = StoreResult Bytes} (err (serialization "read only")) (ok bytes))
none_encoded h = cc

abbrev stopped_tables : Bytes → Option StoredRow
stopped_tables =
    put (ascii "/k")
      (some
        (row_of plain root_dir_path stopped_header table file_path stopped_record (0 ∷ []) (pos 4)))
      empty_tables

loaded_stopped :
    load_record plain root_dir_path stopped_header table stopped_tables file_path
    ≡ ok (present_entry stopped_record)
unfolding valid_utf8 is_ascii_hexdigit to_ascii_lowercase split_slash body relative components_of
    components ◌=path=◌ has_root is_absolute render_names render push_components absolute_lexical
    metadata existed next_revision version Timestamp-discrete ObjectIdentity-discrete
    Option_ObjectIdentity-discrete RestoreOrigin-discrete UnmountNext-discrete RestorePlan-discrete
    RestoreResult-discrete Lifecycle-discrete ExtendedAttribute-discrete RestoreMetadata-discrete
    OriginalState-discrete RecordVersion-discrete RecordHeader-discrete SnapshotRecord-discrete
    nanoseconds_in_range validate_timestamp validate_identity lt_bytes after_previous has_byte
    validate_xattrs validate_metadata validate_token validate_entry_name
    identities_match_after_rename unwrap is_some require_present_original validate_detached_identity
    validate_detached_original validate_bound_detached validate_restore_detached validate_optional
    validate_displaced validate_restore_plan validate_restore_result validate_lifecycle_structure
    restore_intent_matches_header is_installed_origin lifecycle_requires_placeholder is_capture
    reason_given validate_placeholder validate_original captured_size path_from_hex path_to_hex
    record_lexical normalized_paths validate_snapshot binds_restoration displaced_as_planned
    completes_restoration starts_restoration starts_offline_restoration same_result transition
    lifecycle_transition_is_valid same_capture installs plans_install mounted_update
    placeholder_kept blocking validate_progress validate_successor_fields is_first_capture
    validate_against validate_successor Bytes-discrete Option_Bytes-discrete Bool-discrete
    ℕ_discrete ℤ-discrete stage_commit transact end_transaction load_record load_found
    load_finalization row_of write_row changed_one decode_row decode_finalization revision_to_sql
    revision_from_sql phase_column
loaded_stopped = refl

-- An update of the blocked record, a record of its own, and a deletion.
abbrev refused_writes : List Write
refused_writes =
    write_commit file_path (some (version stopped_record)) mounted_record
    ∷ write_commit file_path none mounted_record
    ∷ write_finish_finalization file_path (version stopped_record)
    ∷ []

load_record-blocked_example :
    load_record plain root_dir_path stopped_header table
      (after_writes plain root_dir_path stopped_header table refused_writes stopped_tables)
      file_path
    ≡ ok (present_entry stopped_record)
unfolding is_some
load_record-blocked_example =
    load_record-blocked plain root_dir_path stopped_header table
      (lawful_with stopped_header (λ header bytes h. absurd (none_encoded h))) refused_writes
      stopped_tables file_path stopped_record refl loaded_stopped

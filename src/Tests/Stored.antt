-- ===== src/Tests/Stored.antt =====
-- A mounted write over the store of src/store/sqlite.rs, on a small database.
use file_guard.Prelude.{
  ◌≡◌, refl, sym, ap, true, Option, some, [], ◌∷◌, ℕ_discrete, if◌then◌else◌, ◌==◌, ℕ_eq, Bytes,
  Bytes-discrete, Bytes_eq, Option_Bytes-discrete, Option_Bytes_eq, Bool-discrete, Bool_eq, ok, err,
  ok_inj,
}
use file_guard.Files.Utf8.{valid_utf8, is_ascii_hexdigit, to_ascii_lowercase}
use file_guard.Files.FilePath.{
  FilePath, split_slash, body, relative, components_of, components, ◌=path=◌, has_root, is_absolute,
}
use file_guard.Files.Lexical.{render_names, render, push_components, absolute_lexical}
use file_guard.Process.{ascii}
use file_guard.Policy.Rule.{write, Access-discrete, Access_eq}
use file_guard.Record.{
  metadata, existed, RecordHeader, SnapshotRecord, present_entry, serialization, StoreResult,
  next_revision, version, successor, Timestamp-discrete, ObjectIdentity-discrete,
  Option_ObjectIdentity-discrete, RestoreOrigin-discrete, UnmountNext-discrete,
  RestorePlan-discrete, RestoreResult-discrete, Lifecycle-discrete, ExtendedAttribute-discrete,
  RestoreMetadata-discrete, OriginalState-discrete, RecordVersion-discrete, RecordHeader-discrete,
  SnapshotRecord-discrete, Timestamp_eq, Option_ObjectIdentity_eq, ObjectIdentity_eq,
  RestoreOrigin_eq, Lifecycle_eq, OriginalState_eq, RecordVersion_eq, SnapshotRecord_eq,
  UnmountNext_eq,
}
use file_guard.Record.Checks.{
  nanoseconds_in_range, validate_timestamp, validate_identity, lt_bytes, after_previous, has_byte,
  validate_xattrs, validate_metadata, validate_token, validate_entry_name,
  identities_match_after_rename,
}
use file_guard.Record.Structure.{
  unwrap, is_some, require_present_original, validate_detached_identity, validate_detached_original,
  validate_bound_detached, validate_restore_detached, validate_optional, validate_displaced,
  validate_restore_plan, validate_restore_result, validate_lifecycle_structure,
  restore_intent_matches_header, is_installed_origin, lifecycle_requires_placeholder,
}
use file_guard.Record.Snapshot.{
  is_capture, reason_given, validate_placeholder, validate_original, captured_size, path_from_hex,
  path_to_hex, record_lexical, normalized_paths, validate_snapshot,
}
use file_guard.Record.Transition.{
  binds_restoration, displaced_as_planned, completes_restoration, starts_restoration,
  starts_offline_restoration, same_result, transition, lifecycle_transition_is_valid, same_capture,
  installs, plans_install, mounted_update, placeholder_kept, blocking, validate_progress,
  validate_successor_fields, is_first_capture, validate_against, validate_successor,
}
use file_guard.Store.Rows.{
  StoredRow, Json, revision_from_sql, revision_to_sql, phase_column, decode_row,
  decode_finalization,
}
use file_guard.Store.Sqlite.{
  load_finalization, load_found, load_record, end_transaction, transact, row_of, write_row,
  changed_one, stage_commit, commit,
}
use file_guard.Store.Statements.{Statements}
use file_guard.Prelude.Int.{pos, ℤ-discrete}
use file_guard.Fuse.Content.{slice_content, checked_write_end, resize, copy_at, written_contents}
use file_guard.Fuse.Commit.{
  from_store, is_mount_intent, next_contents, observe, settle_commit, update_contents,
}
use file_guard.Fuse.Shared.{Shared, find_handle, may_write, replace_content, apply_write}
use file_guard.Transaction.Stored.{sqlite_store, write_stored, write_stored-durable}
use file_guard.Tests.Records.{plain, root_dir_path, file_path}
use file_guard.Tests.Storage.{put, table, lawful_with, empty_tables}
use file_guard.Tests.Transactions.{mounted_record}

-- The mounted record, with a handle for reading and writing, and the record after a write of `k`.
abbrev shared : Shared
shared = record {
  content = mounted_record;
  handles = (1, record { access = write; can_read = true }) ∷ [];
  next_fh = 2;
}

abbrev next : SnapshotRecord
next = record {
  header = record mounted_record.header {
    revision = 5;
    content_sha256 = ascii "k";
    logical_present = true;
  };
  contents = ascii "k";
}

abbrev encoded :
    (header : RecordHeader)
    → Dec (header ≡ mounted_record.header)
    → Dec (header ≡ next.header)
    → StoreResult Bytes
encoded header (yes same) d = ok (0 ∷ [])
encoded header (no differs) (yes same) = ok (1 ∷ [])
encoded header (no differs) (no differs') = err (serialization "another header")

abbrev decoded_header : Bytes → StoreResult RecordHeader
decoded_header bytes = if bytes == (1 ∷ []) then ok next.header else ok mounted_record.header

-- A coding for the headers of these two records.
abbrev two_headers : Json
two_headers = record {
  encode_snapshot_header = λ header.
      encoded header (RecordHeader-discrete header mounted_record.header)
        (RecordHeader-discrete header next.header);
  decode_snapshot_header = decoded_header;
  encode_finalization_header = λ marker. err (serialization "a marker");
  decode_finalization_header = λ bytes. err (serialization "a marker");
}

bytes_of : {a b : Bytes} → ◌≡◌ {A = StoreResult Bytes} (ok a) (ok b) → b ≡ a
bytes_of e = sym (ok_inj e)

two_headers-decoded :
    (header : RecordHeader) (d : Dec (header ≡ mounted_record.header))
    (d' : Dec (header ≡ next.header)) (bytes : Bytes)
    → encoded header d d' ≡ ok bytes
    → decoded_header bytes ≡ ok header
unfolding Bytes-discrete ℕ_discrete
two_headers-decoded header (yes same) d bytes h = rw (bytes_of h) (ap ok (sym same))
two_headers-decoded header (no differs) (yes same) bytes h = rw (bytes_of h) (ap ok (sym same))
two_headers-decoded header (no differs) (no differs') bytes h = cc

lawful_here : Statements two_headers table
lawful_here = lawful_with two_headers (λ header bytes h.
    two_headers-decoded header (RecordHeader-discrete header mounted_record.header)
      (RecordHeader-discrete header next.header) bytes h)

abbrev mounted_tables : Bytes → Option StoredRow
mounted_tables =
    put (ascii "/k")
      (some
        (row_of plain root_dir_path two_headers table file_path mounted_record (0 ∷ []) (pos 4)))
      empty_tables

acknowledged :
    (write_stored plain root_dir_path two_headers table shared mounted_tables 1 0 (ascii "k")).0
    ≡ ok 1
unfolding valid_utf8 is_ascii_hexdigit to_ascii_lowercase split_slash body relative components_of
    components ◌=path=◌ has_root is_absolute render_names render push_components absolute_lexical
    metadata existed next_revision version Timestamp-discrete ObjectIdentity-discrete
    Option_ObjectIdentity-discrete RestoreOrigin-discrete UnmountNext-discrete RestorePlan-discrete
    RestoreResult-discrete Lifecycle-discrete ExtendedAttribute-discrete RestoreMetadata-discrete
    OriginalState-discrete RecordVersion-discrete RecordHeader-discrete SnapshotRecord-discrete
    nanoseconds_in_range validate_timestamp validate_identity lt_bytes after_previous has_byte
    validate_xattrs validate_metadata validate_token validate_entry_name
    identities_match_after_rename unwrap is_some require_present_original validate_detached_identity
    validate_detached_original validate_bound_detached validate_restore_detached validate_optional
    validate_displaced validate_restore_plan validate_restore_result validate_lifecycle_structure
    restore_intent_matches_header is_installed_origin lifecycle_requires_placeholder is_capture
    reason_given validate_placeholder validate_original captured_size path_from_hex path_to_hex
    record_lexical normalized_paths validate_snapshot binds_restoration displaced_as_planned
    completes_restoration starts_restoration starts_offline_restoration same_result transition
    lifecycle_transition_is_valid same_capture installs plans_install mounted_update
    placeholder_kept blocking validate_progress validate_successor_fields is_first_capture
    validate_against validate_successor Bytes-discrete Option_Bytes-discrete Bool-discrete
    ℕ_discrete ℤ-discrete commit stage_commit transact end_transaction load_record load_found
    load_finalization row_of write_row changed_one decode_row decode_finalization revision_to_sql
    revision_from_sql phase_column write_stored sqlite_store apply_write update_contents
    settle_commit from_store is_mount_intent next_contents observe find_handle may_write
    replace_content checked_write_end written_contents resize copy_at slice_content successor
    Access-discrete
acknowledged = refl

write_stored-durable_example :
    (path : FilePath) × (path_from_hex plain mounted_record.header.path_hex ≡ ok path)
    × (load_record plain root_dir_path two_headers table
          (write_stored plain root_dir_path two_headers table shared mounted_tables 1 0
            (ascii "k")).2
          path
        ≡ ok (
            present_entry
              (write_stored plain root_dir_path two_headers table shared mounted_tables 1 0
                (ascii "k")).1.content))
    × (slice_content
          (write_stored plain root_dir_path two_headers table shared mounted_tables 1 0
            (ascii "k")).1.content.contents
          0
          1
        ≡ ascii "k")
write_stored-durable_example =
    write_stored-durable plain root_dir_path two_headers table lawful_here shared mounted_tables 1 0
      (ascii "k") 1 acknowledged

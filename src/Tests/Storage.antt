-- ===== src/Tests/Storage.antt =====
-- The SQLite store on a small table: src/store/sqlite.rs.
use file_guard.Prelude.{
  ℕ, ◌≡◌, refl, sym, ap, ◌≢◌, inl, inr, false, Option, none, some, List, [], ◌∷◌, ℕ_discrete,
  if◌then◌else◌, Bool-cases, ◌==◌, ℕ_eq, ==_refl, eq_of_==, Bytes, Bytes-discrete, Bytes_eq,
  Option_Bytes-discrete, Option_Bytes_eq, Bool-discrete, Bool_eq, ok, err, ok_inj,
}
use file_guard.Prelude.Int.{pos, ℤ-discrete}
use file_guard.Process.{ascii}
use file_guard.Files.Utf8.{valid_utf8, is_ascii_hexdigit, to_ascii_lowercase}
use file_guard.Files.FilePath.{
  split_slash, body, relative, components_of, components, ◌=path=◌, has_root, is_absolute,
}
use file_guard.Files.Lexical.{render_names, render, push_components, absolute_lexical}
use file_guard.Record.{
  metadata, existed, captured, RecordHeader, SnapshotRecord, Entry, present_entry, StoreError,
  serialization, StoreResult, next_revision, version, Timestamp-discrete, ObjectIdentity-discrete,
  Option_ObjectIdentity-discrete, RestoreOrigin-discrete, UnmountNext-discrete,
  RestorePlan-discrete, RestoreResult-discrete, Lifecycle-discrete, ExtendedAttribute-discrete,
  RestoreMetadata-discrete, OriginalState-discrete, RecordVersion-discrete, RecordHeader-discrete,
  SnapshotRecord-discrete, Timestamp_eq, Option_ObjectIdentity_eq, ObjectIdentity_eq,
  RestoreOrigin_eq, Lifecycle_eq, OriginalState_eq, RecordVersion_eq, SnapshotRecord_eq,
  UnmountNext_eq,
}
use file_guard.Record.Checks.{
  nanoseconds_in_range, validate_timestamp, validate_identity, lt_bytes, after_previous, has_byte,
  validate_xattrs, validate_metadata, validate_token, validate_entry_name,
  identities_match_after_rename,
}
use file_guard.Record.Structure.{
  unwrap, is_some, require_present_original, validate_detached_identity, validate_detached_original,
  validate_bound_detached, validate_restore_detached, validate_optional, validate_displaced,
  validate_restore_plan, validate_restore_result, validate_lifecycle_structure,
  restore_intent_matches_header, is_installed_origin, lifecycle_requires_placeholder,
}
use file_guard.Record.Snapshot.{
  is_capture, reason_given, validate_placeholder, validate_original, captured_size, path_from_hex,
  path_to_hex, record_lexical, normalized_paths, validate_snapshot,
}
use file_guard.Record.Transition.{
  binds_restoration, displaced_as_planned, completes_restoration, starts_restoration,
  starts_offline_restoration, same_result, transition, lifecycle_transition_is_valid, same_capture,
  installs, plans_install, mounted_update, placeholder_kept, blocking, validate_progress,
  validate_successor_fields, is_first_capture, validate_against, validate_successor,
}
use file_guard.Record.History.{History}
use file_guard.Store.Rows.{
  StoredRow, Json, revision_from_sql, revision_to_sql, phase_column, decode_row,
  decode_finalization,
}
use file_guard.Store.Sqlite.{
  Connection, load_finalization, load_found, load_record, end_transaction, transact, row_of,
  write_row, changed_one, stage_commit, commit,
}
use file_guard.Store.Statements.{Statements}
use file_guard.Store.Provenance.{
  Write, write_commit, after_write, after_writes, load_record-History, load_record-commit,
}
use file_guard.Tests.Records.{plain, root_dir_path, token_bytes, revision_at, file_path}

abbrev first : SnapshotRecord
first = revision_at 1 captured none none

-- A coding for one header.
abbrev one_header : Json
one_header = record {
  encode_snapshot_header = λ header. elim (RecordHeader-discrete header first.header) [
    | yes same ↦ ok (0 ∷ [])
    | no differs ↦ err (serialization "another header")
  ];
  decode_snapshot_header = λ bytes. ok first.header;
  encode_finalization_header = λ marker. err (serialization "a marker");
  decode_finalization_header = λ bytes. err (serialization "a marker");
}

abbrev pub put : Bytes → Option StoredRow → (Bytes → Option StoredRow) → Bytes → Option StoredRow
put key row tables path = if path == key then row else tables path

-- The snapshots by their path.
abbrev pub table : Connection
table = record {
  Tables = Bytes → Option StoredRow;
  begin_immediate = λ tables. ok tt;
  commit_transaction = λ before made. (ok tt, made);
  snapshot_row = λ tables path. ok (tables path);
  finalization_row = λ tables path. ok none;
  snapshot_rows = λ tables. ok [];
  finalization_rows = λ tables. ok [];
  insert_snapshot = λ tables row. ok (1, put row.path (some row) tables);
  update_snapshot = λ tables generation revision row.
      ok (1, put row.path (some (record row { generation = generation })) tables);
  delete_snapshot = λ tables path generation revision. ok (1, put path none tables);
  insert_finalization = λ tables row. ok (1, tables);
  delete_finalization = λ tables path generation revision. ok (1, tables);
  overlap = λ tables. ok false;
  quick_check = λ tables. ok tt;
}

put_here :
    (key : Bytes) (row : Option StoredRow) (tables : Bytes → Option StoredRow)
    → put key row tables key ≡ row
put_here key row tables = rw (==_refl key)

put_elsewhere :
    (key : Bytes) (row : Option StoredRow) (tables : Bytes → Option StoredRow) (path : Bytes)
    → path ≢ key
    → put key row tables path ≡ tables path
put_elsewhere key row tables path differs = elim (Bool-cases (path == key)) [
  | inl same ↦ absurd (differs (eq_of_== path key same))
  | inr other ↦ rw other
]

made_of :
    {made tables : Bytes → Option StoredRow}
    → ◌≡◌ {A = StoreResult (ℕ × (Bytes → Option StoredRow))} (ok (1, tables)) (ok (1, made))
    → made ≡ tables
made_of h = ap (λ x. x.1) (sym (ok_inj h))

ok_not_err : {e : StoreError} → ¬ (◌≡◌ {A = StoreResult (Unit {0})} (ok tt) (err e))
ok_not_err h = cc

decoded_lem :
    (header : RecordHeader) (d : Dec (header ≡ first.header)) {bytes : Bytes}
    → ◌≡◌ {A = StoreResult Bytes}
        (elim d [ yes same ↦ ok (0 ∷ []) | no differs ↦ err (serialization "another header") ])
        (ok bytes)
    → ◌≡◌ {A = StoreResult RecordHeader} (ok first.header) (ok header)
decoded_lem header (yes same) h = ap ok (sym same)
decoded_lem header (no differs) h = cc

-- The table with a coding that reads what it wrote.
pub lawful_with :
    (json : Json)
    → ((header : RecordHeader) (bytes : Bytes)
        → json.encode_snapshot_header header ≡ ok bytes
        → json.decode_snapshot_header bytes ≡ ok header)
    → Statements json table
lawful_with json decodes = record {
  committed = λ before made after h. ap (λ x. x.1) (sym h);
  uncertain = λ before made after e h. absurd (ok_not_err (ap (λ x. x.0) h));
  inserted = λ tables made row h. rw (made_of h) (ap ok (put_here row.path (some row) tables));
  insert_others = λ tables made row path h differs.
      rw (made_of h) (ap ok (put_elsewhere row.path (some row) tables path differs));
  updated = λ tables made generation revision row h.
      rw (made_of h)
        (ap ok (put_here row.path (some (record row { generation = generation })) tables));
  update_others = λ tables made generation revision row path h differs.
      rw (made_of h) (ap ok (put_elsewhere row.path _ tables path differs));
  deleted =
      λ tables made path generation revision h. rw (made_of h) (ap ok (put_here path none tables));
  delete_others = λ tables made path generation revision other h differs.
      rw (made_of h) (ap ok (put_elsewhere path none tables other differs));
  marked = λ tables made row count path h. ap (λ t. ok (t path)) (ap (λ x. x.1) (sym (ok_inj h)));
  unmarked = λ tables made key generation revision count path h.
      ap (λ t. ok (t path)) (ap (λ x. x.1) (sym (ok_inj h)));
  decoded = decodes;
}

lawful : Statements one_header table
lawful =
    lawful_with one_header
      (λ header bytes h. decoded_lem header (RecordHeader-discrete header first.header) h)

abbrev pub empty_tables : Bytes → Option StoredRow
empty_tables path = none

abbrev writes : List Write
writes = write_commit file_path none first ∷ []

loaded_first :
    load_record plain root_dir_path one_header table
      (after_writes plain root_dir_path one_header table writes empty_tables)
      file_path
    ≡ ok (present_entry first)
unfolding valid_utf8 is_ascii_hexdigit to_ascii_lowercase split_slash body relative components_of
    components ◌=path=◌ has_root is_absolute render_names render push_components absolute_lexical
    metadata existed next_revision version Timestamp-discrete ObjectIdentity-discrete
    Option_ObjectIdentity-discrete RestoreOrigin-discrete UnmountNext-discrete RestorePlan-discrete
    RestoreResult-discrete Lifecycle-discrete ExtendedAttribute-discrete RestoreMetadata-discrete
    OriginalState-discrete RecordVersion-discrete RecordHeader-discrete SnapshotRecord-discrete
    nanoseconds_in_range validate_timestamp validate_identity lt_bytes after_previous has_byte
    validate_xattrs validate_metadata validate_token validate_entry_name
    identities_match_after_rename unwrap is_some require_present_original validate_detached_identity
    validate_detached_original validate_bound_detached validate_restore_detached validate_optional
    validate_displaced validate_restore_plan validate_restore_result validate_lifecycle_structure
    restore_intent_matches_header is_installed_origin lifecycle_requires_placeholder is_capture
    reason_given validate_placeholder validate_original captured_size path_from_hex path_to_hex
    record_lexical normalized_paths validate_snapshot binds_restoration displaced_as_planned
    completes_restoration starts_restoration starts_offline_restoration same_result transition
    lifecycle_transition_is_valid same_capture installs plans_install mounted_update
    placeholder_kept blocking validate_progress validate_successor_fields is_first_capture
    validate_against validate_successor Bytes-discrete Option_Bytes-discrete Bool-discrete
    ℕ_discrete ℤ-discrete commit after_write after_writes stage_commit transact end_transaction
    load_record load_found load_finalization row_of write_row changed_one decode_row
    decode_finalization revision_to_sql revision_from_sql phase_column
loaded_first = refl

load_record-History_example :
    (origin : SnapshotRecord) × History plain root_dir_path file_path origin first
load_record-History_example =
    load_record-History plain root_dir_path one_header table lawful writes empty_tables file_path
      first (λ path. refl) loaded_first

abbrev first_row : StoredRow
first_row = record {
  path = ascii "/k";
  generation = token_bytes;
  revision = pos 1;
  phase = ascii "captured";
  header = 0 ∷ [];
  contents = [];
}

committed_first :
    commit plain root_dir_path one_header table empty_tables file_path none first
    ≡ (ok (version first), put (ascii "/k") (some first_row) empty_tables)
unfolding valid_utf8 is_ascii_hexdigit to_ascii_lowercase split_slash body relative components_of
    components ◌=path=◌ has_root is_absolute render_names render push_components absolute_lexical
    metadata existed next_revision version Timestamp-discrete ObjectIdentity-discrete
    Option_ObjectIdentity-discrete RestoreOrigin-discrete UnmountNext-discrete RestorePlan-discrete
    RestoreResult-discrete Lifecycle-discrete ExtendedAttribute-discrete RestoreMetadata-discrete
    OriginalState-discrete RecordVersion-discrete RecordHeader-discrete SnapshotRecord-discrete
    nanoseconds_in_range validate_timestamp validate_identity lt_bytes after_previous has_byte
    validate_xattrs validate_metadata validate_token validate_entry_name
    identities_match_after_rename unwrap is_some require_present_original validate_detached_identity
    validate_detached_original validate_bound_detached validate_restore_detached validate_optional
    validate_displaced validate_restore_plan validate_restore_result validate_lifecycle_structure
    restore_intent_matches_header is_installed_origin lifecycle_requires_placeholder is_capture
    reason_given validate_placeholder validate_original captured_size path_from_hex path_to_hex
    record_lexical normalized_paths validate_snapshot binds_restoration displaced_as_planned
    completes_restoration starts_restoration starts_offline_restoration same_result transition
    lifecycle_transition_is_valid same_capture installs plans_install mounted_update
    placeholder_kept blocking validate_progress validate_successor_fields is_first_capture
    validate_against validate_successor Bytes-discrete Option_Bytes-discrete Bool-discrete
    ℕ_discrete ℤ-discrete commit after_write after_writes stage_commit transact end_transaction
    load_record load_found load_finalization row_of write_row changed_one decode_row
    decode_finalization revision_to_sql revision_from_sql phase_column
committed_first = refl

load_record-commit_example :
    (version first ≡ version first)
    × (load_record plain root_dir_path one_header table
          (put (ascii "/k") (some first_row) empty_tables)
          file_path
        ≡ ok (present_entry first))
    × ((current : Entry) × (load_record plain root_dir_path one_header table empty_tables file_path
          ≡ ok current)
        × (validate_successor plain root_dir_path file_path none current first ≡ ok tt))
load_record-commit_example =
    load_record-commit plain root_dir_path one_header table lawful empty_tables
      (put (ascii "/k") (some first_row) empty_tables) file_path none first (version first)
      committed_first

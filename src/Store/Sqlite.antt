-- ===== src/Store/Sqlite.antt =====
-- The operations of `SqliteStore` in src/store/sqlite.rs, over the statements that it gives to
-- SQLite. A transaction works on a copy of the tables; when it is dropped, the tables are as before.
use file_guard.Prelude.{
  ℕ, String, Bool, true, false, not, ◌||◌, Option, none, some, List, ◌++◌, ◌==◌, ◌!=◌, ℕ_eq, Bytes,
  Bytes_eq, Option_Bytes_eq, Bool_eq, ok, err, ◌>>=◌, ◌>>◌, ensure, collect,
}
use file_guard.Prelude.Int.{ℤ}
use file_guard.Files.FilePath.{FilePath}
use file_guard.Record.{
  Lifecycle, delete_intent, SnapshotRecord, RecordVersion, FinalizationRecord, Entry, missing,
  present_entry, finalizing, corrupt, conflict, indeterminate, StoreResult, Codec, next_revision,
  version, marker_version, Timestamp_eq, Option_ObjectIdentity_eq, ObjectIdentity_eq,
  RestoreOrigin_eq, Lifecycle_eq, OriginalState_eq, RecordVersion_eq, SnapshotRecord_eq,
  UnmountNext_eq,
}
use file_guard.Record.Structure.{is_some}
use file_guard.Record.Snapshot.{path_to_hex, validate_finalization}
use file_guard.Record.Transition.{validate_successor}
use file_guard.Store.Rows.{
  StoredRow, StoredFinalization, Json, revision_to_sql, phase_column, decode_row,
  decode_finalization,
}

-- What the store asks of SQLite: each statement of the source, by its purpose. A statement that
-- changes rows returns how many.
pub record Connection : Type 1 where
  pub Tables : Type 0
  pub begin_immediate : Tables → StoreResult (Unit {0})
  -- The tables before the transaction, and those that it made.
  pub commit_transaction : Tables → Tables → StoreResult (Unit {0}) × Tables
  pub snapshot_row : Tables → Bytes → StoreResult (Option StoredRow)
  pub finalization_row : Tables → Bytes → StoreResult (Option StoredFinalization)
  pub snapshot_rows : Tables → StoreResult (List StoredRow)
  pub finalization_rows : Tables → StoreResult (List StoredFinalization)
  pub insert_snapshot : Tables → StoredRow → StoreResult (ℕ × Tables)
  -- `WHERE path = .. AND generation = .. AND revision = ..`
  pub update_snapshot : Tables → Bytes → ℤ → StoredRow → StoreResult (ℕ × Tables)
  pub delete_snapshot : Tables → Bytes → Bytes → ℤ → StoreResult (ℕ × Tables)
  pub insert_finalization : Tables → StoredFinalization → StoreResult (ℕ × Tables)
  pub delete_finalization : Tables → Bytes → Bytes → ℤ → StoreResult (ℕ × Tables)
  -- Whether a path has a row in both tables, and `PRAGMA quick_check(1)`.
  pub overlap : Tables → StoreResult Bool
  pub quick_check : Tables → StoreResult (Unit {0})

unfoldable pub is_deletion : Lifecycle → Bool
is_deletion (delete_intent result) = true
is_deletion _ = false

module _ (codec : Codec) (current_dir : StoreResult FilePath) (json : Json) (c : Connection) where
  unfoldable pub load_finalization : Option StoredFinalization → StoreResult Entry
  unfolding decode_finalization
  load_finalization none = ok missing
  load_finalization (some row) = do
    marker ← decode_finalization codec current_dir json row
    ok (finalizing marker)

  unfoldable pub load_found : c.Tables → FilePath → Option StoredRow → StoreResult Entry
  unfolding decode_row load_finalization
  load_found tables file_id (some row) = do
    r ← decode_row codec current_dir json row
    ok (present_entry r)
  load_found tables file_id none = do
    row ← c.finalization_row tables file_id.bytes
    load_finalization row

  unfoldable pub load_record : c.Tables → FilePath → StoreResult Entry
  unfolding load_found
  load_record tables file_id = do
    row ← c.snapshot_row tables file_id.bytes
    load_found tables file_id row

  -- The end of a transaction: dropped on an error, committed otherwise.
  unfoldable pub end_transaction {ℓ} :
      {A : Type ℓ} → StoreResult (Unit {0}) × c.Tables → A → StoreResult A × c.Tables
  end_transaction (ok done, after) a = (ok a, after)
  end_transaction (err e, after) a =
      (err (indeterminate "SQLite commit returned an uncertain result"), after)

  unfoldable pub transact {ℓ} :
      {A : Type ℓ} → c.Tables → StoreResult c.Tables → A → StoreResult A × c.Tables
  unfolding end_transaction
  transact tables (err e) a = (err e, tables)
  transact tables (ok made) a = end_transaction (c.commit_transaction tables made) a

  unfoldable pub row_of : FilePath → SnapshotRecord → Bytes → ℤ → StoredRow
  unfolding phase_column
  row_of file_id next header revision = record {
    path = file_id.bytes;
    generation = next.header.generation;
    revision = revision;
    phase = phase_column next.header.lifecycle;
    header = header;
    contents = next.contents;
  }

  -- The statement of `commit`, on whether a revision is expected.
  unfoldable pub write_row :
      c.Tables → Option RecordVersion → StoredRow → StoreResult (ℕ × c.Tables)
  unfolding revision_to_sql
  write_row tables none row = c.insert_snapshot tables row
  write_row tables (some expected) row = do
    revision ← revision_to_sql expected.revision
    c.update_snapshot tables expected.generation revision row

  unfoldable pub changed_one : String → ℕ × c.Tables → StoreResult c.Tables
  changed_one reason done = do ensure (done.0 == 1) (conflict reason); ok done.1

  unfoldable pub stage_commit :
      c.Tables → FilePath → Option RecordVersion → SnapshotRecord → StoreResult c.Tables
  unfolding load_record validate_successor row_of revision_to_sql write_row changed_one
  stage_commit tables file_id expected next = do
    c.begin_immediate tables
    current ← load_record tables file_id
    validate_successor codec current_dir file_id expected current next
    header ← json.encode_snapshot_header next.header
    revision ← revision_to_sql next.header.revision
    done ← write_row tables expected (row_of file_id next header revision)
    changed_one "snapshot compare-and-swap changed no row" done

  unfoldable pub commit :
      c.Tables
      → FilePath
      → Option RecordVersion
      → SnapshotRecord
      → StoreResult RecordVersion × c.Tables
  unfolding stage_commit transact version
  commit tables file_id expected next =
      transact tables (stage_commit tables file_id expected next) (version next)

  unfoldable pub require_snapshot : String → Entry → StoreResult SnapshotRecord
  require_snapshot reason (present_entry r) = ok r
  require_snapshot reason missing = err (conflict reason)
  require_snapshot reason (finalizing marker) = err (conflict reason)

  unfoldable pub require_marker : Entry → StoreResult FinalizationRecord
  require_marker (finalizing marker) = ok marker
  require_marker missing = err (conflict "finalization marker is already absent")
  require_marker (present_entry r) = err (conflict "finalization marker is already absent")

  unfoldable pub stage_finalization :
      c.Tables → FilePath → RecordVersion → FinalizationRecord → StoreResult c.Tables
  unfolding load_record require_snapshot is_deletion is_some revision_to_sql changed_one version
      next_revision
  stage_finalization tables file_id expected marker = do
    validate_finalization codec current_dir marker
    ensure
        (not (
          marker.path_hex != path_to_hex codec file_id
          || marker.generation != expected.generation
          || marker.revision != next_revision expected.revision))
        (conflict "finalization marker does not succeed the snapshot")
    c.begin_immediate tables
    entry ← load_record tables file_id
    current ← require_snapshot "snapshot is not available for finalization" entry
    ensure (version current == expected) (conflict "snapshot revision changed before deletion")
    ensure
        (not (is_some current.header.blocked_reason || not (is_deletion current.header.lifecycle)))
        (conflict "snapshot finalization requires an unblocked deletion intent")
    header ← json.encode_finalization_header marker
    revision ← revision_to_sql marker.revision
    marked ← c.insert_finalization tables (record {
      path = file_id.bytes;
      generation = marker.generation;
      revision = revision;
      header = header;
    })
    expected_revision ← revision_to_sql expected.revision
    done ← c.delete_snapshot marked.1 file_id.bytes expected.generation expected_revision
    changed_one "snapshot finalization compare-and-swap deleted no row" done

  unfoldable pub begin_finalization :
      c.Tables
      → FilePath
      → RecordVersion
      → FinalizationRecord
      → StoreResult RecordVersion × c.Tables
  unfolding stage_finalization transact marker_version
  begin_finalization tables file_id expected marker =
      transact tables (stage_finalization tables file_id expected marker) (marker_version marker)

  unfoldable pub stage_deletion : c.Tables → FilePath → RecordVersion → StoreResult c.Tables
  unfolding load_record require_marker revision_to_sql changed_one marker_version
  stage_deletion tables file_id expected = do
    c.begin_immediate tables
    entry ← load_record tables file_id
    marker ← require_marker entry
    ensure (marker_version marker == expected)
        (conflict "finalization marker revision changed before deletion")
    revision ← revision_to_sql expected.revision
    done ← c.delete_finalization tables file_id.bytes expected.generation revision
    changed_one "finalization marker compare-and-swap deleted no row" done

  unfoldable pub finish_finalization :
      c.Tables → FilePath → RecordVersion → StoreResult (Unit {0}) × c.Tables
  unfolding stage_deletion transact
  finish_finalization tables file_id expected =
      transact tables (stage_deletion tables file_id expected) tt

  unfoldable pub decode_present : StoredRow → StoreResult Entry
  unfolding decode_row
  decode_present row = do r ← decode_row codec current_dir json row; ok (present_entry r)

  unfoldable pub list : c.Tables → StoreResult (List Entry)
  unfolding decode_present load_finalization
  list tables = do
    rows ← c.snapshot_rows tables
    snapshots ← collect decode_present rows
    marker_rows ← c.finalization_rows tables
    markers ← collect (λ row. load_finalization (some row)) marker_rows
    ok (snapshots ++ markers)

  unfoldable pub verify_database : c.Tables → StoreResult (Unit {0})
  unfolding decode_row decode_finalization
  verify_database tables = do
    c.quick_check tables
    rows ← c.snapshot_rows tables
    collect (decode_row codec current_dir json) rows
    marker_rows ← c.finalization_rows tables
    collect (decode_finalization codec current_dir json) marker_rows
    overlaps ← c.overlap tables
    ensure (not overlaps) (corrupt "a path has both a snapshot and a finalization marker")

-- ===== src/Store/Rows.antt =====
-- The rows of the snapshot database: `decode_row` and `decode_finalization` of src/store/record.rs,
-- over the JSON coding of `serde_json`.
use file_guard.Prelude.{
  ℕ, ◌^◌, ◌&&◌, ltb, if◌then◌else◌, ◌==◌, ℕ_eq, Bytes, Bytes_eq, Option_Bytes_eq, Bool_eq, ok, err,
  ◌>>=◌, ◌>>◌, ensure,
}
use file_guard.Prelude.Int.{ℤ, pos, negsuc}
use file_guard.Process.{ascii}
use file_guard.Files.FilePath.{FilePath}
use file_guard.Record.{
  Lifecycle, RecordHeader, SnapshotRecord, FinalizationRecord, corrupt, StoreResult, Codec,
  Timestamp_eq, Option_ObjectIdentity_eq, ObjectIdentity_eq, RestoreOrigin_eq, Lifecycle_eq,
  OriginalState_eq, RecordVersion_eq, SnapshotRecord_eq, UnmountNext_eq,
}
use file_guard.Record.Structure.{phase_name}
use file_guard.Record.Snapshot.{validate_snapshot, validate_finalization}

pub record StoredRow : Type 0 where
  pub path : Bytes
  pub generation : Bytes
  pub revision : ℤ
  pub phase : Bytes
  pub header : Bytes
  pub contents : Bytes

pub record StoredFinalization : Type 0 where
  pub path : Bytes
  pub generation : Bytes
  pub revision : ℤ
  pub header : Bytes

-- What the rows take from `serde_json`.
pub record Json : Type 0 where
  pub encode_snapshot_header : RecordHeader → StoreResult Bytes
  pub decode_snapshot_header : Bytes → StoreResult RecordHeader
  pub encode_finalization_header : FinalizationRecord → StoreResult Bytes
  pub decode_finalization_header : Bytes → StoreResult FinalizationRecord

-- `u64::try_from` of an `i64`.
unfoldable pub revision_from_sql : ℤ → StoreResult ℕ
revision_from_sql (pos n) = ok n
revision_from_sql (negsuc n) = err (corrupt "revision is out of range")

-- `i64::try_from` of a `u64`.
unfoldable pub revision_to_sql : ℕ → StoreResult ℤ
revision_to_sql revision =
    if ltb revision (2 ^ 63)
    then ok (pos revision)
    else err (corrupt "snapshot revision is out of range")

-- The column that names the phase.
unfoldable pub phase_column : Lifecycle → Bytes
phase_column lifecycle = ascii (phase_name lifecycle)

module _ (codec : Codec) (current_dir : StoreResult FilePath) (json : Json) where
  unfoldable pub decode_row : StoredRow → StoreResult SnapshotRecord
  unfolding revision_from_sql phase_column
  decode_row row = do
    header ← json.decode_snapshot_header row.header
    revision ← revision_from_sql row.revision
    ensure
        (header.path_hex == codec.hex_encode row.path
          && header.generation == row.generation
          && header.revision == revision
          && phase_column header.lifecycle == row.phase)
        (corrupt "snapshot row indexes disagree with its header")
    validate_snapshot codec current_dir (record { header = header; contents = row.contents })
    ok (record { header = header; contents = row.contents })

  unfoldable pub decode_finalization : StoredFinalization → StoreResult FinalizationRecord
  unfolding revision_from_sql
  decode_finalization row = do
    marker ← json.decode_finalization_header row.header
    revision ← revision_from_sql row.revision
    ensure
        (marker.path_hex == codec.hex_encode row.path
          && marker.generation == row.generation
          && marker.revision == revision)
        (corrupt "finalization row indexes disagree with its header")
    validate_finalization codec current_dir marker
    ok marker

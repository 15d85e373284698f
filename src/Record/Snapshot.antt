-- ===== src/Record/Snapshot.antt =====
-- `validate_snapshot` and `validate_finalization` of src/store/record.rs.
use file_guard.Prelude.{
  bit_and, Bool, true, false, not, ◌&&◌, ◌||◌, Option, none, some, [], leb, if◌then◌else◌, ◌==◌,
  ◌!=◌, ℕ_eq, Bytes, Bytes_eq, Option_Bytes_eq, Bool_eq, length, ok, err, ◌>>=◌, ◌>>◌, ensure,
  ok_or,
}
use file_guard.Files.FilePath.{FilePath, ◌=path=◌, is_absolute}
use file_guard.Files.Lexical.{absolute_lexical}
use file_guard.Record.{
  max_credential_size, format_version, ObjectIdentity, OriginalState, present, absent, metadata,
  Lifecycle, captured, install_intent, RecordHeader, SnapshotRecord, FinalizationRecord,
  unsupported_format, corrupt, StoreResult, Codec, Timestamp_eq, Option_ObjectIdentity_eq,
  ObjectIdentity_eq, RestoreOrigin_eq, Lifecycle_eq, OriginalState_eq, RecordVersion_eq,
  SnapshotRecord_eq,
}
use file_guard.Record.Checks.{
  s_ifdir, s_ifreg, mode_bits, validate_identity, validate_metadata, validate_token,
  validate_entry_name,
}
use file_guard.Record.Structure.{validate_lifecycle_structure, lifecycle_requires_placeholder}

unfoldable pub is_capture : Lifecycle → Bool
is_capture captured = true
is_capture install_intent = true
is_capture _ = false

unfoldable pub reason_given : Option Bytes → Bool
reason_given none = true
reason_given (some reason) = reason != []

-- The `match` on the placeholder that a phase requires.
unfoldable pub validate_placeholder : Bool → Option ObjectIdentity → StoreResult (Unit {0})
validate_placeholder true (some identity) = validate_identity identity s_ifreg "placeholder"
validate_placeholder true none = err (corrupt "snapshot phase requires a placeholder identity")
validate_placeholder false none = ok tt
validate_placeholder false (some identity) =
    err (corrupt "snapshot phase cannot retain a placeholder identity")

unfoldable pub validate_original : RecordHeader → OriginalState → StoreResult (Unit {0})
validate_original header (present identity kept) = do
  validate_identity identity s_ifreg "original"
  ensure (not (identity.links != 1 || not header.logical_present))
      (corrupt "present originals must be singly linked and logically present")
validate_original header (absent presentation) = ok tt

unfoldable pub captured_size : Lifecycle → OriginalState → Bytes → Bool
unfolding is_capture
captured_size lifecycle (present identity kept) contents =
    not (is_capture lifecycle && identity.size != length contents)
captured_size lifecycle (absent presentation) contents = true

-- `path_from_hex`
unfoldable pub path_from_hex : Codec → Bytes → StoreResult FilePath
path_from_hex codec value = do
  bytes ← ok_or (codec.hex_decode value) (corrupt "invalid encoded path")
  ok (record { bytes = bytes })

-- `path_to_hex`
unfoldable pub path_to_hex : Codec → FilePath → Bytes
path_to_hex codec path = codec.hex_encode path.bytes

module _ (codec : Codec) (current_dir : StoreResult FilePath) where
  -- `absolute_lexical` of src/store/record.rs.
  unfoldable pub record_lexical : FilePath → StoreResult FilePath
  record_lexical =
      absolute_lexical current_dir (unsupported_format "path escapes the filesystem root")

  -- A path that is absolute and its own normal form; the second lookup is skipped after the first.
  unfoldable pub normalized_paths : FilePath → FilePath → StoreResult Bool
  normalized_paths path staging =
      if not (is_absolute path) || not (is_absolute staging) then ok false else do
        normal_path ← record_lexical path
        if not (normal_path =path= path)
            then ok false
            else do normal_staging ← record_lexical staging; ok (normal_staging =path= staging)

  unfoldable pub validate_snapshot : SnapshotRecord → StoreResult (Unit {0})
  unfolding reason_given validate_placeholder validate_original captured_size
  validate_snapshot r = do
    let header = r.header
    ensure (header.format == format_version) (corrupt "snapshot format is unsupported")
    ensure (header.revision != 0) (corrupt "snapshot revision must be positive")
    validate_token header.generation "generation"
    validate_token header.mount_token "mount token"
    ensure (leb (length r.contents) max_credential_size)
        (corrupt "credential exceeds the maximum snapshot size")
    ensure (header.content_sha256 == codec.sha256 r.contents)
        (corrupt "snapshot content digest is incorrect")
    ensure (reason_given header.blocked_reason) (corrupt "blocked snapshots require a reason")
    path ← path_from_hex codec header.path_hex
    staging ← path_from_hex codec header.staging_path_hex
    normalized ← normalized_paths path staging
    ensure normalized (corrupt "snapshot paths must be absolute and normalized")
    validate_entry_name header.swap_name
    validate_entry_name header.stored_name
    validate_identity header.parent s_ifdir "parent"
    validate_placeholder (lifecycle_requires_placeholder header.lifecycle) header.placeholder
    validate_metadata codec (metadata header.original)
    validate_original header header.original
    ensure (header.logical_present || r.contents == [])
        (corrupt "logically absent credentials must have empty contents")
    ensure (captured_size header.lifecycle header.original r.contents)
        (corrupt "captured contents length disagrees with the original identity")
    validate_lifecycle_structure header header.lifecycle

  unfoldable pub validate_final :
      FinalizationRecord → Option ObjectIdentity → Bool → StoreResult (Unit {0})
  validate_final marker (some identity) true = do
    validate_identity identity s_ifreg "final restoration"
    ensure
        (not (
          identity.links != 1
          || identity.size != marker.content_length
          || identity.uid != marker.restore_metadata.uid
          || identity.gid != marker.restore_metadata.gid
          || bit_and identity.mode mode_bits != marker.restore_metadata.mode
          || identity.mtime != marker.restore_metadata.mtime))
        (corrupt "final restoration identity disagrees with its metadata")
  validate_final marker none false =
      ensure (marker.content_length == 0 && marker.content_sha256 == codec.sha256 [])
        (corrupt "absent finalization has non-empty content metadata")
  validate_final marker none true = err (corrupt "present finalization has no restoration inode")
  validate_final marker (some identity) false =
      err (corrupt "absent finalization has a restoration inode")

  unfoldable pub validate_finalization : FinalizationRecord → StoreResult (Unit {0})
  unfolding validate_final
  validate_finalization marker = do
    ensure (not (marker.format != format_version || marker.revision == 0))
        (corrupt "finalization marker has an unsupported format or revision")
    validate_token marker.generation "generation"
    path ← path_from_hex codec marker.path_hex
    staging ← path_from_hex codec marker.staging_path_hex
    normalized ← normalized_paths path staging
    ensure normalized (corrupt "finalization paths must be absolute and normalized")
    validate_entry_name marker.final_name
    validate_identity marker.parent s_ifdir "finalization parent"
    validate_metadata codec marker.restore_metadata
    ensure (leb marker.content_length max_credential_size)
        (corrupt "finalization content length exceeds the snapshot limit")
    digest ← ok_or (codec.hex_decode marker.content_sha256) (corrupt "invalid content digest")
    ensure (length digest == 32) (corrupt "finalization content digest must contain 32 bytes")
    validate_final marker marker.final_identity marker.logical_present

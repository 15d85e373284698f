-- ===== src/Tests/Records.antt =====
-- A snapshot record through its first steps: src/store/record.rs.
use file_guard.Files.Lexical.Normal.{absolute_lexical-normal}
use file_guard.Prelude.{
  ℕ, ◌+◌, ◌≡◌, refl, true, false, Option, none, some, List, [], ◌∷◌, map, arith, ℕ_discrete, ℕ_eq,
  Bytes, Bytes-discrete, Bytes_eq, Option_Bytes-discrete, Option_Bytes_eq, Bool-discrete, Bool_eq,
  replicate, ok,
}
use file_guard.Prelude.Int.{pos, ℤ-discrete}
use file_guard.Process.{ascii}
use file_guard.Files.Utf8.{valid_utf8, is_ascii_hexdigit, to_ascii_lowercase}
use file_guard.Files.FilePath.{
  FilePath, root_dir, normal, split_slash, body, relative, components_of, components, ◌=path=◌,
  has_root, is_absolute, to_str, join,
}
use file_guard.Files.Lexical.{render_names, render, push_components, absolute_lexical}
use file_guard.Record.{
  Timestamp, RestoreMetadata, ObjectIdentity, absent, metadata, existed, Lifecycle, captured,
  install_intent, SnapshotRecord, missing, present_entry, unsupported_format, StoreResult, Codec,
  next_revision, version, Timestamp-discrete, ObjectIdentity-discrete,
  Option_ObjectIdentity-discrete, RestoreOrigin-discrete, UnmountNext-discrete,
  RestorePlan-discrete, RestoreResult-discrete, Lifecycle-discrete, ExtendedAttribute-discrete,
  RestoreMetadata-discrete, OriginalState-discrete, RecordVersion-discrete, RecordHeader-discrete,
  SnapshotRecord-discrete, Timestamp_eq, Option_ObjectIdentity_eq, ObjectIdentity_eq,
  RestoreOrigin_eq, Lifecycle_eq, OriginalState_eq, RecordVersion_eq, SnapshotRecord_eq,
}
use file_guard.Record.Checks.{
  nanoseconds_in_range, validate_timestamp, validate_identity, lt_bytes, after_previous, has_byte,
  validate_xattrs, validate_metadata, validate_token, validate_entry_name,
  identities_match_after_rename,
}
use file_guard.Record.Structure.{
  unwrap, is_some, require_present_original, validate_detached_identity, validate_detached_original,
  validate_bound_detached, validate_restore_detached, validate_optional, validate_displaced,
  validate_restore_plan, validate_restore_result, validate_lifecycle_structure,
  restore_intent_matches_header, is_installed_origin, lifecycle_requires_placeholder,
}
use file_guard.Record.Snapshot.{
  is_capture, reason_given, validate_placeholder, validate_original, captured_size, path_from_hex,
  path_to_hex, record_lexical, normalized_paths, validate_snapshot,
}
use file_guard.Record.Transition.{
  binds_restoration, displaced_as_planned, completes_restoration, starts_restoration,
  starts_offline_restoration, same_result, transition, lifecycle_transition_is_valid, same_capture,
  installs, plans_install, mounted_update, placeholder_kept, blocking, validate_progress,
  validate_successor_fields, is_first_capture, validate_against, validate_successor,
}
use file_guard.Record.Edges.{SameCapture}
use file_guard.Record.Successor.{Accepted, validate_successor-Accepted}
use file_guard.Record.History.{
  History, begun, continued, updates_made, is_live, SameFile, History-SameCapture, History-SameFile,
  History-revision,
}

-- Texts stand for themselves in place of their hexadecimal digits and digests.
abbrev pub plain : Codec
plain = record { sha256 = λ b. b; hex_encode = λ b. b; hex_decode = λ b. some b }

abbrev pub root_dir_path : StoreResult FilePath
root_dir_path = ok (record { bytes = ascii "/" })

abbrev pub epoch : Timestamp
epoch = record { seconds = pos 0; nanoseconds = pos 0 }

abbrev pub object : ℕ → ObjectIdentity
object mode = record {
  device = 1;
  inode = 7;
  ctime = epoch;
  mtime = epoch;
  size = 0;
  links = 1;
  mode = mode;
  uid = 1000;
  gid = 1000;
}

abbrev pub kept_metadata : RestoreMetadata
kept_metadata = record {
  uid = 1000;
  gid = 1000;
  mode = 0x180;
  atime = epoch;
  mtime = epoch;
  xattrs = [];
}

abbrev pub token_bytes : Bytes
token_bytes = replicate 32 b'a'

abbrev pub revision_at : ℕ → Lifecycle → Option ObjectIdentity → Option Bytes → SnapshotRecord
revision_at n phase placeholder reason = record {
  header = record {
    format = 2;
    path_hex = ascii "/k";
    generation = token_bytes;
    revision = n;
    lifecycle = phase;
    original = absent kept_metadata;
    logical_present = false;
    parent = object 0x4000;
    staging_path_hex = ascii "/s";
    swap_name = ascii "w";
    stored_name = ascii "t";
    placeholder = placeholder;
    mount_token = token_bytes;
    content_sha256 = [];
    blocked_reason = reason;
  };
  contents = [];
}

abbrev pub file_path : FilePath
file_path = record { bytes = ascii "/k" }

abbrev capture_record : SnapshotRecord
capture_record = revision_at 1 captured none none

abbrev intent_record : SnapshotRecord
intent_record = revision_at 2 install_intent (some (object 0x8000)) none

abbrev blocked_record : SnapshotRecord
blocked_record = revision_at 2 captured none (some (ascii "stop"))

accepted_first :
    validate_successor plain root_dir_path file_path none missing capture_record ≡ ok tt
unfolding valid_utf8 is_ascii_hexdigit to_ascii_lowercase split_slash body relative components_of
    components ◌=path=◌ has_root is_absolute render_names render push_components absolute_lexical
    metadata existed next_revision version Timestamp-discrete ObjectIdentity-discrete
    Option_ObjectIdentity-discrete RestoreOrigin-discrete UnmountNext-discrete RestorePlan-discrete
    RestoreResult-discrete Lifecycle-discrete ExtendedAttribute-discrete RestoreMetadata-discrete
    OriginalState-discrete RecordVersion-discrete RecordHeader-discrete SnapshotRecord-discrete
    nanoseconds_in_range validate_timestamp validate_identity lt_bytes after_previous has_byte
    validate_xattrs validate_metadata validate_token validate_entry_name
    identities_match_after_rename unwrap is_some require_present_original validate_detached_identity
    validate_detached_original validate_bound_detached validate_restore_detached validate_optional
    validate_displaced validate_restore_plan validate_restore_result validate_lifecycle_structure
    restore_intent_matches_header is_installed_origin lifecycle_requires_placeholder is_capture
    reason_given validate_placeholder validate_original captured_size path_from_hex path_to_hex
    record_lexical normalized_paths validate_snapshot binds_restoration displaced_as_planned
    completes_restoration starts_restoration starts_offline_restoration same_result transition
    lifecycle_transition_is_valid same_capture installs plans_install mounted_update
    placeholder_kept blocking validate_progress validate_successor_fields is_first_capture
    validate_against validate_successor Bytes-discrete Option_Bytes-discrete Bool-discrete
    ℕ_discrete ℤ-discrete
accepted_first = refl

accepted_intent :
    validate_successor plain root_dir_path file_path
      (some (version capture_record))
      (present_entry capture_record)
      intent_record
    ≡ ok tt
unfolding valid_utf8 is_ascii_hexdigit to_ascii_lowercase split_slash body relative components_of
    components ◌=path=◌ has_root is_absolute render_names render push_components absolute_lexical
    metadata existed next_revision version Timestamp-discrete ObjectIdentity-discrete
    Option_ObjectIdentity-discrete RestoreOrigin-discrete UnmountNext-discrete RestorePlan-discrete
    RestoreResult-discrete Lifecycle-discrete ExtendedAttribute-discrete RestoreMetadata-discrete
    OriginalState-discrete RecordVersion-discrete RecordHeader-discrete SnapshotRecord-discrete
    nanoseconds_in_range validate_timestamp validate_identity lt_bytes after_previous has_byte
    validate_xattrs validate_metadata validate_token validate_entry_name
    identities_match_after_rename unwrap is_some require_present_original validate_detached_identity
    validate_detached_original validate_bound_detached validate_restore_detached validate_optional
    validate_displaced validate_restore_plan validate_restore_result validate_lifecycle_structure
    restore_intent_matches_header is_installed_origin lifecycle_requires_placeholder is_capture
    reason_given validate_placeholder validate_original captured_size path_from_hex path_to_hex
    record_lexical normalized_paths validate_snapshot binds_restoration displaced_as_planned
    completes_restoration starts_restoration starts_offline_restoration same_result transition
    lifecycle_transition_is_valid same_capture installs plans_install mounted_update
    placeholder_kept blocking validate_progress validate_successor_fields is_first_capture
    validate_against validate_successor Bytes-discrete Option_Bytes-discrete Bool-discrete
    ℕ_discrete ℤ-discrete
accepted_intent = refl

history : History plain root_dir_path file_path capture_record intent_record
history =
    continued capture_record capture_record intent_record (begun capture_record accepted_first)
      accepted_intent

validate_successor-Accepted_example : Accepted (version capture_record) capture_record intent_record
validate_successor-Accepted_example =
    validate_successor-Accepted plain root_dir_path file_path (version capture_record)
      capture_record intent_record accepted_intent

History-SameCapture_example : SameCapture capture_record.header intent_record.header
History-SameCapture_example =
    History-SameCapture plain root_dir_path file_path capture_record intent_record history

History-SameFile_example : SameFile capture_record intent_record
unfolding is_live
History-SameFile_example =
    History-SameFile plain root_dir_path file_path capture_record intent_record history refl

History-revision_example :
    intent_record.header.revision ≡ updates_made plain root_dir_path file_path history + 1
unfolding updates_made history
History-revision_example =
    History-revision plain root_dir_path file_path capture_record intent_record history
      (omega arith)

climbed :
    absolute_lexical root_dir_path
      (unsupported_format "escapes")
      (record { bytes = ascii "/a/./../b" })
    ≡ ok (record { bytes = ascii "/b" })
unfolding valid_utf8 is_ascii_hexdigit to_ascii_lowercase split_slash body relative components_of
    components ◌=path=◌ has_root is_absolute to_str join render_names render push_components
    absolute_lexical Bytes-discrete ℕ_discrete
climbed = refl

absolute_lexical-normal_example :
    (is_absolute (record { bytes = ascii "/b" }) ≡ true)
    × ((names : List Bytes) × (components (record { bytes = ascii "/b" })
          ≡ root_dir ∷ map normal names))
    × (absolute_lexical root_dir_path (unsupported_format "escapes") (record { bytes = ascii "/b" })
        ≡ ok (record { bytes = ascii "/b" }))
absolute_lexical-normal_example =
    absolute_lexical-normal root_dir_path (unsupported_format "escapes")
      (record { bytes = ascii "/a/./../b" }) (record { bytes = ascii "/b" }) climbed

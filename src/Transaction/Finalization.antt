-- ===== src/Transaction/Finalization.antt =====
-- The end of a restoration: `begin_finalization`, `finish_finalization` and
-- `retire_restored_target` of src/transaction.rs.
use file_guard.Prelude.{
  Bool, false, not, ◌&&◌, Option, none, some, ℕ_discrete, if◌then◌else◌, Eq, ◌==◌, ℕ_eq,
  discrete_eq, Bytes, Bytes-discrete, Bytes_eq, Option_Bytes_eq, Bool-discrete, Bool_eq, length, ok,
  err,
}
use file_guard.Process.{ascii}
use file_guard.Files.FilePath.{FilePath}
use file_guard.Record.{
  format_version, ObjectIdentity, metadata, SnapshotRecord, RecordVersion, FinalizationRecord,
  Entry, missing, present_entry, finalizing, Codec, next_revision, version, marker_version,
  ObjectIdentity-discrete, Option_ObjectIdentity-discrete, RestoreMetadata-discrete, Timestamp_eq,
  Option_ObjectIdentity_eq, ObjectIdentity_eq, RestoreOrigin_eq, Lifecycle_eq, OriginalState_eq,
  RecordVersion_eq, SnapshotRecord_eq,
}
use file_guard.Record.Structure.{is_some}
use file_guard.Record.Snapshot.{path_from_hex}
use file_guard.Fuse.Commit.{TransactionError, Outcome, from_store}
use file_guard.Transaction.System.{
  Effect, System, World, ◌>>=◌, ◌>>◌, give, fail, bail, lift, attempt, require, disk, stored_call,
}
use file_guard.Transaction.Commits.{same_object, same_file_after_rename, Layout, look, rename}

unfoldable pub FinalizationRecord-discrete : Discrete FinalizationRecord
FinalizationRecord-discrete = hlevel (
  ℕ_discrete, Bytes-discrete, Bool-discrete, ObjectIdentity-discrete,
  Option_ObjectIdentity-discrete, RestoreMetadata-discrete,
)

instance abbrev pub FinalizationRecord_eq : Eq FinalizationRecord
FinalizationRecord_eq = discrete_eq FinalizationRecord-discrete

-- `is_some_and(|actual| same_file_after_rename(expected, actual))`
unfoldable pub is_renamed : ObjectIdentity → Option ObjectIdentity → Bool
unfolding same_file_after_rename
is_renamed expected none = false
is_renamed expected (some actual) = same_file_after_rename expected actual

-- The final copy is at the target and no longer in the staging area.
unfoldable pub placed : ObjectIdentity → Layout → Bool
unfolding is_renamed is_some
placed expected layout = not (is_some layout.1) && is_renamed expected layout.0

-- The restored inode is in the staging area and no longer at the target.
unfoldable pub retired : ObjectIdentity → Layout → Bool
unfolding is_renamed is_some
retired expected layout = not (is_some layout.0) && is_renamed expected layout.1

abbrev pub final_name : Bytes
final_name = ascii "final"

abbrev pub retired_name : Bytes
retired_name = ascii "retired"

-- The marker that `cleanup_restored` builds.
unfoldable pub finalization_marker : SnapshotRecord → Option ObjectIdentity → FinalizationRecord
unfolding next_revision metadata
finalization_marker r final_identity = record {
  format = format_version;
  path_hex = r.header.path_hex;
  generation = r.header.generation;
  revision = next_revision r.header.revision;
  logical_present = r.header.logical_present;
  parent = r.header.parent;
  staging_path_hex = r.header.staging_path_hex;
  final_name = final_name;
  final_identity = final_identity;
  restore_metadata = metadata r.header.original;
  content_length = length r.contents;
  content_sha256 = r.header.content_sha256;
}

module _ (codec : Codec) (s : System) where
  unfoldable pub retire_restored_target :
      Option ObjectIdentity → s.ResolvedPath → s.StagingArea → Effect (World s) (Unit {0})
  unfolding look rename retired is_some
  retire_restored_target (some expected) resolved staging = do
    layout ← look codec s resolved staging retired_name
    if layout.0 == some expected && not (is_some layout.1)
        then (do
          moved ←
              rename codec s (s.move_to_staging resolved staging retired_name)
                (look codec s resolved staging retired_name) (retired expected)
          require (retired expected moved) "the target changed while it was being retired")
        else if not (is_some layout.0) && not (is_some layout.1)
        then give tt
        else require (retired expected layout) "the target changed while it was being retired"
  retire_restored_target none resolved staging = do
    layout ← look codec s resolved staging retired_name
    require (not (is_some layout.0) && not (is_some layout.1))
        "the target appeared while an absent restore was being finalized"

  -- What a reload after an uncertain commit of the marker shows.
  unfoldable pub marker_observed :
      TransactionError
      → SnapshotRecord
      → FinalizationRecord
      → Entry
      → Effect (World s) FinalizationRecord
  marker_observed e snapshot marker (finalizing actual) =
      if actual == marker
      then give marker
      else bail "snapshot changed unexpectedly while committing its finalization marker"
  marker_observed e snapshot marker (present_entry actual) =
      if version actual == version snapshot
      then fail e
      else bail "snapshot changed unexpectedly while committing its finalization marker"
  marker_observed e snapshot marker missing =
      bail "snapshot and finalization marker both disappeared after an uncertain commit"

  unfoldable pub settle_marker :
      Outcome RecordVersion
      → FilePath
      → SnapshotRecord
      → FinalizationRecord
      → Effect (World s) FinalizationRecord
  unfolding marker_observed
  settle_marker (ok committed) path snapshot marker = give marker
  settle_marker (err e) path snapshot marker = do
    entry ← stored_call s (λ kept. s.store.load kept path)
    marker_observed e snapshot marker entry

  unfoldable pub begin_finalization :
      FilePath → SnapshotRecord → FinalizationRecord → Effect (World s) FinalizationRecord
  unfolding settle_marker
  begin_finalization path snapshot marker = do
    done ←
        attempt (stored_call s (λ kept. s.begin_finalization kept path (version snapshot) marker))
    settle_marker done path snapshot marker

  unfoldable pub place_final :
      Option ObjectIdentity
      → FinalizationRecord
      → s.ResolvedPath
      → s.StagingArea
      → Effect (World s) (Unit {0})
  unfolding look rename placed is_some same_file_after_rename
  place_final (some expected) marker resolved staging = do
    first ← look codec s resolved staging marker.final_name
    layout ←
        if not (is_some first.0) && first.1 == some expected
        then rename codec s (s.install_absent resolved staging marker.final_name)
            (look codec s resolved staging marker.final_name) (placed expected)
        else give first
    require (placed expected layout) "the finalization layout is neither pre-rename nor post-rename"
    actual ← disk s (
        s.verify_finalized resolved marker.content_length marker.content_sha256
          marker.restore_metadata)
    require (same_file_after_rename expected actual) "the final restoration identity changed"
  place_final none marker resolved staging = do
    target ← disk s (s.observe resolved)
    require (not (is_some target)) "absent finalization has an unexpected filesystem object"
    staged ← disk s (s.observe_staged staging marker.final_name)
    require (not (is_some staged)) "absent finalization has an unexpected filesystem object"

  unfoldable pub confirm_final :
      Option ObjectIdentity → FinalizationRecord → s.ResolvedPath → Effect (World s) (Unit {0})
  unfolding is_some same_file_after_rename
  confirm_final (some expected) marker resolved = do
    actual ← disk s (
        s.verify_finalized resolved marker.content_length marker.content_sha256
          marker.restore_metadata)
    require (same_file_after_rename expected actual)
        "final restoration changed before marker deletion"
  confirm_final none marker resolved = do
    target ← disk s (s.observe resolved)
    require (not (is_some target)) "absent target appeared before marker deletion"

  -- What a reload after an uncertain deletion of the marker shows.
  unfoldable pub deletion_observed :
      TransactionError → FinalizationRecord → Entry → Effect (World s) (Unit {0})
  deletion_observed e marker missing = give tt
  deletion_observed e marker (finalizing actual) =
      if actual == marker
      then fail e
      else bail "finalization marker changed unexpectedly during deletion"
  deletion_observed e marker (present_entry actual) =
      bail "finalization marker changed unexpectedly during deletion"

  unfoldable pub settle_deletion :
      Outcome (Unit {0}) → FilePath → FinalizationRecord → Effect (World s) (Unit {0})
  unfolding deletion_observed
  settle_deletion (ok done) path marker = give tt
  settle_deletion (err e) path marker = do
    entry ← stored_call s (λ kept. s.store.load kept path)
    deletion_observed e marker entry

  unfoldable pub finish_finalization : FinalizationRecord → Effect (World s) (Unit {0})
  unfolding same_object place_final confirm_final settle_deletion
  finish_finalization marker = do
    path ← lift (from_store (path_from_hex codec marker.path_hex))
    resolved ← disk s (s.open_path path)
    parent ← disk s (s.parent_identity resolved)
    require (same_object parent marker.parent)
        "the finalization parent no longer matches its recorded directory"
    staging_path ← lift (from_store (path_from_hex codec marker.staging_path_hex))
    staging ← disk s (s.open_area staging_path marker.parent.device)
    place_final marker.final_identity marker resolved staging
    disk s (s.sync_with resolved staging)
    confirm_final marker.final_identity marker resolved
    done ← attempt (stored_call s (λ kept. s.finish_finalization kept path (marker_version marker)))
    settle_deletion done path marker
    attempt (disk s (s.remove_if_empty staging))
    give tt

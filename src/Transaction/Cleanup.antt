-- ===== src/Transaction/Cleanup.antt =====
-- The deletion of a restored transaction: `cleanup_restored` of src/transaction.rs.
use file_guard.Prelude.{
  String, Bool, true, false, not, Option, none, some, List, [], ◌∷◌, ◌==◌, ℕ_eq, Bytes, Bytes_eq,
  Option_Bytes_eq, Bool_eq, length,
}
use file_guard.Process.{ascii}
use file_guard.Files.FilePath.{FilePath}
use file_guard.Record.{
  ObjectIdentity, OriginalState, present, absent, metadata, RestoreResult, Lifecycle, restored,
  delete_intent, SnapshotRecord, FinalizationRecord, Codec, Timestamp_eq, Option_ObjectIdentity_eq,
  ObjectIdentity_eq, RestoreOrigin_eq, Lifecycle_eq, OriginalState_eq, RecordVersion_eq,
  SnapshotRecord_eq,
}
use file_guard.Record.Structure.{is_some}
use file_guard.Transaction.System.{
  Effect, System, World, ◌>>=◌, ◌>>◌, give, bail, attempt, require, disk,
}
use file_guard.Transaction.Commits.{
  same_file_after_rename, record_path, transition, conflict, agree, or_conflict, resolve_bound_path,
  open_staging,
}
use file_guard.Transaction.Validation.{Xattrs_eq, validate_restored_target}
use file_guard.Transaction.Finalization.{
  FinalizationRecord_eq, final_name, retired_name, finalization_marker, retire_restored_target,
  begin_finalization, finish_finalization,
}
use file_guard.Transaction.Restore.{prepare_copy}

module _ (codec : Codec) (s : System) where
  unfoldable pub remove_found :
      Option ObjectIdentity
      → ObjectIdentity
      → s.StagingArea
      → Bytes
      → SnapshotRecord
      → String
      → Effect (World s) (Unit {0})
  unfolding agree
  remove_found none expected staging name r reason = give tt
  remove_found (some actual) expected staging name r reason = do
    agree codec s (actual == expected) r reason
    disk s (s.remove_verified staging name expected)

  unfoldable pub remove_displaced :
      Option Bytes
      → Option ObjectIdentity
      → s.StagingArea
      → SnapshotRecord
      → Effect (World s) (Unit {0})
  unfolding remove_found
  remove_displaced (some name) (some expected) staging r = do
    found ← disk s (s.observe_staged staging name)
    remove_found found expected staging name r "displaced placeholder was replaced"
  remove_displaced _ _ staging r = give tt

  unfoldable pub remove_detached :
      OriginalState
      → Option Bytes
      → Option ObjectIdentity
      → s.StagingArea
      → SnapshotRecord
      → Effect (World s) (Unit {0})
  unfolding remove_found conflict
  remove_detached (present identity m) (some name) (some expected) staging r = do
    found ← disk s (s.observe_staged staging name)
    remove_found found expected staging name r
        "detached original changed through a pre-existing descriptor; both versions were retained"
  remove_detached (absent presentation) (some name) (some expected) staging r =
      conflict codec s r (ascii "absent source unexpectedly has a detached inode")
  remove_detached _ _ _ staging r = give tt

  unfoldable pub remove_retired_found :
      Option ObjectIdentity
      → ObjectIdentity
      → s.StagingArea
      → SnapshotRecord
      → Effect (World s) (Unit {0})
  unfolding agree same_file_after_rename metadata
  remove_retired_found none expected staging r = give tt
  remove_retired_found (some actual) expected staging r = do
    agree codec s (same_file_after_rename expected actual) r
        "retired restored target changed during cleanup"
    verified ← disk s (
        s.verify_finalization staging retired_name (length r.contents) r.header.content_sha256
          (metadata r.header.original))
    disk s (s.remove_verified staging retired_name verified)

  unfoldable pub remove_retired :
      Option ObjectIdentity → s.StagingArea → SnapshotRecord → Effect (World s) (Unit {0})
  unfolding remove_retired_found agree is_some
  remove_retired (some expected) staging r = do
    found ← disk s (s.observe_staged staging retired_name)
    remove_retired_found found expected staging r
  remove_retired none staging r = do
    found ← disk s (s.observe_staged staging retired_name)
    agree codec s (not (is_some found)) r "absent restore has an unexpected retired target"

  -- The final copy, on whether the file is logically present.
  unfoldable pub final_copy :
      Bool → s.StagingArea → SnapshotRecord → Effect (World s) (Option ObjectIdentity)
  unfolding prepare_copy agree is_some
  final_copy true staging r = do
    identity ← prepare_copy codec s staging final_name r
    give (some identity)
  final_copy false staging r = do
    found ← disk s (s.observe_staged staging final_name)
    agree codec s (not (is_some found)) r "absent restore has an unexpected final copy"
    give none

  unfoldable pub recheck_final :
      Option ObjectIdentity → s.StagingArea → SnapshotRecord → Effect (World s) (Unit {0})
  unfolding agree metadata
  recheck_final none staging r = give tt
  recheck_final (some expected) staging r = do
    actual ← disk s (
        s.verify_finalization staging final_name (length r.contents) r.header.content_sha256
          (metadata r.header.original))
    agree codec s (actual == expected) r "final restoration changed before marker commit"

  unfoldable pub expected_entries : Option ObjectIdentity → List Bytes
  expected_entries none = []
  expected_entries (some identity) = final_name ∷ []

  -- From the deletion intent to the marker.
  unfoldable pub clean_deleting :
      RestoreResult
      → FilePath
      → s.ResolvedPath
      → SnapshotRecord
      → Effect (World s) FinalizationRecord
  unfolding open_staging final_copy retire_restored_target remove_displaced remove_detached
      remove_retired expected_entries agree recheck_final is_some finalization_marker
      begin_finalization
  clean_deleting result path resolved r = do
    staging ← open_staging codec s r
    disk s (s.discard_construction staging final_name)
    final_identity ← final_copy r.header.logical_present staging r
    retire_restored_target codec s result.restored_identity resolved staging
    remove_displaced result.displaced_name result.displaced_identity staging r
    remove_detached r.header.original result.detached_name result.detached_identity staging r
    remove_retired result.restored_identity staging r
    disk s (s.sync staging)
    only ← disk s (s.contains_only staging (expected_entries final_identity))
    agree codec s only r "staging directory contains unrecognized recovery data"
    recheck_final final_identity staging r
    target ← disk s (s.observe resolved)
    require (not (is_some target)) "the path became occupied while preparing final restoration"
    disk s (s.sync_with resolved staging)
    begin_finalization codec s path r (finalization_marker r final_identity)

  -- The intent to delete, committed unless it is recorded already.
  unfoldable pub begin_deletion :
      Lifecycle → SnapshotRecord → s.ResolvedPath → Effect (World s) SnapshotRecord
  unfolding validate_restored_target or_conflict transition
  begin_deletion (restored result) r resolved = do
    checked ← attempt (validate_restored_target codec s r resolved)
    or_conflict codec s checked r "restored target failed verification before deletion intent"
    transition codec s r (delete_intent result)
  begin_deletion (delete_intent result) r resolved = give r
  begin_deletion _ r resolved = bail "record is not restored"

  unfoldable pub clean_in :
      Lifecycle → FilePath → s.ResolvedPath → SnapshotRecord → Effect (World s) FinalizationRecord
  unfolding clean_deleting
  clean_in (delete_intent result) path resolved r = clean_deleting result path resolved r
  clean_in _ path resolved r = bail "unreachable"

  unfoldable pub cleanup_restored : SnapshotRecord → Effect (World s) (Unit {0})
  unfolding record_path resolve_bound_path or_conflict begin_deletion clean_in finish_finalization
  cleanup_restored first = do
    path ← record_path codec s first
    bound ← attempt (resolve_bound_path codec s path first)
    resolved ← or_conflict codec s bound first "restored parent binding failed verification"
    r ← begin_deletion first.header.lifecycle first resolved
    marker ← clean_in r.header.lifecycle path resolved r
    finish_finalization codec s marker

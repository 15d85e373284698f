-- ===== src/Transaction/Restore.antt =====
-- Restoration: `begin_restore`, `finish_restore`, `finish_restore_with` and `cleanup_restored` of
-- src/transaction.rs.
use file_guard.Prelude.{
  Bool, true, false, not, Option, none, some, ◌++◌, if◌then◌else◌, ℕ_eq, Bytes, Bytes_eq,
  Option_Bytes_eq, Bool_eq, ok, err,
}
use file_guard.Process.{ascii}
use file_guard.Files.FilePath.{FilePath}
use file_guard.Record.{
  ObjectIdentity, metadata, existed, RestoreOrigin, from_installed, from_stored, then_restore,
  RestorePlan, Lifecycle, installed, unmount_intent, restore_intent, restored, stored, RecordHeader,
  SnapshotRecord, Codec, Timestamp_eq, Option_ObjectIdentity_eq, ObjectIdentity_eq,
  RestoreOrigin_eq, Lifecycle_eq, OriginalState_eq, RecordVersion_eq, SnapshotRecord_eq,
}
use file_guard.Record.Structure.{is_some}
use file_guard.Fuse.Commit.{Outcome}
use file_guard.Transaction.System.{
  Effect, System, World, ◌>>=◌, ◌>>◌, give, bail, attempt, expect, disk,
}
use file_guard.Transaction.Commits.{
  same_file_after_rename, Layout, layout_matches, record_path, transition, conflict, agree,
  or_conflict, resolve_bound_path, open_staging, look, rename,
}
use file_guard.Transaction.Validation.{Xattrs_eq, require_installed_layout, require_stored}
use file_guard.Transaction.Finalization.{FinalizationRecord_eq}

-- `existed().then(|| swap_name)`
unfoldable pub detached_entry : RecordHeader → Option Bytes
unfolding existed
detached_entry header = if existed header.original then some header.swap_name else none

-- The plan that `begin_restore` starts from, before its entry has a name.
unfoldable pub restore_plan : RecordHeader → Lifecycle → Option RestorePlan
unfolding detached_entry
restore_plan header (installed detached_original) = some (record {
  origin = from_installed;
  restore_name = none;
  restore_identity = none;
  detached_name = detached_entry header;
  detached_identity = detached_original;
})
restore_plan header (unmount_intent then_restore detached_original) = some (record {
  origin = from_installed;
  restore_name = none;
  restore_identity = none;
  detached_name = detached_entry header;
  detached_identity = detached_original;
})
restore_plan header (stored detached_name detached_original) = some (record {
  origin = from_stored;
  restore_name = none;
  restore_identity = none;
  detached_name = some detached_name;
  detached_identity = some detached_original;
})
restore_plan header _ = none

-- The name of the entry that a restoration uses.
unfoldable pub entry_name : Bool → Bytes → Bytes
entry_name logical_present token =
    if logical_present then ascii "restore-" ++ token else ascii "displaced-" ++ token

-- The layouts around the rename of a restoration, and what it displaces.
pub record RestoreMove : Type 0 where
  pub before : Layout
  pub after : Layout
  pub displaced_name : Option Bytes

module _ (codec : Codec) (s : System) where
  -- A copy of the contents in the staging area: created, kept when it verifies, or made again.
  unfoldable pub keep_copy :
      Outcome ObjectIdentity
      → s.StagingArea
      → Bytes
      → SnapshotRecord
      → Effect (World s) ObjectIdentity
  keep_copy (ok identity) staging name r = give identity
  keep_copy (err e) staging name r = do
    disk s (s.discard_uncommitted staging name)
    disk s (s.create_restoration staging name r.contents (metadata r.header.original))

  unfoldable pub prepare_found :
      Option ObjectIdentity
      → s.StagingArea
      → Bytes
      → SnapshotRecord
      → Effect (World s) ObjectIdentity
  unfolding keep_copy
  prepare_found none staging name r =
      disk s (s.create_restoration staging name r.contents (metadata r.header.original))
  prepare_found (some found) staging name r = do
    verified ←
        attempt (disk s (s.verify_restoration staging name r.contents (metadata r.header.original)))
    keep_copy verified staging name r

  unfoldable pub prepare_copy :
      s.StagingArea → Bytes → SnapshotRecord → Effect (World s) ObjectIdentity
  unfolding prepare_found
  prepare_copy staging name r = do
    found ← disk s (s.observe_staged staging name)
    prepare_found found staging name r

  -- The restoration inode is bound to the intent before it is used.
  unfoldable pub bind_restoration :
      Bool
      → Option ObjectIdentity
      → RestorePlan
      → Bytes
      → s.StagingArea
      → SnapshotRecord
      → Effect (World s) (SnapshotRecord × Option ObjectIdentity)
  unfolding prepare_copy transition
  bind_restoration true none plan name staging r = do
    identity ← prepare_copy staging name r
    let bound = record plan { restore_name = some name; restore_identity = some identity }
    next ← transition codec s r (restore_intent bound)
    give (next, some identity)
  bind_restoration _ identity plan name staging r = give (r, identity)

  unfoldable pub restore_move :
      RestoreOrigin → Option ObjectIdentity → Bytes → SnapshotRecord → Effect (World s) RestoreMove
  unfolding conflict
  restore_move from_installed (some restoration) name r = do
    placeholder ← expect r.header.placeholder "installed restore has no placeholder identity"
    give (record {
      before = (some placeholder, some restoration);
      after = (some restoration, some placeholder);
      displaced_name = some name;
    })
  restore_move from_installed none name r = do
    placeholder ← expect r.header.placeholder "installed restore has no placeholder identity"
    give (record {
      before = (some placeholder, none);
      after = (none, some placeholder);
      displaced_name = some name;
    })
  restore_move from_stored (some restoration) name r = give (record {
    before = (none, some restoration);
    after = (some restoration, none);
    displaced_name = none;
  })
  restore_move from_stored none name r =
      conflict codec s r (ascii "stored credential has no restoration inode")

  unfoldable pub restore_operation :
      RestoreOrigin
      → Option ObjectIdentity
      → s.ResolvedPath
      → s.StagingArea
      → Bytes
      → Effect s.Disk (Unit {0})
  restore_operation from_installed (some restoration) resolved staging name =
      s.exchange_with resolved staging name
  restore_operation from_installed none resolved staging name =
      s.move_to_staging resolved staging name
  restore_operation from_stored (some restoration) resolved staging name =
      s.install_absent resolved staging name
  restore_operation from_stored none resolved staging name = bail "unreachable"

  -- The target holds the restoration, or nothing where the file is logically absent.
  unfoldable pub confirm_target :
      Bool
      → Option ObjectIdentity
      → s.ResolvedPath
      → SnapshotRecord
      → Layout
      → Effect (World s) Layout
  unfolding or_conflict agree same_file_after_rename is_some metadata
  confirm_target true (some expected) resolved r observed = do
    verified ← attempt (disk s (s.verify_restored resolved r.contents (metadata r.header.original)))
    actual ← or_conflict codec s verified r "restored contents or metadata failed verification"
    agree codec s (same_file_after_rename expected actual) r
        "restored inode identity changed during content verification"
    give (some actual, observed.1)
  confirm_target true none resolved r observed =
      bail "logical credential has no restoration identity"
  confirm_target false identity resolved r observed = do
    target ← disk s (s.observe resolved)
    agree codec s (not (is_some target)) r "logically absent target reappeared during restore"
    give observed

  -- `finish_restore_with`, past the `let else`.
  unfoldable pub finish_restore_plan :
      RestorePlan
      → s.ResolvedPath
      → s.StagingArea
      → SnapshotRecord
      → Effect (World s) SnapshotRecord
  unfolding bind_restoration restore_move look layout_matches rename restore_operation agree
      confirm_target transition
  finish_restore_plan plan resolved staging first = do
    name ← expect plan.restore_name "restore intent has no staging entry name"
    disk s (s.discard_construction staging name)
    binding ←
        bind_restoration first.header.logical_present plan.restore_identity plan name staging first
    let r = binding.0
    let identity = binding.1
    move ← restore_move plan.origin identity name r
    seen ← look codec s resolved staging name
    settled ←
        if layout_matches seen move.before false
        then rename codec s (restore_operation plan.origin identity resolved staging name)
            (look codec s resolved staging name) (λ now. layout_matches now move.after true)
        else give seen
    agree codec s (layout_matches settled move.after true) r
        "restore identities do not match either recoverable layout"
    observed ← confirm_target r.header.logical_present identity resolved r settled
    disk s (s.sync_with resolved staging)
    transition codec s r (
        restored (record {
          origin = plan.origin;
          restored_identity = observed.0;
          displaced_name = move.displaced_name;
          displaced_identity = observed.1;
          detached_name = plan.detached_name;
          detached_identity = plan.detached_identity;
        }))

  unfoldable pub finish_restore_with :
      Lifecycle → s.ResolvedPath → s.StagingArea → SnapshotRecord → Effect (World s) SnapshotRecord
  unfolding finish_restore_plan
  finish_restore_with (restore_intent plan) resolved staging r =
      finish_restore_plan plan resolved staging r
  finish_restore_with _ resolved staging r = bail "record is not awaiting restore"

  unfoldable pub finish_restore : SnapshotRecord → Effect (World s) SnapshotRecord
  unfolding record_path resolve_bound_path open_staging finish_restore_with
  finish_restore r = do
    path ← record_path codec s r
    resolved ← resolve_bound_path codec s path r
    staging ← open_staging codec s r
    finish_restore_with r.header.lifecycle resolved staging r

  -- The layout that a restoration starts from.
  unfoldable pub require_origin :
      RestoreOrigin
      → FilePath
      → SnapshotRecord
      → Option ObjectIdentity
      → Effect (World s) SnapshotRecord
  unfolding require_installed_layout require_stored
  require_origin from_installed path r detached = require_installed_layout codec s path r detached
  require_origin from_stored path r detached = require_stored codec s path r

  unfoldable pub begin_restore : SnapshotRecord → Effect (World s) SnapshotRecord
  unfolding record_path restore_plan require_origin resolve_bound_path open_staging entry_name
      transition finish_restore_with
  begin_restore first = do
    path ← record_path codec s first
    plan ←
        expect (restore_plan first.header first.header.lifecycle) "record is not ready to restore"
    r ← require_origin plan.origin path first plan.detached_identity
    resolved ← resolve_bound_path codec s path r
    staging ← open_staging codec s r
    token ← disk s s.random_token
    let named = record plan { restore_name = some (entry_name r.header.logical_present token) }
    restoring ← transition codec s r (restore_intent named)
    finish_restore_with restoring.header.lifecycle resolved staging restoring

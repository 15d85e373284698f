-- ===== src/Transaction/Operations.antt =====
-- The public operations of `TransactionManager` in src/transaction.rs. A loop runs on fuel.
use file_guard.Prelude.{
  ℕ, zero, suc, true, Option, none, some, ◌==◌, ℕ_eq, Bytes_eq, Option_Bytes_eq, Bool_eq, ok, err,
}
use file_guard.Files.FilePath.{FilePath}
use file_guard.Record.{
  existed, UnmountNext, then_restore, leave_installed, Lifecycle, captured, install_intent,
  installed, mount_intent, unmount_intent, restore_intent, restored, delete_intent, store_intent,
  stored, SnapshotRecord, Entry, missing, present_entry, finalizing, StoreError, Codec,
  Timestamp_eq, Option_ObjectIdentity_eq, ObjectIdentity_eq, RestoreOrigin_eq, Lifecycle_eq,
  OriginalState_eq, RecordVersion_eq, SnapshotRecord_eq, UnmountNext_eq,
}
use file_guard.Fuse.Commit.{store_error, Outcome}
use file_guard.Transaction.System.{
  Effect, System, World, ◌>>=◌, ◌>>◌, give, fail, bail, attempt, require, disk, stored_call,
}
use file_guard.Transaction.Commits.{transition, require_unblocked}
use file_guard.Transaction.Validation.{
  Xattrs_eq, require_installed_layout, require_installed, require_stored,
}
use file_guard.Transaction.Install.{
  capture_record, begin_install, prepare_offline_staging, finish_install, capture_new, finish_store,
}
use file_guard.Transaction.Finalization.{FinalizationRecord_eq, finish_finalization}
use file_guard.Transaction.Restore.{finish_restore, begin_restore}
use file_guard.Transaction.Cleanup.{cleanup_restored}
use file_guard.Record.{
  existed, UnmountNext, then_restore, leave_installed, Lifecycle, captured, install_intent,
  installed, mount_intent, unmount_intent, restore_intent, restored, delete_intent, store_intent,
  stored, SnapshotRecord, Entry, missing, present_entry, finalizing, StoreError, Codec,
  Timestamp_eq, Option_ObjectIdentity_eq, ObjectIdentity_eq, RestoreOrigin_eq, Lifecycle_eq,
  OriginalState_eq, RecordVersion_eq, SnapshotRecord_eq, UnmountNext_eq,
}

pub data RestoreOutcome : Type 0 where
  missing_snapshot restored_snapshot : RestoreOutcome

-- The next round of a loop, unless this one returned.
unfoldable pub or_again {ℓ κ} : {W : Type ℓ} {A : Type κ} → Effect W A → Option A → Effect W A
or_again next none = next
or_again next (some a) = give a

module _ (codec : Codec) (s : System) where
  unfoldable pub normalize_path : FilePath → Effect (World s) FilePath
  normalize_path given = do resolved ← disk s (s.open_path given); give (s.path resolved)

  unfoldable pub load_entry : FilePath → Effect (World s) Entry
  load_entry path = stored_call s (λ kept. s.store.load kept path)

  -- `load`
  unfoldable pub load : FilePath → Effect (World s) Entry
  unfolding normalize_path load_entry
  load given = do path ← normalize_path given; load_entry path

  -- The `match` of the operations that need a snapshot.
  unfoldable pub present_record : Entry → Effect (World s) SnapshotRecord
  present_record missing = bail "no v2 transaction for the path"
  present_record (finalizing marker) = bail "the path is completing a restored snapshot"
  present_record (present_entry r) = give r

  unfoldable pub prepare_record :
      Lifecycle → FilePath → SnapshotRecord → Effect (World s) (Option SnapshotRecord)
  unfolding begin_install finish_install require_installed finish_restore cleanup_restored
  prepare_record captured path r = do
    installing ← begin_install codec s r
    installed_now ← finish_install codec s installing
    give (some installed_now)
  prepare_record install_intent path r = do
    installed_now ← finish_install codec s r
    give (some installed_now)
  prepare_record (installed detached_original) path r = do
    kept ← require_installed codec s path r
    give (some kept)
  prepare_record (mount_intent detached_original) path r =
      bail "the mount lifecycle must be reconciled against the kernel mount table"
  prepare_record (unmount_intent next detached_original) path r =
      bail "the mount lifecycle must be reconciled against the kernel mount table"
  prepare_record (restore_intent plan) path r = do
    restored_now ← finish_restore codec s r
    cleanup_restored codec s restored_now
    give none
  prepare_record (restored result) path r = do cleanup_restored codec s r; give none
  prepare_record (delete_intent result) path r = do cleanup_restored codec s r; give none
  prepare_record (store_intent name) path r =
      bail "the file is stored offline; restore it before starting the daemon"
  prepare_record (stored name detached) path r =
      bail "the file is stored offline; restore it before starting the daemon"

  -- One round of the loop of `prepare`.
  unfoldable pub prepare_entry : FilePath → Entry → Effect (World s) (Option SnapshotRecord)
  unfolding capture_new finish_finalization require_unblocked prepare_record
  prepare_entry path missing = do r ← capture_new codec s path; give (some r)
  prepare_entry path (finalizing marker) = do finish_finalization codec s marker; give none
  prepare_entry path (present_entry r) = do
    require_unblocked codec s r
    prepare_record r.header.lifecycle path r

  unfoldable pub prepare_loop : ℕ → FilePath → Effect (World s) SnapshotRecord
  unfolding load_entry prepare_entry or_again
  prepare_loop zero path = bail "out of fuel"
  prepare_loop (suc fuel) path = do
    entry ← load_entry path
    done ← prepare_entry path entry
    or_again (prepare_loop fuel path) done

  unfoldable pub prepare : ℕ → FilePath → Effect (World s) SnapshotRecord
  unfolding normalize_path prepare_loop
  prepare fuel given = do path ← normalize_path given; prepare_loop fuel path

  unfoldable pub mount_record :
      Lifecycle → FilePath → SnapshotRecord → Effect (World s) SnapshotRecord
  unfolding require_installed_layout transition
  mount_record (installed detached_original) path first = do
    r ← require_installed_layout codec s path first detached_original
    transition codec s r (mount_intent detached_original)
  mount_record (mount_intent detached_original) path r =
      require_installed_layout codec s path r detached_original
  mount_record _ path r = bail "the path is not ready to mount"

  unfoldable pub begin_mount : FilePath → Effect (World s) SnapshotRecord
  unfolding normalize_path load_entry present_record require_unblocked mount_record
  begin_mount given = do
    path ← normalize_path given
    entry ← load_entry path
    r ← present_record entry
    require_unblocked codec s r
    mount_record r.header.lifecycle path r

  unfoldable pub abort_record :
      Lifecycle → FilePath → SnapshotRecord → Effect (World s) SnapshotRecord
  unfolding require_installed_layout transition require_installed
  abort_record (mount_intent detached_original) path first = do
    r ← require_installed_layout codec s path first detached_original
    transition codec s r (installed detached_original)
  abort_record (installed detached_original) path r = require_installed codec s path r
  abort_record _ path r = bail "the path is not awaiting mount completion"

  unfoldable pub abort_mount : FilePath → Effect (World s) SnapshotRecord
  unfolding normalize_path load_entry present_record require_unblocked abort_record
  abort_mount given = do
    path ← normalize_path given
    entry ← load_entry path
    r ← present_record entry
    require_unblocked codec s r
    abort_record r.header.lifecycle path r

  -- A conflict of the commit starts the next round.
  unfoldable pub retry_conflict : Outcome SnapshotRecord → Effect (World s) (Option SnapshotRecord)
  retry_conflict (ok unmounting) = give (some unmounting)
  retry_conflict (err (store_error (StoreError.conflict reason))) = give none
  retry_conflict (err e) = fail e

  unfoldable pub unmount_record :
      Lifecycle → UnmountNext → SnapshotRecord → Effect (World s) (Option SnapshotRecord)
  unfolding transition retry_conflict
  unmount_record (mount_intent detached_original) next r = do
    done ← attempt (transition codec s r (unmount_intent next detached_original))
    retry_conflict done
  unmount_record (unmount_intent current_next detached_original) next r = do
    require (current_next == next) "the path already has a different unmount outcome"
    give (some r)
  unmount_record _ next r = bail "the path is not mounted by this transaction"

  unfoldable pub unmount_loop : ℕ → FilePath → UnmountNext → Effect (World s) SnapshotRecord
  unfolding load_entry present_record require_unblocked unmount_record or_again
  unmount_loop zero path next = bail "out of fuel"
  unmount_loop (suc fuel) path next = do
    entry ← load_entry path
    r ← present_record entry
    require_unblocked codec s r
    done ← unmount_record r.header.lifecycle next r
    or_again (unmount_loop fuel path next) done

  unfoldable pub begin_unmount : ℕ → FilePath → UnmountNext → Effect (World s) SnapshotRecord
  unfolding normalize_path unmount_loop
  begin_unmount fuel given next = do path ← normalize_path given; unmount_loop fuel path next

  unfoldable pub reconcile_record :
      Lifecycle → FilePath → SnapshotRecord → Effect (World s) (Unit {0})
  unfolding abort_mount require_installed_layout transition begin_restore cleanup_restored
  reconcile_record (mount_intent detached_original) path r = do abort_mount path; give tt
  reconcile_record (unmount_intent leave_installed detached_original) path first = do
    r ← require_installed_layout codec s path first detached_original
    transition codec s r (installed detached_original)
    give tt
  reconcile_record (unmount_intent then_restore detached_original) path first = do
    r ← require_installed_layout codec s path first detached_original
    restored_now ← begin_restore codec s r
    cleanup_restored codec s restored_now
  reconcile_record _ path r = give tt

  unfoldable pub reconcile_entry : FilePath → Entry → Effect (World s) (Unit {0})
  unfolding finish_finalization require_unblocked reconcile_record
  reconcile_entry path missing = give tt
  reconcile_entry path (finalizing marker) = finish_finalization codec s marker
  reconcile_entry path (present_entry r) = do
    require_unblocked codec s r
    reconcile_record r.header.lifecycle path r

  unfoldable pub reconcile_after_mount_absent : FilePath → Effect (World s) (Unit {0})
  unfolding normalize_path load_entry reconcile_entry
  reconcile_after_mount_absent given = do
    path ← normalize_path given
    entry ← load_entry path
    reconcile_entry path entry

  -- The first `match` of `restore`: a record from which it can be restored or cleaned up.
  unfoldable pub ready_to_restore : Lifecycle → SnapshotRecord → Effect (World s) SnapshotRecord
  unfolding begin_install finish_install finish_restore finish_store
  ready_to_restore captured r = do
    installing ← begin_install codec s r
    finish_install codec s installing
  ready_to_restore install_intent r = finish_install codec s r
  ready_to_restore (installed detached_original) r = give r
  ready_to_restore (stored name detached_original) r = give r
  ready_to_restore (mount_intent detached_original) r =
      bail "the mount lifecycle must be reconciled before restore"
  ready_to_restore (unmount_intent next detached_original) r =
      bail "the mount lifecycle must be reconciled before restore"
  ready_to_restore (restore_intent plan) r = finish_restore codec s r
  ready_to_restore (restored result) r = give r
  ready_to_restore (delete_intent result) r = give r
  ready_to_restore (store_intent name) r = finish_store codec s r

  unfoldable pub restore_unless_restored :
      Lifecycle → SnapshotRecord → Effect (World s) SnapshotRecord
  unfolding begin_restore
  restore_unless_restored (restored result) r = give r
  restore_unless_restored (delete_intent result) r = give r
  restore_unless_restored _ r = begin_restore codec s r

  unfoldable pub restore_entry : Entry → Effect (World s) RestoreOutcome
  unfolding finish_finalization require_unblocked ready_to_restore restore_unless_restored
      cleanup_restored
  restore_entry missing = give missing_snapshot
  restore_entry (finalizing marker) = do finish_finalization codec s marker; give restored_snapshot
  restore_entry (present_entry first) = do
    require_unblocked codec s first
    ready ← ready_to_restore first.header.lifecycle first
    restored_now ← restore_unless_restored ready.header.lifecycle ready
    cleanup_restored codec s restored_now
    give restored_snapshot

  unfoldable pub restore : FilePath → Effect (World s) RestoreOutcome
  unfolding normalize_path load_entry restore_entry
  restore given = do path ← normalize_path given; entry ← load_entry path; restore_entry entry

  -- The record that `store_offline` starts from.
  unfoldable pub offline_entry : FilePath → Entry → Effect (World s) SnapshotRecord
  unfolding capture_record finish_finalization
  offline_entry path missing = capture_record codec s path true
  offline_entry path (finalizing marker) = do
    finish_finalization codec s marker
    capture_record codec s path true
  offline_entry path (present_entry r) = give r

  unfoldable pub offline_record :
      Lifecycle → FilePath → SnapshotRecord → Effect (World s) (Unit {0})
  unfolding existed prepare_offline_staging transition finish_store require_stored
  offline_record captured path first = do
    require (existed first.header.original) "the file does not exist and cannot be stored offline"
    r ← prepare_offline_staging codec s first
    storing ← transition codec s r (store_intent r.header.stored_name)
    finish_store codec s storing
    give tt
  offline_record (store_intent name) path r = do finish_store codec s r; give tt
  offline_record (stored name detached) path r = do require_stored codec s path r; give tt
  offline_record _ path r = bail "the path already has an active v2 transaction"

  unfoldable pub store_offline : FilePath → Effect (World s) (Unit {0})
  unfolding normalize_path load_entry offline_entry require_unblocked offline_record
  store_offline given = do
    path ← normalize_path given
    entry ← load_entry path
    r ← offline_entry path entry
    require_unblocked codec s r
    offline_record r.header.lifecycle path r

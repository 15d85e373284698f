-- ===== src/Transaction/Safety/Operations.antt =====
-- The calls of src/transaction.rs in any order, and an invariant of the store.
use file_guard.Prelude.{ℕ, ◌≡◌, List, [], ◌∷◌, ℕ_eq, Bytes_eq, Option_Bytes_eq, Bool_eq, ok}
use file_guard.Files.FilePath.{FilePath}
use file_guard.Record.{
  UnmountNext, SnapshotRecord, Codec, Timestamp_eq, Option_ObjectIdentity_eq, ObjectIdentity_eq,
  RestoreOrigin_eq, Lifecycle_eq, OriginalState_eq, RecordVersion_eq, SnapshotRecord_eq,
  UnmountNext_eq,
}
use file_guard.Transaction.System.{System, World}
use file_guard.Transaction.Operations.{prepare, begin_mount, abort_mount, begin_unmount}
use file_guard.Transaction.Safety.Phases.{Installed}
use file_guard.Transaction.Safety.Loading.{Mounted, Unmounting}
use file_guard.Transaction.Calls.{
  Call, call_prepare, call_begin_mount, call_abort_mount, call_begin_unmount, call_reconcile,
  call_restore, call_store_offline, call_update_contents, perform, perform_all,
}
use file_guard.Transaction.Safety.Logic.{Invariant}
use file_guard.Transaction.Safety.Prepare.{prepare-Keeps}
use file_guard.Transaction.Safety.Mount.{
  begin_mount-Keeps, abort_mount-Keeps, begin_unmount-Keeps, reconcile_after_mount_absent-Keeps,
}
use file_guard.Transaction.Safety.Offline.{restore-Keeps, store_offline-Keeps}
use file_guard.Transaction.Safety.Write.{update_contents-holds}

module _ {codec : Codec} {s : System} (inv : Invariant codec s) where
  perform-holds : (c : Call) (w : World s) → inv.holds w.0 → inv.holds (perform codec s c w).0
  unfolding perform
  perform-holds (call_prepare fuel path) w h = ((prepare-Keeps inv fuel path).run w h).0
  perform-holds (call_begin_mount path) w h = ((begin_mount-Keeps inv path).run w h).0
  perform-holds (call_abort_mount path) w h = ((abort_mount-Keeps inv path).run w h).0
  perform-holds (call_begin_unmount fuel path next) w h =
      ((begin_unmount-Keeps inv fuel path next).run w h).0
  perform-holds (call_reconcile path) w h =
      ((reconcile_after_mount_absent-Keeps inv path).run w h).0
  perform-holds (call_restore path) w h = ((restore-Keeps inv path).run w h).0
  perform-holds (call_store_offline path) w h = ((store_offline-Keeps inv path).run w h).0
  perform-holds (call_update_contents current contents) w h =
      update_contents-holds inv w.0 current contents h

  -- Any sequence of calls of the manager, whether they succeed or fail, keeps every invariant of the
  -- store that a load, a first capture, a commit of an accepted successor of the record it names,
  -- the marker of a snapshot in its deletion phase and the deletion of a marker keep: the manager
  -- makes no other change of the store.
  pub perform_all-holds :
      (calls : List Call) (w : World s) → inv.holds w.0 → inv.holds (perform_all codec s calls w).0
  unfolding perform_all
  perform_all-holds [] w h = h
  perform_all-holds (c ∷ cs) w h = perform_all-holds cs (perform codec s c w) (perform-holds c w h)

  -- What the operations return: `prepare` and `abort_mount` an installed record, `begin_mount` one
  -- in its mount phase, and `begin_unmount` one in its unmount phase with the outcome asked for. No
  -- record that they return waits for manual recovery.
  pub returned_phases :
      (fuel : ℕ) (path : FilePath) (next : UnmountNext) (w : World s) (r : SnapshotRecord)
      → inv.holds w.0
      → ((prepare codec s fuel path w).0 ≡ ok r → Installed r)
        × ((abort_mount codec s path w).0 ≡ ok r → Installed r)
        × ((begin_mount codec s path w).0 ≡ ok r → Mounted r)
        × ((begin_unmount codec s fuel path next w).0 ≡ ok r → Unmounting next r)
  returned_phases fuel path next w r h = (
    ((prepare-Keeps inv fuel path).run w h).1 r,
    ((abort_mount-Keeps inv path).run w h).1 r,
    ((begin_mount-Keeps inv path).run w h).1 r,
    ((begin_unmount-Keeps inv fuel path next).run w h).1 r,
  )

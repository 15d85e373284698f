-- ===== src/Transaction/Calls.antt =====
-- The calls that the daemon makes of `TransactionManager` in src/transaction.rs, in any order.
use file_guard.Prelude.{ℕ, List, [], ◌∷◌, ℕ_eq, Bytes, Bytes_eq, Option_Bytes_eq, Bool_eq}
use file_guard.Files.FilePath.{FilePath}
use file_guard.Record.{
  UnmountNext, SnapshotRecord, Codec, Timestamp_eq, Option_ObjectIdentity_eq, ObjectIdentity_eq,
  RestoreOrigin_eq, Lifecycle_eq, OriginalState_eq, RecordVersion_eq, SnapshotRecord_eq,
  UnmountNext_eq,
}
use file_guard.Fuse.Commit.{update_contents}
use file_guard.Transaction.System.{System, World}
use file_guard.Transaction.Operations.{
  prepare, begin_mount, abort_mount, begin_unmount, reconcile_after_mount_absent, restore,
  store_offline,
}

-- A public method that changes the store, with its arguments and the fuel of its loop.
pub data Call : Type 0 where
  call_prepare : ℕ → FilePath → Call
  call_begin_mount : FilePath → Call
  call_abort_mount : FilePath → Call
  call_begin_unmount : ℕ → FilePath → UnmountNext → Call
  call_reconcile : FilePath → Call
  call_restore : FilePath → Call
  call_store_offline : FilePath → Call
  call_update_contents : SnapshotRecord → Bytes → Call

module _ (codec : Codec) (s : System) where
  -- What a call leaves, whatever it returns.
  unfoldable pub perform : Call → World s → World s
  unfolding prepare begin_mount abort_mount begin_unmount reconcile_after_mount_absent restore
      store_offline update_contents
  perform (call_prepare fuel path) w = (prepare codec s fuel path w).1
  perform (call_begin_mount path) w = (begin_mount codec s path w).1
  perform (call_abort_mount path) w = (abort_mount codec s path w).1
  perform (call_begin_unmount fuel path next) w = (begin_unmount codec s fuel path next w).1
  perform (call_reconcile path) w = (reconcile_after_mount_absent codec s path w).1
  perform (call_restore path) w = (restore codec s path w).1
  perform (call_store_offline path) w = (store_offline codec s path w).1
  perform (call_update_contents current contents) w =
      ((update_contents codec s.store w.0 current contents).1, w.1)

  unfoldable pub perform_all : List Call → World s → World s
  unfolding perform
  perform_all [] w = w
  perform_all (c ∷ cs) w = perform_all cs (perform c w)

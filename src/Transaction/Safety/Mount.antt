-- ===== src/Transaction/Safety/Mount.antt =====
-- Mounting and unmounting in src/transaction.rs, and an invariant of the store.
use file_guard.Prelude.{
  ℕ, zero, suc, ◌≡◌, refl, ◌==◌, ℕ_eq, eq_of_==, Bytes_eq, Option_Bytes_eq, Bool_eq, ok, err,
}
use file_guard.Files.FilePath.{FilePath}
use file_guard.Record.{
  UnmountNext, then_restore, leave_installed, Lifecycle, installed, mount_intent, unmount_intent,
  SnapshotRecord, Entry, missing, present_entry, finalizing, StoreError, Codec, Timestamp_eq,
  Option_ObjectIdentity_eq, ObjectIdentity_eq, RestoreOrigin_eq, Lifecycle_eq, OriginalState_eq,
  RecordVersion_eq, SnapshotRecord_eq, UnmountNext_eq,
}
use file_guard.Record.Edges.{mount, give_up, unmount, leave}
use file_guard.Fuse.Commit.{store_error, Outcome}
use file_guard.Transaction.System.{System}
use file_guard.Transaction.Validation.{Xattrs_eq}
use file_guard.Transaction.Operations.{
  mount_record, begin_mount, abort_record, abort_mount, retry_conflict, unmount_record,
  unmount_loop, begin_unmount, reconcile_record, reconcile_entry, reconcile_after_mount_absent,
}
use file_guard.Transaction.Safety.Logic.{
  Invariant, Keeps, Anything, chain, give-Keeps, fail-Keeps, weaken, attempt-Keeps, require-Keeps,
}
use file_guard.Transaction.Safety.Calls.{transition-Keeps, require_unblocked-Keeps}
use file_guard.Transaction.Safety.Validation.{
  require_installed_layout-Keeps, require_installed-Keeps,
}
use file_guard.Transaction.Safety.Phases.{InPhase, Installed, moved-InPhase, same-InPhase}
use file_guard.Transaction.Safety.Restore.{begin_restore-Keeps}
use file_guard.Transaction.Safety.Finalization.{finish_finalization-Keeps}
use file_guard.Transaction.Safety.Cleanup.{cleanup_restored-Keeps}
use file_guard.Transaction.Safety.Loading.{
  Mounted, Unmounting, When, normalize_path-Keeps, load_entry-Keeps, again-Keeps, none-Keeps,
  some-Keeps, on_record-Keeps, moves-Keeps,
}

module _ {codec : Codec} {s : System} (inv : Invariant codec s) where
  mount_record-Keeps :
      (lifecycle : Lifecycle) (path : FilePath) (r : SnapshotRecord)
      → InPhase lifecycle r
      → Keeps inv (mount_record codec s lifecycle path r) Mounted
  unfolding mount_record
  mount_record-Keeps (installed d) path r h =
      weaken inv
        (moves-Keeps inv path r d (mount_intent d) h.unblocked (rw h.phase (mount d d refl)))
        (λ next q. (d, q))
  mount_record-Keeps (mount_intent d) path r h =
      weaken inv (require_installed_layout-Keeps inv path r d h.unblocked)
        (λ a same. (d, same-InPhase h same))
  mount_record-Keeps _ path r h = fail-Keeps inv _

  pub begin_mount-Keeps : (given : FilePath) → Keeps inv (begin_mount codec s given) Mounted
  unfolding begin_mount
  begin_mount-Keeps given = chain inv (normalize_path-Keeps inv given) (λ path k.
      on_record-Keeps inv _ path (λ r free.
        mount_record-Keeps r.header.lifecycle path r (record { phase = refl; unblocked = free })))

  abort_record-Keeps :
      (lifecycle : Lifecycle) (path : FilePath) (r : SnapshotRecord)
      → InPhase lifecycle r
      → Keeps inv (abort_record codec s lifecycle path r) Installed
  unfolding abort_record
  abort_record-Keeps (mount_intent d) path r h =
      weaken inv
        (moves-Keeps inv path r d (installed d) h.unblocked (rw h.phase (give_up d d refl)))
        (λ next q. (d, q))
  abort_record-Keeps (installed d) path r h =
      weaken inv (require_installed-Keeps inv path r h.unblocked)
        (λ a same. (d, same-InPhase h same))
  abort_record-Keeps _ path r h = fail-Keeps inv _

  pub abort_mount-Keeps : (given : FilePath) → Keeps inv (abort_mount codec s given) Installed
  unfolding abort_mount
  abort_mount-Keeps given = chain inv (normalize_path-Keeps inv given) (λ path k.
      on_record-Keeps inv _ path (λ r free.
        abort_record-Keeps r.header.lifecycle path r (record { phase = refl; unblocked = free })))

  retry_conflict-Keeps :
      {Q : SnapshotRecord → Type 0} (o : Outcome SnapshotRecord)
      → ((a : SnapshotRecord) → o ≡ ok a → Q a)
      → Keeps inv (retry_conflict codec s o) (When Q)
  unfolding retry_conflict
  retry_conflict-Keeps (ok a) q = some-Keeps inv a (q a refl)
  retry_conflict-Keeps (err (store_error (StoreError.conflict reason))) q = none-Keeps inv
  retry_conflict-Keeps (err e) q = fail-Keeps inv _

  unmount_record-Keeps :
      (lifecycle : Lifecycle) (next : UnmountNext) (r : SnapshotRecord)
      → InPhase lifecycle r
      → Keeps inv (unmount_record codec s lifecycle next r) (When (Unmounting next))
  unfolding unmount_record
  unmount_record-Keeps (mount_intent d) next r h =
      chain inv
        (attempt-Keeps inv (
          weaken inv
            (transition-Keeps inv r (unmount_intent next d) h.unblocked
              (rw h.phase (unmount next d d refl)))
            (λ a e. (d, moved-InPhase codec r a (unmount_intent next d) h.unblocked e))))
        (λ o q. retry_conflict-Keeps o q)
  unmount_record-Keeps (unmount_intent current_next d) next r h =
      chain inv (require-Keeps inv (current_next == next) _)
        (λ done same. let e = eq_of_== current_next next same in some-Keeps inv r (d, rw e at h))
  unmount_record-Keeps _ next r h = fail-Keeps inv _

  unmount_loop-Keeps :
      (fuel : ℕ) (path : FilePath) (next : UnmountNext)
      → Keeps inv (unmount_loop codec s fuel path next) (Unmounting next)
  unfolding unmount_loop
  unmount_loop-Keeps zero path next = fail-Keeps inv _
  unmount_loop-Keeps (suc fuel) path next = on_record-Keeps inv _ path (λ r free.
      chain inv
        (unmount_record-Keeps r.header.lifecycle next r (record { phase = refl; unblocked = free }))
        (λ done q. again-Keeps inv done q (unmount_loop-Keeps fuel path next)))

  pub begin_unmount-Keeps :
      (fuel : ℕ) (given : FilePath) (next : UnmountNext)
      → Keeps inv (begin_unmount codec s fuel given next) (Unmounting next)
  unfolding begin_unmount
  begin_unmount-Keeps fuel given next =
      chain inv (normalize_path-Keeps inv given) (λ path k. unmount_loop-Keeps fuel path next)

  reconcile_record-Keeps :
      (lifecycle : Lifecycle) (path : FilePath) (r : SnapshotRecord)
      → InPhase lifecycle r
      → Keeps inv (reconcile_record codec s lifecycle path r) Anything
  unfolding reconcile_record
  reconcile_record-Keeps (mount_intent d) path r h =
      chain inv (abort_mount-Keeps path) (λ a k. give-Keeps inv tt tt)
  reconcile_record-Keeps (unmount_intent leave_installed d) path first h =
      chain inv (require_installed_layout-Keeps inv path first d h.unblocked) (λ r same.
        chain inv
          (transition-Keeps inv r (installed d) (rw same h.unblocked)
            (rw (same, h.phase) (leave d d refl)))
          (λ next e. give-Keeps inv tt tt))
  reconcile_record-Keeps (unmount_intent then_restore d) path first h =
      chain inv (require_installed_layout-Keeps inv path first d h.unblocked) (λ r same.
        chain inv (begin_restore-Keeps inv r (rw same h.unblocked))
          (λ restored_now free. cleanup_restored-Keeps inv restored_now free))
  reconcile_record-Keeps _ path r h = give-Keeps inv tt tt

  reconcile_entry-Keeps :
      (path : FilePath) (entry : Entry) → Keeps inv (reconcile_entry codec s path entry) Anything
  unfolding reconcile_entry
  reconcile_entry-Keeps path missing = give-Keeps inv tt tt
  reconcile_entry-Keeps path (finalizing marker) = finish_finalization-Keeps inv marker
  reconcile_entry-Keeps path (present_entry r) =
      chain inv (require_unblocked-Keeps inv r) (λ done free.
        reconcile_record-Keeps r.header.lifecycle path r
          (record { phase = refl; unblocked = free }))

  pub reconcile_after_mount_absent-Keeps :
      (given : FilePath) → Keeps inv (reconcile_after_mount_absent codec s given) Anything
  unfolding reconcile_after_mount_absent
  reconcile_after_mount_absent-Keeps given = chain inv (normalize_path-Keeps inv given) (λ path k.
      chain inv (load_entry-Keeps inv path) (λ entry loaded. reconcile_entry-Keeps path entry))

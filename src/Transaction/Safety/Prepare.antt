-- ===== src/Transaction/Safety/Prepare.antt =====
-- `prepare` of src/transaction.rs, and an invariant of the store.
use file_guard.Prelude.{ℕ, zero, suc, refl, ℕ_eq, Bytes_eq, Option_Bytes_eq, Bool_eq}
use file_guard.Files.FilePath.{FilePath}
use file_guard.Record.{
  Lifecycle, captured, install_intent, installed, mount_intent, unmount_intent, restore_intent,
  restored, delete_intent, store_intent, stored, SnapshotRecord, Entry, missing, present_entry,
  finalizing, Codec, Timestamp_eq, Option_ObjectIdentity_eq, ObjectIdentity_eq, RestoreOrigin_eq,
  Lifecycle_eq, OriginalState_eq, RecordVersion_eq, SnapshotRecord_eq, UnmountNext_eq,
}
use file_guard.Transaction.System.{System}
use file_guard.Transaction.Validation.{Xattrs_eq}
use file_guard.Transaction.Operations.{prepare_record, prepare_entry, prepare_loop, prepare}
use file_guard.Transaction.Safety.Logic.{Invariant, Keeps, chain, fail-Keeps}
use file_guard.Transaction.Safety.Calls.{require_unblocked-Keeps}
use file_guard.Transaction.Safety.Validation.{require_installed-Keeps}
use file_guard.Transaction.Safety.Phases.{InPhase, Installed, same-InPhase}
use file_guard.Transaction.Safety.Install.{
  begin_install-Keeps, finish_install-Keeps, capture_new-Keeps,
}
use file_guard.Transaction.Safety.Restore.{finish_restore-Keeps}
use file_guard.Transaction.Safety.Finalization.{finish_finalization-Keeps}
use file_guard.Transaction.Safety.Cleanup.{cleanup_restored-Keeps}
use file_guard.Transaction.Safety.Loading.{
  Loaded, Sound, When, normalize_path-Keeps, load_entry-Keeps, again-Keeps, none-Keeps, some-Keeps,
}

module _ {codec : Codec} {s : System} (inv : Invariant codec s) where
  prepare_record-Keeps :
      (lifecycle : Lifecycle) (path : FilePath) (r : SnapshotRecord)
      → InPhase lifecycle r
      → Sound r
      → Keeps inv (prepare_record codec s lifecycle path r) (When Installed)
  unfolding prepare_record
  prepare_record-Keeps captured path r h sound =
      chain inv (begin_install-Keeps inv r (record { in_phase = h; bare = sound h.phase }))
        (λ installing intent.
          chain inv (finish_install-Keeps inv installing intent)
            (λ installed_now q. some-Keeps inv installed_now q))
  prepare_record-Keeps install_intent path r h sound =
      chain inv (finish_install-Keeps inv r h) (λ installed_now q. some-Keeps inv installed_now q)
  prepare_record-Keeps (installed detached) path r h sound =
      chain inv (require_installed-Keeps inv path r h.unblocked)
        (λ kept same. some-Keeps inv kept (detached, same-InPhase h same))
  prepare_record-Keeps (mount_intent detached) path r h sound = fail-Keeps inv _
  prepare_record-Keeps (unmount_intent next detached) path r h sound = fail-Keeps inv _
  prepare_record-Keeps (restore_intent plan) path r h sound =
      chain inv (finish_restore-Keeps inv r h.unblocked) (λ restored_now free.
        chain inv (cleanup_restored-Keeps inv restored_now free) (λ done k. none-Keeps inv))
  prepare_record-Keeps (restored result) path r h sound =
      chain inv (cleanup_restored-Keeps inv r h.unblocked) (λ done k. none-Keeps inv)
  prepare_record-Keeps (delete_intent result) path r h sound =
      chain inv (cleanup_restored-Keeps inv r h.unblocked) (λ done k. none-Keeps inv)
  prepare_record-Keeps (store_intent name) path r h sound = fail-Keeps inv _
  prepare_record-Keeps (stored name detached) path r h sound = fail-Keeps inv _

  prepare_entry-Keeps :
      (path : FilePath) (entry : Entry)
      → Loaded entry
      → Keeps inv (prepare_entry codec s path entry) (When Installed)
  unfolding prepare_entry Loaded
  prepare_entry-Keeps path missing loaded =
      chain inv (capture_new-Keeps inv path) (λ r q. some-Keeps inv r q)
  prepare_entry-Keeps path (finalizing marker) loaded =
      chain inv (finish_finalization-Keeps inv marker) (λ done k. none-Keeps inv)
  prepare_entry-Keeps path (present_entry r) loaded =
      chain inv (require_unblocked-Keeps inv r) (λ done free.
        prepare_record-Keeps r.header.lifecycle path r (record { phase = refl; unblocked = free })
          (loaded r refl))

  prepare_loop-Keeps :
      (fuel : ℕ) (path : FilePath) → Keeps inv (prepare_loop codec s fuel path) Installed
  unfolding prepare_loop
  prepare_loop-Keeps zero path = fail-Keeps inv _
  prepare_loop-Keeps (suc fuel) path = chain inv (load_entry-Keeps inv path) (λ entry loaded.
      chain inv (prepare_entry-Keeps path entry loaded)
        (λ done q. again-Keeps inv done q (prepare_loop-Keeps fuel path)))

  pub prepare-Keeps :
      (fuel : ℕ) (given : FilePath) → Keeps inv (prepare codec s fuel given) Installed
  unfolding prepare
  prepare-Keeps fuel given =
      chain inv (normalize_path-Keeps inv given) (λ path k. prepare_loop-Keeps fuel path)

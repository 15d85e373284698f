-- ===== src/Transaction/Safety/Offline.antt =====
-- Restoration and storage offline in src/transaction.rs, and an invariant of the store.
use file_guard.Prelude.{refl, true, ℕ_eq, Bytes_eq, Option_Bytes_eq, Bool_eq}
use file_guard.Files.FilePath.{FilePath}
use file_guard.Record.{
  Lifecycle, captured, install_intent, installed, mount_intent, unmount_intent, restore_intent,
  restored, delete_intent, store_intent, stored, SnapshotRecord, Entry, missing, present_entry,
  finalizing, Codec, Timestamp_eq, Option_ObjectIdentity_eq, ObjectIdentity_eq, RestoreOrigin_eq,
  Lifecycle_eq, OriginalState_eq, RecordVersion_eq, SnapshotRecord_eq, UnmountNext_eq,
}
use file_guard.Record.Edges.{plan_store}
use file_guard.Transaction.System.{System}
use file_guard.Transaction.Validation.{Xattrs_eq}
use file_guard.Transaction.Operations.{
  ready_to_restore, restore_unless_restored, restore_entry, restore, offline_entry, offline_record,
  store_offline,
}
use file_guard.Transaction.Safety.Logic.{
  Invariant, Keeps, Anything, chain, give-Keeps, fail-Keeps, weaken,
}
use file_guard.Transaction.Safety.Commits.{Unblocked}
use file_guard.Transaction.Safety.Calls.{transition-Keeps, require_unblocked-Keeps}
use file_guard.Transaction.Safety.Validation.{require_stored-Keeps}
use file_guard.Transaction.Safety.Phases.{InPhase, moved-InPhase}
use file_guard.Transaction.Safety.Install.{
  capture_record-Keeps, begin_install-Keeps, prepare_offline_staging-Keeps, finish_install-Keeps,
  finish_store-Keeps,
}
use file_guard.Transaction.Safety.Restore.{finish_restore-Keeps, begin_restore-Keeps}
use file_guard.Transaction.Safety.Finalization.{confirms, finish_finalization-Keeps}
use file_guard.Transaction.Safety.Cleanup.{cleanup_restored-Keeps}
use file_guard.Transaction.Safety.Loading.{Loaded, Sound, normalize_path-Keeps, load_entry-Keeps}

module _ {codec : Codec} {s : System} (inv : Invariant codec s) where
  ready_to_restore-Keeps :
      (lifecycle : Lifecycle) (r : SnapshotRecord)
      → InPhase lifecycle r
      → Sound r
      → Keeps inv (ready_to_restore codec s lifecycle r) Unblocked
  unfolding ready_to_restore
  ready_to_restore-Keeps captured r h sound =
      chain inv (begin_install-Keeps inv r (record { in_phase = h; bare = sound h.phase }))
        (λ installing intent.
          weaken inv (finish_install-Keeps inv installing intent) (λ a q. q.1.unblocked))
  ready_to_restore-Keeps install_intent r h sound =
      weaken inv (finish_install-Keeps inv r h) (λ a q. q.1.unblocked)
  ready_to_restore-Keeps (installed d) r h sound = give-Keeps inv r h.unblocked
  ready_to_restore-Keeps (stored name d) r h sound = give-Keeps inv r h.unblocked
  ready_to_restore-Keeps (mount_intent d) r h sound = fail-Keeps inv _
  ready_to_restore-Keeps (unmount_intent next d) r h sound = fail-Keeps inv _
  ready_to_restore-Keeps (restore_intent plan) r h sound = finish_restore-Keeps inv r h.unblocked
  ready_to_restore-Keeps (restored result) r h sound = give-Keeps inv r h.unblocked
  ready_to_restore-Keeps (delete_intent result) r h sound = give-Keeps inv r h.unblocked
  ready_to_restore-Keeps (store_intent name) r h sound = finish_store-Keeps inv r h.unblocked

  restore_unless_restored-Keeps :
      (lifecycle : Lifecycle) (r : SnapshotRecord)
      → Unblocked r
      → Keeps inv (restore_unless_restored codec s lifecycle r) Unblocked
  unfolding restore_unless_restored
  restore_unless_restored-Keeps (restored result) r free = give-Keeps inv r free
  restore_unless_restored-Keeps (delete_intent result) r free = give-Keeps inv r free
  restore_unless_restored-Keeps _ r free = begin_restore-Keeps inv r free

  restore_entry-Keeps :
      (entry : Entry) → Loaded entry → Keeps inv (restore_entry codec s entry) Anything
  unfolding restore_entry Loaded
  restore_entry-Keeps missing loaded = give-Keeps inv _ tt
  restore_entry-Keeps (finalizing marker) loaded =
      chain inv (finish_finalization-Keeps inv marker) (λ done k. give-Keeps inv _ tt)
  restore_entry-Keeps (present_entry first) loaded =
      chain inv (require_unblocked-Keeps inv first) (λ done free.
        chain inv
          (ready_to_restore-Keeps first.header.lifecycle first
            (record { phase = refl; unblocked = free }) (loaded first refl))
          (λ ready free2.
            chain inv (restore_unless_restored-Keeps ready.header.lifecycle ready free2)
              (λ restored_now free3.
                chain inv (cleanup_restored-Keeps inv restored_now free3)
                  (λ done2 k. give-Keeps inv _ tt))))

  pub restore-Keeps : (given : FilePath) → Keeps inv (restore codec s given) Anything
  unfolding restore
  restore-Keeps given = chain inv (normalize_path-Keeps inv given) (λ path k.
      chain inv (load_entry-Keeps inv path) (λ entry loaded. restore_entry-Keeps entry loaded))

  offline_entry-Keeps :
      (path : FilePath) (entry : Entry) → Keeps inv (offline_entry codec s path entry) Anything
  unfolding offline_entry
  offline_entry-Keeps path missing = weaken inv (capture_record-Keeps inv path true) (λ a q. tt)
  offline_entry-Keeps path (finalizing marker) =
      chain inv (finish_finalization-Keeps inv marker)
        (λ done k. weaken inv (capture_record-Keeps inv path true) (λ a q. tt))
  offline_entry-Keeps path (present_entry r) = give-Keeps inv r tt

  offline_record-Keeps :
      (lifecycle : Lifecycle) (path : FilePath) (r : SnapshotRecord)
      → InPhase lifecycle r
      → Keeps inv (offline_record codec s lifecycle path r) Anything
  unfolding offline_record
  offline_record-Keeps captured path first h = chain inv (confirms inv _ _) (λ done k.
      chain inv (prepare_offline_staging-Keeps inv first h.unblocked) (λ r same.
        let free : Unblocked r = rw same h.unblocked in
        let intent = store_intent r.header.stored_name in
        chain inv
          (transition-Keeps inv r intent free
            (rw (same, h.phase) (plan_store first.header.stored_name)))
          (λ storing e.
            chain inv
              (finish_store-Keeps inv storing
                (moved-InPhase codec r storing intent free e).unblocked)
              (λ a k2. give-Keeps inv tt tt))))
  offline_record-Keeps (store_intent name) path r h =
      chain inv (finish_store-Keeps inv r h.unblocked) (λ a k. give-Keeps inv tt tt)
  offline_record-Keeps (stored name d) path r h =
      chain inv (require_stored-Keeps inv path r h.unblocked) (λ a k. give-Keeps inv tt tt)
  offline_record-Keeps _ path r h = fail-Keeps inv _

  pub store_offline-Keeps : (given : FilePath) → Keeps inv (store_offline codec s given) Anything
  unfolding store_offline
  store_offline-Keeps given = chain inv (normalize_path-Keeps inv given) (λ path k.
      chain inv (load_entry-Keeps inv path) (λ entry loaded.
        chain inv (offline_entry-Keeps path entry) (λ r k2.
          chain inv (require_unblocked-Keeps inv r) (λ done free.
            offline_record-Keeps r.header.lifecycle path r
              (record { phase = refl; unblocked = free })))))

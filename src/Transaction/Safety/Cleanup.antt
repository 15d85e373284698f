-- ===== src/Transaction/Safety/Cleanup.antt =====
-- Cleanup in src/transaction.rs, and an invariant of the store.
use file_guard.Prelude.{
  String, ◌≡◌, refl, ap, Bool, true, false, Option, none, some, ℕ_eq, Bytes, Bytes_eq,
  Option_Bytes_eq, Bool_eq, ok,
}
use file_guard.Files.FilePath.{FilePath}
use file_guard.Record.{
  ObjectIdentity, OriginalState, present, absent, RestoreResult, Lifecycle, restored, delete_intent,
  SnapshotRecord, Codec, successor, Timestamp_eq, Option_ObjectIdentity_eq, ObjectIdentity_eq,
  RestoreOrigin_eq, Lifecycle_eq, OriginalState_eq, RecordVersion_eq, SnapshotRecord_eq,
  UnmountNext_eq,
}
use file_guard.Record.Snapshot.{path_from_hex}
use file_guard.Record.Edges.{delete}
use file_guard.Transaction.System.{System}
use file_guard.Transaction.Validation.{Xattrs_eq}
use file_guard.Transaction.Finalization.{FinalizationRecord_eq, finalization_marker}
use file_guard.Transaction.Cleanup.{
  remove_found, remove_displaced, remove_detached, remove_retired_found, remove_retired, final_copy,
  recheck_final, clean_deleting, begin_deletion, clean_in, cleanup_restored,
}
use file_guard.Transaction.Safety.Logic.{
  is_delete_intent, Finalizes, Invariant, Keeps, Anything, chain, give-Keeps, fail-Keeps, weaken,
  attempt-Keeps, disk-Keeps,
}
use file_guard.Transaction.Safety.Commits.{Unblocked}
use file_guard.Transaction.Safety.Calls.{
  record_path-Keeps, transition-Keeps, conflict-Keeps, or_conflict-Keeps, resolve_bound_path-Keeps,
  open_staging-Keeps,
}
use file_guard.Transaction.Safety.Validation.{validate_restored_target-Keeps}
use file_guard.Transaction.Safety.Phases.{InPhase, moved-InPhase}
use file_guard.Transaction.Safety.Restore.{prepare_copy-Keeps}
use file_guard.Transaction.Safety.Finalization.{
  confirms, agrees, retire_restored_target-Keeps, begin_finalization-Keeps,
  finish_finalization-Keeps,
}

-- The marker takes the place of the snapshot in its deletion phase.
finalization_marker-Finalizes :
    (result : RestoreResult) (r : SnapshotRecord) (identity : Option ObjectIdentity)
    → InPhase (delete_intent result) r
    → Finalizes r (finalization_marker r identity)
unfolding finalization_marker is_delete_intent
finalization_marker-Finalizes result r identity h = record {
  deleting = rw h.phase;
  not_blocked = h.unblocked;
  same_path = refl;
  same_generation = refl;
  revision_step = refl;
  same_presence = refl;
  same_parent = refl;
  same_staging = refl;
  same_length = refl;
  same_digest = refl;
}

module _ {codec : Codec} {s : System} (inv : Invariant codec s) where
  remove_found-Keeps :
      (found : Option ObjectIdentity) (expected : ObjectIdentity) (staging : s.StagingArea)
      (name : Bytes) (r : SnapshotRecord) (reason : String)
      → Unblocked r
      → Keeps inv (remove_found codec s found expected staging name r reason) Anything
  unfolding remove_found
  remove_found-Keeps none expected staging name r reason unblocked = give-Keeps inv tt tt
  remove_found-Keeps (some actual) expected staging name r reason unblocked =
      chain inv (agrees inv _ r reason unblocked) (λ done k. disk-Keeps inv _)

  remove_displaced-Keeps :
      (name : Option Bytes) (expected : Option ObjectIdentity) (staging : s.StagingArea)
      (r : SnapshotRecord)
      → Unblocked r
      → Keeps inv (remove_displaced codec s name expected staging r) Anything
  unfolding remove_displaced
  remove_displaced-Keeps (some name) (some expected) staging r unblocked =
      chain inv (disk-Keeps inv _)
        (λ found k. remove_found-Keeps found expected staging name r _ unblocked)
  remove_displaced-Keeps none expected staging r unblocked = give-Keeps inv tt tt
  remove_displaced-Keeps (some name) none staging r unblocked = give-Keeps inv tt tt

  remove_detached-Keeps :
      (original : OriginalState) (name : Option Bytes) (expected : Option ObjectIdentity)
      (staging : s.StagingArea) (r : SnapshotRecord)
      → Unblocked r
      → Keeps inv (remove_detached codec s original name expected staging r) Anything
  unfolding remove_detached
  remove_detached-Keeps (present identity m) (some name) (some expected) staging r unblocked =
      chain inv (disk-Keeps inv _)
        (λ found k. remove_found-Keeps found expected staging name r _ unblocked)
  remove_detached-Keeps (absent presentation) (some name) (some expected) staging r unblocked =
      conflict-Keeps inv r _ unblocked
  remove_detached-Keeps (present identity m) none expected staging r unblocked =
      give-Keeps inv tt tt
  remove_detached-Keeps (present identity m) (some name) none staging r unblocked =
      give-Keeps inv tt tt
  remove_detached-Keeps (absent presentation) none expected staging r unblocked =
      give-Keeps inv tt tt
  remove_detached-Keeps (absent presentation) (some name) none staging r unblocked =
      give-Keeps inv tt tt

  remove_retired_found-Keeps :
      (found : Option ObjectIdentity) (expected : ObjectIdentity) (staging : s.StagingArea)
      (r : SnapshotRecord)
      → Unblocked r
      → Keeps inv (remove_retired_found codec s found expected staging r) Anything
  unfolding remove_retired_found
  remove_retired_found-Keeps none expected staging r unblocked = give-Keeps inv tt tt
  remove_retired_found-Keeps (some actual) expected staging r unblocked =
      chain inv (agrees inv _ r _ unblocked)
        (λ done k. chain inv (disk-Keeps inv _) (λ verified k2. disk-Keeps inv _))

  remove_retired-Keeps :
      (expected : Option ObjectIdentity) (staging : s.StagingArea) (r : SnapshotRecord)
      → Unblocked r
      → Keeps inv (remove_retired codec s expected staging r) Anything
  unfolding remove_retired
  remove_retired-Keeps (some expected) staging r unblocked =
      chain inv (disk-Keeps inv _)
        (λ found k. remove_retired_found-Keeps found expected staging r unblocked)
  remove_retired-Keeps none staging r unblocked =
      chain inv (disk-Keeps inv _) (λ found k. agrees inv _ r _ unblocked)

  final_copy-Keeps :
      (logical_present : Bool) (staging : s.StagingArea) (r : SnapshotRecord)
      → Unblocked r
      → Keeps inv (final_copy codec s logical_present staging r) Anything
  unfolding final_copy
  final_copy-Keeps true staging r unblocked =
      chain inv (prepare_copy-Keeps inv staging _ r) (λ identity k. give-Keeps inv _ tt)
  final_copy-Keeps false staging r unblocked =
      chain inv (disk-Keeps inv _)
        (λ found k. chain inv (agrees inv _ r _ unblocked) (λ done k2. give-Keeps inv none tt))

  recheck_final-Keeps :
      (expected : Option ObjectIdentity) (staging : s.StagingArea) (r : SnapshotRecord)
      → Unblocked r
      → Keeps inv (recheck_final codec s expected staging r) Anything
  unfolding recheck_final
  recheck_final-Keeps none staging r unblocked = give-Keeps inv tt tt
  recheck_final-Keeps (some expected) staging r unblocked =
      chain inv (disk-Keeps inv _) (λ actual k. agrees inv _ r _ unblocked)

  clean_deleting-Keeps :
      (result : RestoreResult) (path : FilePath) (resolved : s.ResolvedPath) (r : SnapshotRecord)
      → path_from_hex codec r.header.path_hex ≡ ok path
      → InPhase (delete_intent result) r
      → Keeps inv (clean_deleting codec s result path resolved r) Anything
  unfolding clean_deleting
  clean_deleting-Keeps result path resolved r found h =
      let free = h.unblocked in
      chain inv (open_staging-Keeps inv r) (λ staging k. chain inv (disk-Keeps inv _) (λ done k2.
        chain inv (final_copy-Keeps r.header.logical_present staging r free) (λ identity k3.
          chain inv (retire_restored_target-Keeps inv result.restored_identity resolved staging)
            (λ done2 k4. chain inv (remove_displaced-Keeps _ _ staging r free) (λ done3 k5.
              chain inv (remove_detached-Keeps r.header.original _ _ staging r free) (λ done4 k6.
                chain inv (remove_retired-Keeps result.restored_identity staging r free)
                  (λ done5 k7. chain inv (disk-Keeps inv _) (λ done6 k8.
                    chain inv (disk-Keeps inv _) (λ only k9.
                      chain inv (agrees inv only r _ free) (λ done7 k10.
                        chain inv (recheck_final-Keeps identity staging r free) (λ done8 k11.
                          chain inv (disk-Keeps inv _) (λ target k12.
                            chain inv (confirms inv _ _) (λ done9 k13.
                              chain inv (disk-Keeps inv _) (λ done10 k14.
                                begin_finalization-Keeps inv path r (finalization_marker r identity)
                                  found
                                  (finalization_marker-Finalizes result r identity h)))))))))))))))

  begin_deletion-Keeps :
      (lifecycle : Lifecycle) (r : SnapshotRecord) (resolved : s.ResolvedPath)
      → InPhase lifecycle r
      → Keeps inv
          (begin_deletion codec s lifecycle r resolved)
          (λ next. Unblocked next × (next.header.path_hex ≡ r.header.path_hex))
  unfolding begin_deletion successor
  begin_deletion-Keeps (restored result) r resolved h =
      chain inv (attempt-Keeps inv (validate_restored_target-Keeps inv r resolved)) (λ checked k.
        chain inv (or_conflict-Keeps inv checked r _ h.unblocked) (λ done k2.
          weaken inv
            (transition-Keeps inv r (delete_intent result) h.unblocked
              (rw h.phase (delete result result refl refl)))
            (λ next e. (
              (moved-InPhase codec r next (delete_intent result) h.unblocked e).unblocked,
              ap (λ n. n.header.path_hex) e,
            ))))
  begin_deletion-Keeps (delete_intent result) r resolved h = give-Keeps inv r (h.unblocked, refl)
  begin_deletion-Keeps _ r resolved h = fail-Keeps inv _

  clean_in-Keeps :
      (lifecycle : Lifecycle) (path : FilePath) (resolved : s.ResolvedPath) (r : SnapshotRecord)
      → path_from_hex codec r.header.path_hex ≡ ok path
      → InPhase lifecycle r
      → Keeps inv (clean_in codec s lifecycle path resolved r) Anything
  unfolding clean_in
  clean_in-Keeps (delete_intent result) path resolved r found h =
      clean_deleting-Keeps result path resolved r found h
  clean_in-Keeps _ path resolved r found h = fail-Keeps inv _

  pub cleanup_restored-Keeps :
      (r : SnapshotRecord) → Unblocked r → Keeps inv (cleanup_restored codec s r) Anything
  unfolding cleanup_restored
  cleanup_restored-Keeps first unblocked = chain inv (record_path-Keeps inv first) (λ path found.
      chain inv (attempt-Keeps inv (resolve_bound_path-Keeps inv path first)) (λ bound k.
        chain inv (or_conflict-Keeps inv bound first _ unblocked) (λ resolved k2.
          chain inv
            (begin_deletion-Keeps first.header.lifecycle first resolved
              (record { phase = refl; unblocked = unblocked }))
            (λ r deleting.
              chain inv
                (clean_in-Keeps r.header.lifecycle path resolved r (rw deleting.1 found)
                  (record { phase = refl; unblocked = deleting.0 }))
                (λ marker k3. finish_finalization-Keeps inv marker)))))

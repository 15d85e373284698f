-- ===== src/Transaction/Safety/Finalization.antt =====
-- Finalization in src/transaction.rs, and an invariant of the store.
use file_guard.Prelude.{
  String, ◌≡◌, Bool, not, ◌&&◌, Option, none, some, ◌==◌, ℕ_eq, Bytes_eq, Option_Bytes_eq, Bool_eq,
  ok, err,
}
use file_guard.Files.FilePath.{FilePath}
use file_guard.Record.{
  ObjectIdentity, SnapshotRecord, RecordVersion, FinalizationRecord, Entry, missing, present_entry,
  finalizing, Codec, version, Timestamp_eq, Option_ObjectIdentity_eq, ObjectIdentity_eq,
  RestoreOrigin_eq, Lifecycle_eq, OriginalState_eq, RecordVersion_eq, SnapshotRecord_eq,
  UnmountNext_eq,
}
use file_guard.Record.Structure.{is_some}
use file_guard.Record.Snapshot.{path_from_hex}
use file_guard.Fuse.Commit.{TransactionError, Outcome}
use file_guard.Transaction.System.{System, require, stored_call}
use file_guard.Transaction.Commits.{agree}
use file_guard.Transaction.Validation.{Xattrs_eq}
use file_guard.Transaction.Finalization.{
  FinalizationRecord_eq, retire_restored_target, marker_observed, settle_marker, begin_finalization,
  place_final, confirm_final, deletion_observed, settle_deletion, finish_finalization,
}
use file_guard.Transaction.Safety.Logic.{
  Finalizes, Invariant, Keeps, Anything, chain, give-Keeps, fail-Keeps, weaken, attempt-Keeps,
  if-Keeps, disk-Keeps, lift-Keeps, require-Keeps, stored-Keeps,
}
use file_guard.Transaction.Safety.Commits.{Unblocked}
use file_guard.Transaction.Safety.Calls.{agree-Keeps, look-Keeps, rename-Keeps}
use file_guard.Transaction.Safety.Install.{settled-Keeps}

module _ {codec : Codec} {s : System} (inv : Invariant codec s) where
  pub load-Keeps :
      (path : FilePath) → Keeps inv (stored_call s (λ kept. s.store.load kept path)) Anything
  load-Keeps path = stored-Keeps inv _ (λ kept h. inv.loads kept path h)

  pub confirms : (b : Bool) (reason : String) → Keeps inv (require b reason) Anything
  confirms b reason = weaken inv (require-Keeps inv b reason) (λ done k. tt)

  pub agrees :
      (b : Bool) (r : SnapshotRecord) (reason : String)
      → Unblocked r
      → Keeps inv (agree codec s b r reason) Anything
  agrees b r reason unblocked = weaken inv (agree-Keeps inv b r reason unblocked) (λ done k. tt)

  pub retire_restored_target-Keeps :
      (expected : Option ObjectIdentity) (resolved : s.ResolvedPath) (staging : s.StagingArea)
      → Keeps inv (retire_restored_target codec s expected resolved staging) Anything
  unfolding retire_restored_target
  retire_restored_target-Keeps (some expected) resolved staging =
      chain inv (look-Keeps inv resolved staging _) (λ layout k.
        if-Keeps inv (layout.0 == some expected && not (is_some layout.1))
          (λ due.
            chain inv (rename-Keeps inv _ _ _ (look-Keeps inv resolved staging _))
              (λ moved k2. confirms _ _))
          (λ due.
            if-Keeps inv (not (is_some layout.0) && not (is_some layout.1))
              (λ gone. give-Keeps inv tt tt) (λ gone. confirms _ _)))
  retire_restored_target-Keeps none resolved staging =
      chain inv (look-Keeps inv resolved staging _) (λ layout k. confirms _ _)

  marker_observed-Keeps :
      (e : TransactionError) (snapshot : SnapshotRecord) (marker : FinalizationRecord)
      (entry : Entry)
      → Keeps inv (marker_observed codec s e snapshot marker entry) Anything
  unfolding marker_observed
  marker_observed-Keeps e snapshot marker (finalizing actual) =
      if-Keeps inv (actual == marker) (λ same. give-Keeps inv marker tt) (λ other. fail-Keeps inv _)
  marker_observed-Keeps e snapshot marker (present_entry actual) =
      if-Keeps inv (version actual == version snapshot) (λ same. fail-Keeps inv _)
        (λ other. fail-Keeps inv _)
  marker_observed-Keeps e snapshot marker missing = fail-Keeps inv _

  settle_marker-Keeps :
      (done : Outcome RecordVersion) (path : FilePath) (snapshot : SnapshotRecord)
      (marker : FinalizationRecord)
      → Keeps inv (settle_marker codec s done path snapshot marker) Anything
  unfolding settle_marker
  settle_marker-Keeps (ok committed) path snapshot marker = give-Keeps inv marker tt
  settle_marker-Keeps (err e) path snapshot marker =
      chain inv (load-Keeps path) (λ entry k. marker_observed-Keeps e snapshot marker entry)

  pub begin_finalization-Keeps :
      (path : FilePath) (snapshot : SnapshotRecord) (marker : FinalizationRecord)
      → path_from_hex codec snapshot.header.path_hex ≡ ok path
      → Finalizes snapshot marker
      → Keeps inv (begin_finalization codec s path snapshot marker) Anything
  unfolding begin_finalization
  begin_finalization-Keeps path snapshot marker found finalizes =
      chain inv
        (attempt-Keeps inv
          (stored-Keeps inv _ (λ kept h. inv.marks kept path snapshot marker found finalizes h)))
        (λ done k. settle_marker-Keeps done path snapshot marker)

  place_final-Keeps :
      (identity : Option ObjectIdentity) (marker : FinalizationRecord) (resolved : s.ResolvedPath)
      (staging : s.StagingArea)
      → Keeps inv (place_final codec s identity marker resolved staging) Anything
  unfolding place_final
  place_final-Keeps (some expected) marker resolved staging =
      chain inv (look-Keeps inv resolved staging _) (λ first k.
        chain inv (settled-Keeps inv _ _ _ resolved staging _ first) (λ layout k2.
          chain inv (confirms _ _)
            (λ done k3. chain inv (disk-Keeps inv _) (λ actual k4. confirms _ _))))
  place_final-Keeps none marker resolved staging = chain inv (disk-Keeps inv _) (λ target k.
      chain inv (confirms _ _)
        (λ done k2. chain inv (disk-Keeps inv _) (λ staged k3. confirms _ _)))

  confirm_final-Keeps :
      (identity : Option ObjectIdentity) (marker : FinalizationRecord) (resolved : s.ResolvedPath)
      → Keeps inv (confirm_final codec s identity marker resolved) Anything
  unfolding confirm_final
  confirm_final-Keeps (some expected) marker resolved =
      chain inv (disk-Keeps inv _) (λ actual k. confirms _ _)
  confirm_final-Keeps none marker resolved = chain inv (disk-Keeps inv _) (λ target k. confirms _ _)

  deletion_observed-Keeps :
      (e : TransactionError) (marker : FinalizationRecord) (entry : Entry)
      → Keeps inv (deletion_observed codec s e marker entry) Anything
  unfolding deletion_observed
  deletion_observed-Keeps e marker missing = give-Keeps inv tt tt
  deletion_observed-Keeps e marker (finalizing actual) =
      if-Keeps inv (actual == marker) (λ same. fail-Keeps inv _) (λ other. fail-Keeps inv _)
  deletion_observed-Keeps e marker (present_entry actual) = fail-Keeps inv _

  settle_deletion-Keeps :
      (done : Outcome (Unit {0})) (path : FilePath) (marker : FinalizationRecord)
      → Keeps inv (settle_deletion codec s done path marker) Anything
  unfolding settle_deletion
  settle_deletion-Keeps (ok done) path marker = give-Keeps inv tt tt
  settle_deletion-Keeps (err e) path marker =
      chain inv (load-Keeps path) (λ entry k. deletion_observed-Keeps e marker entry)

  pub finish_finalization-Keeps :
      (marker : FinalizationRecord) → Keeps inv (finish_finalization codec s marker) Anything
  unfolding finish_finalization
  finish_finalization-Keeps marker = chain inv (lift-Keeps inv) (λ path k.
      chain inv (disk-Keeps inv _) (λ resolved k2. chain inv (disk-Keeps inv _) (λ parent k3.
        chain inv (confirms _ _) (λ done k4. chain inv (lift-Keeps inv) (λ staging_path k5.
          chain inv (disk-Keeps inv _) (λ staging k6.
            chain inv (place_final-Keeps marker.final_identity marker resolved staging) (λ done2 k7.
              chain inv (disk-Keeps inv _) (λ done3 k8.
                chain inv (confirm_final-Keeps marker.final_identity marker resolved) (λ done4 k9.
                  chain inv
                    (attempt-Keeps inv
                      (stored-Keeps inv _ (λ kept h. inv.unmarks kept path marker h)))
                    (λ deleted k10.
                      chain inv (settle_deletion-Keeps deleted path marker) (λ done5 k11.
                        chain inv (attempt-Keeps inv (disk-Keeps inv _))
                          (λ done6 k12. give-Keeps inv tt tt))))))))))))

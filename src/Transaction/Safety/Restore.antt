-- ===== src/Transaction/Safety/Restore.antt =====
-- Restoration in src/transaction.rs, and an invariant of the store.
use file_guard.Prelude.{
  ◌≡◌, refl, sym, ap, ◌∙◌, Bool, true, false, Option, none, some, ℕ_eq, Bytes, Bytes_eq,
  Option_Bytes_eq, Bool_eq, ok, err,
}
use file_guard.Files.FilePath.{FilePath}
use file_guard.Record.{
  ObjectIdentity, RestoreOrigin, from_installed, from_stored, then_restore, leave_installed,
  RestorePlan, RestoreResult, Lifecycle, captured, install_intent, installed, mount_intent,
  unmount_intent, restore_intent, restored, delete_intent, store_intent, stored, RecordHeader,
  SnapshotRecord, Codec, Timestamp_eq, Option_ObjectIdentity_eq, ObjectIdentity_eq,
  RestoreOrigin_eq, Lifecycle_eq, OriginalState_eq, RecordVersion_eq, SnapshotRecord_eq,
  UnmountNext_eq,
}
use file_guard.Record.Edges.{Edge, restore_idle, restore_unmounted, restore_stored, bind, complete}
use file_guard.Fuse.Commit.{Outcome}
use file_guard.Transaction.System.{System, ◌>>=◌}
use file_guard.Transaction.Commits.{Layout, transition}
use file_guard.Transaction.Validation.{Xattrs_eq}
use file_guard.Transaction.Restore.{
  restore_plan, entry_name, keep_copy, prepare_found, prepare_copy, bind_restoration, restore_move,
  confirm_target, finish_restore_plan, finish_restore_with, finish_restore, require_origin,
  begin_restore,
}
use file_guard.Transaction.Safety.Logic.{
  Invariant, Keeps, Anything, chain, give-Keeps, fail-Keeps, weaken, attempt-Keeps, disk-Keeps,
  expect-Keeps,
}
use file_guard.Transaction.Safety.Commits.{Unblocked}
use file_guard.Transaction.Safety.Calls.{
  record_path-Keeps, transition-Keeps, conflict-Keeps, agree-Keeps, or_conflict-Keeps,
  resolve_bound_path-Keeps, open_staging-Keeps, look-Keeps,
}
use file_guard.Transaction.Safety.Validation.{require_installed_layout-Keeps, require_stored-Keeps}
use file_guard.Transaction.Safety.Phases.{InPhase, moved-InPhase}
use file_guard.Transaction.Safety.Install.{settled-Keeps}

pub some_inj {ℓ} : {A : Type ℓ} {a b : A} → ◌≡◌ {A = Option A} (some a) (some b) → a ≡ b
some_inj e = cc

-- A plan leads out of the phase that it was made in.
restore_plan-Edge :
    (header : RecordHeader) (lifecycle : Lifecycle) (plan : RestorePlan) (name : Option Bytes)
    → restore_plan header lifecycle ≡ some plan
    → Edge lifecycle (restore_intent (record plan { restore_name = name }))
unfolding restore_plan
restore_plan-Edge header (installed d) plan name h =
    let e = some_inj h in
    restore_idle d _ (ap (λ p. p.origin) (sym e)) (ap (λ p. p.detached_identity) e)
restore_plan-Edge header (unmount_intent then_restore d) plan name h =
    let e = some_inj h in
    restore_unmounted d _ (ap (λ p. p.origin) (sym e)) (ap (λ p. p.detached_identity) e)
restore_plan-Edge header (stored stored_as d) plan name h =
    let e = some_inj h in
    restore_stored stored_as d _ (ap (λ p. p.origin) (sym e))
      (ap (λ p. p.detached_identity) (sym e))
restore_plan-Edge header (unmount_intent leave_installed d) plan name h = cc
restore_plan-Edge header captured plan name h = cc
restore_plan-Edge header install_intent plan name h = cc
restore_plan-Edge header (mount_intent d) plan name h = cc
restore_plan-Edge header (restore_intent p) plan name h = cc
restore_plan-Edge header (restored p) plan name h = cc
restore_plan-Edge header (delete_intent p) plan name h = cc
restore_plan-Edge header (store_intent p) plan name h = cc

-- A restoration goes on: the plan has the same source and the same detached original.
Resumes : RestorePlan → SnapshotRecord → Type 0
Resumes plan r =
    (now : RestorePlan) × InPhase (restore_intent now) r
    × (now.origin ≡ plan.origin)
    × (now.detached_identity ≡ plan.detached_identity)

module _ {codec : Codec} {s : System} (inv : Invariant codec s) where
  keep_copy-Keeps :
      (verified : Outcome ObjectIdentity) (staging : s.StagingArea) (name : Bytes)
      (r : SnapshotRecord)
      → Keeps inv (keep_copy codec s verified staging name r) Anything
  unfolding keep_copy
  keep_copy-Keeps (ok identity) staging name r = give-Keeps inv identity tt
  keep_copy-Keeps (err e) staging name r = chain inv (disk-Keeps inv _) (λ done k. disk-Keeps inv _)

  prepare_found-Keeps :
      (found : Option ObjectIdentity) (staging : s.StagingArea) (name : Bytes) (r : SnapshotRecord)
      → Keeps inv (prepare_found codec s found staging name r) Anything
  unfolding prepare_found
  prepare_found-Keeps none staging name r = disk-Keeps inv _
  prepare_found-Keeps (some found) staging name r =
      chain inv (attempt-Keeps inv (disk-Keeps inv _))
        (λ verified k. keep_copy-Keeps verified staging name r)

  pub prepare_copy-Keeps :
      (staging : s.StagingArea) (name : Bytes) (r : SnapshotRecord)
      → Keeps inv (prepare_copy codec s staging name r) Anything
  unfolding prepare_copy
  prepare_copy-Keeps staging name r =
      chain inv (disk-Keeps inv _) (λ found k. prepare_found-Keeps found staging name r)

  bind_restoration-Keeps :
      (logical_present : Bool) (identity : Option ObjectIdentity) (plan : RestorePlan)
      (name : Bytes) (staging : s.StagingArea) (r : SnapshotRecord)
      → InPhase (restore_intent plan) r
      → Keeps inv
          (bind_restoration codec s logical_present identity plan name staging r)
          (λ binding. Resumes plan binding.0)
  unfolding bind_restoration Resumes
  bind_restoration-Keeps true none plan name staging r intent =
      chain inv (prepare_copy-Keeps staging name r) (λ identity k.
        let bound = record plan { restore_name = some name; restore_identity = some identity } in
        chain inv
          (transition-Keeps inv r (restore_intent bound) intent.unblocked
            (rw intent.phase (bind plan bound refl refl)))
          (λ next e.
            give-Keeps inv (next, some identity)
              (
                bound,
                moved-InPhase codec r next (restore_intent bound) intent.unblocked e,
                refl,
                refl,
              )))
  bind_restoration-Keeps true (some identity) plan name staging r intent =
      give-Keeps inv (r, some identity) (plan, intent, refl, refl)
  bind_restoration-Keeps false identity plan name staging r intent =
      give-Keeps inv (r, identity) (plan, intent, refl, refl)

  restore_move-Keeps :
      (origin : RestoreOrigin) (identity : Option ObjectIdentity) (name : Bytes)
      (r : SnapshotRecord)
      → Unblocked r
      → Keeps inv (restore_move codec s origin identity name r) Anything
  unfolding restore_move
  restore_move-Keeps from_installed (some restoration) name r unblocked =
      chain inv (expect-Keeps inv r.header.placeholder _) (λ placeholder k. give-Keeps inv _ tt)
  restore_move-Keeps from_installed none name r unblocked =
      chain inv (expect-Keeps inv r.header.placeholder _) (λ placeholder k. give-Keeps inv _ tt)
  restore_move-Keeps from_stored (some restoration) name r unblocked = give-Keeps inv _ tt
  restore_move-Keeps from_stored none name r unblocked = conflict-Keeps inv r _ unblocked

  confirm_target-Keeps :
      (logical_present : Bool) (identity : Option ObjectIdentity) (resolved : s.ResolvedPath)
      (r : SnapshotRecord) (observed : Layout)
      → Unblocked r
      → Keeps inv (confirm_target codec s logical_present identity resolved r observed) Anything
  unfolding confirm_target
  confirm_target-Keeps true (some expected) resolved r observed unblocked =
      chain inv (attempt-Keeps inv (disk-Keeps inv _)) (λ verified k.
        chain inv (or_conflict-Keeps inv verified r _ unblocked) (λ actual k2.
          chain inv (agree-Keeps inv _ r _ unblocked) (λ done k3. give-Keeps inv _ tt)))
  confirm_target-Keeps true none resolved r observed unblocked = fail-Keeps inv _
  confirm_target-Keeps false identity resolved r observed unblocked =
      chain inv (disk-Keeps inv _) (λ target k.
        chain inv (agree-Keeps inv _ r _ unblocked) (λ done k2. give-Keeps inv observed tt))

  complete-Keeps :
      (plan : RestorePlan) (r : SnapshotRecord) (result : RestoreResult)
      → Resumes plan r
      → result.origin ≡ plan.origin
      → result.detached_identity ≡ plan.detached_identity
      → Keeps inv (transition codec s r (restored result)) Unblocked
  unfolding Resumes
  complete-Keeps plan r result (now, intent, origin, detached) same_origin same_detached =
      weaken inv
        (transition-Keeps inv r (restored result) intent.unblocked (
          rw intent.phase
            (complete now result (origin ∙ sym same_origin) (detached ∙ sym same_detached))))
        (λ next e. (moved-InPhase codec r next (restored result) intent.unblocked e).unblocked)

  Resumes-Unblocked : (plan : RestorePlan) (r : SnapshotRecord) → Resumes plan r → Unblocked r
  unfolding Resumes
  Resumes-Unblocked plan r (now, intent, origin, detached) = intent.unblocked

  finish_restore_plan-Keeps :
      (plan : RestorePlan) (resolved : s.ResolvedPath) (staging : s.StagingArea)
      (first : SnapshotRecord)
      → InPhase (restore_intent plan) first
      → Keeps inv (finish_restore_plan codec s plan resolved staging first) Unblocked
  unfolding finish_restore_plan
  finish_restore_plan-Keeps plan resolved staging first intent =
      chain inv (expect-Keeps inv plan.restore_name _) (λ name k.
        chain inv (disk-Keeps inv _) (λ done k2.
          chain inv
            (bind_restoration-Keeps first.header.logical_present plan.restore_identity plan name
              staging first intent)
            (λ binding resumes.
              let r = binding.0 in
              let unblocked = Resumes-Unblocked plan r resumes in
              chain inv (restore_move-Keeps plan.origin binding.1 name r unblocked) (λ move k3.
                chain inv (look-Keeps inv resolved staging name) (λ seen k4.
                  chain inv (settled-Keeps inv _ _ _ resolved staging name seen) (λ settled k5.
                    chain inv (agree-Keeps inv _ r _ unblocked) (λ done2 k6.
                      chain inv
                        (confirm_target-Keeps r.header.logical_present binding.1 resolved r settled
                          unblocked)
                        (λ observed k7.
                          chain inv (disk-Keeps inv _)
                            (λ done3 k8. complete-Keeps plan r _ resumes refl refl)))))))))

  finish_restore_with-Keeps :
      (lifecycle : Lifecycle) (resolved : s.ResolvedPath) (staging : s.StagingArea)
      (r : SnapshotRecord)
      → InPhase lifecycle r
      → Keeps inv (finish_restore_with codec s lifecycle resolved staging r) Unblocked
  unfolding finish_restore_with
  finish_restore_with-Keeps (restore_intent plan) resolved staging r h =
      finish_restore_plan-Keeps plan resolved staging r h
  finish_restore_with-Keeps _ resolved staging r h = fail-Keeps inv _

  pub finish_restore-Keeps :
      (r : SnapshotRecord) → Unblocked r → Keeps inv (finish_restore codec s r) Unblocked
  unfolding finish_restore
  finish_restore-Keeps r unblocked = chain inv (record_path-Keeps inv r) (λ path found_path.
      chain inv (resolve_bound_path-Keeps inv path r) (λ resolved k.
        chain inv (open_staging-Keeps inv r) (λ staging k2.
          finish_restore_with-Keeps r.header.lifecycle resolved staging r
            (record { phase = refl; unblocked = unblocked }))))

  require_origin-Keeps :
      (origin : RestoreOrigin) (path : FilePath) (r : SnapshotRecord)
      (detached : Option ObjectIdentity)
      → Unblocked r
      → Keeps inv (require_origin codec s origin path r detached) (λ a. a ≡ r)
  unfolding require_origin
  require_origin-Keeps from_installed path r detached unblocked =
      require_installed_layout-Keeps inv path r detached unblocked
  require_origin-Keeps from_stored path r detached unblocked =
      require_stored-Keeps inv path r unblocked

  pub begin_restore-Keeps :
      (r : SnapshotRecord) → Unblocked r → Keeps inv (begin_restore codec s r) Unblocked
  unfolding begin_restore
  begin_restore-Keeps first unblocked = chain inv (record_path-Keeps inv first) (λ path found_path.
      chain inv (expect-Keeps inv (restore_plan first.header first.header.lifecycle) _)
        (λ plan planned.
          chain inv (require_origin-Keeps plan.origin path first plan.detached_identity unblocked)
            (λ r same. chain inv (resolve_bound_path-Keeps inv path r) (λ resolved k.
              chain inv (open_staging-Keeps inv r) (λ staging k2.
                chain inv (disk-Keeps inv _) (λ token k3.
                  start-Keeps path plan planned r same resolved staging
                    (some (entry_name r.header.logical_present token))))))))
    where
      start-Keeps :
          (path : FilePath) (plan : RestorePlan)
          → restore_plan first.header first.header.lifecycle ≡ some plan
          → (r : SnapshotRecord) → r ≡ first
          → (resolved : s.ResolvedPath) (staging : s.StagingArea) (name : Option Bytes)
          → Keeps inv
              (transition codec s r (restore_intent (record plan { restore_name = name }))
                >>= λ restoring.
                    finish_restore_with codec s restoring.header.lifecycle resolved staging
                      restoring)
              Unblocked
      start-Keeps path plan planned r same resolved staging name =
          let free : Unblocked r = rw same unblocked in
          let intent = restore_intent (record plan { restore_name = name }) in
          chain inv
            (transition-Keeps inv r intent free
              (rw same (restore_plan-Edge first.header first.header.lifecycle plan name planned)))
            (λ restoring e.
              finish_restore_with-Keeps restoring.header.lifecycle resolved staging restoring
                (record {
                  phase = refl;
                  unblocked = (moved-InPhase codec r restoring intent free e).unblocked;
                }))

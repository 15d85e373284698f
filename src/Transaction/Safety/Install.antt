-- ===== src/Transaction/Safety/Install.antt =====
-- Capture, installation and storage offline in src/transaction.rs, and an invariant of the store.
use file_guard.Prelude.{
  ◌≡◌, refl, Bool, true, false, ◌&&◌, Option, none, some, if◌then◌else◌, ◌==◌, ℕ_eq, Bytes,
  Bytes_eq, Option_Bytes_eq, Bool-discrete, Bool_eq, ok, err,
}
use file_guard.Files.FilePath.{FilePath}
use file_guard.Record.{
  RestoreMetadata, ObjectIdentity, OriginalState, present, absent, metadata, existed, Lifecycle,
  install_intent, store_intent, stored, SnapshotRecord, Codec, successor, Lifecycle-discrete,
  Timestamp_eq, Option_ObjectIdentity_eq, ObjectIdentity_eq, RestoreOrigin_eq, Lifecycle_eq,
  OriginalState_eq, RecordVersion_eq, SnapshotRecord_eq, UnmountNext_eq,
}
use file_guard.Record.Checks.{identities_match_after_rename}
use file_guard.Record.Structure.{is_some}
use file_guard.Record.Transition.{is_first_capture}
use file_guard.Record.Edges.{store}
use file_guard.Fuse.Commit.{Outcome}
use file_guard.Transaction.System.{Effect, System, ◌>>◌, give}
use file_guard.Transaction.Commits.{Layout, commit_successor, look, rename}
use file_guard.Transaction.Validation.{Xattrs_eq, require_installed}
use file_guard.Transaction.Install.{
  first_record, installing_record, installed_record, capture_record, create_staging,
  keep_placeholder, prepare_placeholder, begin_install, prepare_offline_staging, verify_detached,
  finish_install, capture_new, finish_store_with, finish_store_in, finish_store,
}
use file_guard.Transaction.Safety.Logic.{
  Invariant, Keeps, Anything, chain, give-Keeps, fail-Keeps, weaken, attempt-Keeps, if-Keeps,
  disk-Keeps, lift-Keeps, expect-Keeps, require-Keeps, stored-Keeps,
}
use file_guard.Transaction.Safety.Commits.{Unblocked, installing-Follows, installed-Follows}
use file_guard.Transaction.Safety.Calls.{
  record_path-Keeps, commit_successor-Keeps, transition-Keeps, conflict-Keeps, agree-Keeps,
  or_conflict-Keeps, resolve_bound_path-Keeps, open_staging-Keeps, look-Keeps, rename-Keeps,
}
use file_guard.Transaction.Safety.Validation.{
  validate_captured_source-Keeps, require_installed-Keeps, require_stored-Keeps,
}
use file_guard.Transaction.Safety.Phases.{
  InPhase, Bare, Installed, moved-InPhase, same-InPhase, install_after-matches,
}

module _ {codec : Codec} {s : System} (inv : Invariant codec s) where
  pub capture_record-Keeps :
      (path : FilePath) (require_present : Bool)
      → Keeps inv (capture_record codec s path require_present) Bare
  unfolding capture_record first_record is_first_capture is_some existed Bool-discrete
      Lifecycle-discrete
  capture_record-Keeps path require_present = chain inv (disk-Keeps inv _) (λ resolved k.
      chain inv (disk-Keeps inv _) (λ source k2. chain inv (require-Keeps inv _ _) (λ done k3.
        chain inv (disk-Keeps inv _) (λ parent k4. chain inv (disk-Keeps inv _) (λ generation k5.
          chain inv (disk-Keeps inv _) (λ root k6. chain inv (lift-Keeps inv) (λ staging_path k7.
            chain inv (disk-Keeps inv _) (λ mount_token k8.
              let first =
                first_record codec (s.path resolved) source parent generation staging_path
                  mount_token in
              chain inv
                (stored-Keeps inv _ (λ kept h.
                  inv.captures kept path first (first_capture_lem (existed source.original)) refl
                    h))
                (λ committed k9. give-Keeps inv first (record {
                  in_phase = record { phase = refl; unblocked = refl };
                  bare = refl;
                }))))))))))
    where
      first_capture_lem : (b : Bool) → (true && b == b && true && true) ≡ true
      first_capture_lem true = refl
      first_capture_lem false = refl

  create_staging-Keeps : (r : SnapshotRecord) → Keeps inv (create_staging codec s r) Anything
  unfolding create_staging
  create_staging-Keeps r =
      chain inv (lift-Keeps inv)
        (λ staging_path k. chain inv (expect-Keeps inv _ _) (λ root k2. disk-Keeps inv _))

  keep_placeholder-Keeps :
      (verified : Outcome ObjectIdentity) (staging : s.StagingArea) (name : Bytes)
      (m : RestoreMetadata)
      → Keeps inv (keep_placeholder codec s verified staging name m) Anything
  unfolding keep_placeholder
  keep_placeholder-Keeps (ok identity) staging name m = give-Keeps inv identity tt
  keep_placeholder-Keeps (err e) staging name m =
      chain inv (disk-Keeps inv _) (λ done k. disk-Keeps inv _)

  prepare_placeholder-Keeps :
      (found : Option ObjectIdentity) (staging : s.StagingArea) (name : Bytes) (m : RestoreMetadata)
      → Keeps inv (prepare_placeholder codec s found staging name m) Anything
  unfolding prepare_placeholder
  prepare_placeholder-Keeps none staging name m = disk-Keeps inv _
  prepare_placeholder-Keeps (some identity) staging name m =
      chain inv (attempt-Keeps inv (disk-Keeps inv _))
        (λ verified k. keep_placeholder-Keeps verified staging name m)

  pub begin_install-Keeps :
      (r : SnapshotRecord) → Bare r → Keeps inv (begin_install codec s r) (InPhase install_intent)
  unfolding begin_install installing_record successor
  begin_install-Keeps r capture =
      let unblocked = capture.in_phase.unblocked in
      chain inv (record_path-Keeps inv r) (λ path found_path.
        chain inv (resolve_bound_path-Keeps inv path r) (λ resolved k.
          chain inv (attempt-Keeps inv (validate_captured_source-Keeps inv r resolved))
            (λ checked k2. chain inv (or_conflict-Keeps inv checked r _ unblocked) (λ done k3.
              chain inv (create_staging-Keeps r) (λ staging k4.
                chain inv (disk-Keeps inv _) (λ done2 k5. chain inv (disk-Keeps inv _) (λ found k6.
                  chain inv
                    (prepare_placeholder-Keeps found staging r.header.swap_name
                      (metadata r.header.original))
                    (λ placeholder k7.
                      chain inv
                        (commit_successor-Keeps inv r (installing_record codec r placeholder) (
                          installing-Follows codec r unblocked placeholder capture.in_phase.phase
                            capture.bare))
                        (λ done3 k8.
                          give-Keeps inv _ (record { phase = refl; unblocked = unblocked }))))))))))

  pub prepare_offline_staging-Keeps :
      (r : SnapshotRecord)
      → Unblocked r
      → Keeps inv (prepare_offline_staging codec s r) (λ a. a ≡ r)
  unfolding prepare_offline_staging
  prepare_offline_staging-Keeps r unblocked =
      chain inv (record_path-Keeps inv r) (λ path found_path.
        chain inv (resolve_bound_path-Keeps inv path r) (λ resolved k.
          chain inv (attempt-Keeps inv (validate_captured_source-Keeps inv r resolved))
            (λ checked k2. chain inv (or_conflict-Keeps inv checked r _ unblocked) (λ done k3.
              chain inv (create_staging-Keeps r) (λ staging k4.
                chain inv (disk-Keeps inv _) (λ empty k5.
                  chain inv (agree-Keeps inv empty r _ unblocked)
                    (λ done2 k6. give-Keeps inv r refl)))))))

  -- The layout seen, or the one after a rename that was due.
  pub settled-Keeps :
      (due : Bool) (operation : Effect s.Disk (Unit {0})) (settled : Layout → Bool)
      (resolved : s.ResolvedPath) (staging : s.StagingArea) (name : Bytes) (first : Layout)
      → Keeps inv
          (if due
            then rename codec s operation (look codec s resolved staging name) settled
            else give first)
          Anything
  settled-Keeps due operation settled resolved staging name first =
      if-Keeps inv due
        (λ h. rename-Keeps inv operation _ settled (look-Keeps inv resolved staging name))
        (λ h. give-Keeps inv first tt)

  verify_detached-Keeps :
      (original : OriginalState) (staging : s.StagingArea) (r : SnapshotRecord)
      → Keeps inv (verify_detached codec s original staging r) Anything
  unfolding verify_detached
  verify_detached-Keeps (present identity m) staging r =
      chain inv (disk-Keeps inv _) (λ actual k. give-Keeps inv tt tt)
  verify_detached-Keeps (absent presentation) staging r = give-Keeps inv tt tt

  -- What `finish_install` does once the layout is the installed one.
  conclude_install-Keeps :
      (path : FilePath) (r : SnapshotRecord) (placeholder : ObjectIdentity) (observed : Layout)
      → InPhase install_intent r
      → r.header.placeholder ≡ some placeholder
      → identities_match_after_rename (some placeholder) observed.0 ≡ true
      → Keeps inv
          (commit_successor codec s r (installed_record codec r observed)
            >> require_installed codec s path (installed_record codec r observed))
          Installed
  unfolding installed_record successor
  conclude_install-Keeps path r placeholder observed intent bound same =
      let kept : identities_match_after_rename r.header.placeholder observed.0 ≡ true =
        rw bound same in
      chain inv
        (commit_successor-Keeps inv r (installed_record codec r observed)
          (installed-Follows codec r intent.unblocked observed intent.phase kept))
        (λ done k.
          weaken inv
            (require_installed-Keeps inv path (installed_record codec r observed) intent.unblocked)
            (λ a e.
              (observed.1, same-InPhase (record { phase = refl; unblocked = intent.unblocked }) e)))

  pub finish_install-Keeps :
      (r : SnapshotRecord)
      → InPhase install_intent r
      → Keeps inv (finish_install codec s r) Installed
  unfolding finish_install
  finish_install-Keeps r intent = chain inv (record_path-Keeps inv r) (λ path found_path.
      chain inv (resolve_bound_path-Keeps inv path r) (λ resolved k.
        chain inv (open_staging-Keeps inv r) (λ staging k2.
          chain inv (expect-Keeps inv r.header.placeholder _) (λ placeholder bound.
            chain inv (look-Keeps inv resolved staging r.header.swap_name) (λ first k3.
              chain inv (settled-Keeps _ _ _ resolved staging r.header.swap_name first)
                (λ observed k4. chain inv (agree-Keeps inv _ r _ intent.unblocked) (λ done after.
                  chain inv (attempt-Keeps inv (verify_detached-Keeps r.header.original staging r))
                    (λ verified k5.
                      chain inv (or_conflict-Keeps inv verified r _ intent.unblocked) (λ done2 k6.
                        chain inv (disk-Keeps inv _) (λ done3 k7.
                          conclude_install-Keeps path r placeholder observed intent bound (
                            install_after-matches r.header.original placeholder observed
                              after)))))))))))

  pub capture_new-Keeps : (path : FilePath) → Keeps inv (capture_new codec s path) Installed
  unfolding capture_new
  capture_new-Keeps path = chain inv (capture_record-Keeps path false) (λ r capture.
      chain inv (begin_install-Keeps r capture)
        (λ installing intent. finish_install-Keeps installing intent))

  finish_store_with-Keeps :
      (r : SnapshotRecord) (name : Bytes) (identity : ObjectIdentity) (m : RestoreMetadata)
      → InPhase (store_intent name) r
      → Keeps inv (finish_store_with codec s r name identity m) Unblocked
  unfolding finish_store_with
  finish_store_with-Keeps r name identity m intent =
      chain inv (record_path-Keeps inv r) (λ path found_path.
        chain inv (resolve_bound_path-Keeps inv path r) (λ resolved k.
          chain inv (open_staging-Keeps inv r) (λ staging k2.
            chain inv (look-Keeps inv resolved staging name) (λ first k3.
              chain inv (settled-Keeps _ _ _ resolved staging name first) (λ observed k4.
                chain inv (agree-Keeps inv _ r _ intent.unblocked) (λ done k5.
                  chain inv (attempt-Keeps inv (disk-Keeps inv _)) (λ verified k6.
                    chain inv (or_conflict-Keeps inv verified r _ intent.unblocked) (λ actual k7.
                      chain inv (agree-Keeps inv _ r _ intent.unblocked) (λ done2 k8.
                        chain inv (disk-Keeps inv _) (λ done3 k9.
                          chain inv
                            (transition-Keeps inv r (stored name actual) intent.unblocked
                              (rw intent.phase (store name name actual refl)))
                            (λ stored_now e.
                              let now =
                                moved-InPhase codec r stored_now (stored name actual)
                                  intent.unblocked e in
                              weaken inv (require_stored-Keeps inv path stored_now now.unblocked)
                                (λ a same. (same-InPhase now same).unblocked))))))))))))

  finish_store_in-Keeps :
      (lifecycle : Lifecycle) (original : OriginalState) (r : SnapshotRecord)
      → InPhase lifecycle r
      → Keeps inv (finish_store_in codec s lifecycle original r) Unblocked
  unfolding finish_store_in
  finish_store_in-Keeps (store_intent name) (present identity m) r h =
      finish_store_with-Keeps r name identity m h
  finish_store_in-Keeps (store_intent name) (absent presentation) r h =
      conflict-Keeps inv r _ h.unblocked
  finish_store_in-Keeps _ original r h = fail-Keeps inv _

  pub finish_store-Keeps :
      (r : SnapshotRecord) → Unblocked r → Keeps inv (finish_store codec s r) Unblocked
  unfolding finish_store
  finish_store-Keeps r unblocked =
      finish_store_in-Keeps r.header.lifecycle r.header.original r
        (record { phase = refl; unblocked = unblocked })

-- ===== src/Transaction/Safety/Validation.antt =====
-- The checks on the directories in src/transaction.rs, and an invariant of the store.
use file_guard.Prelude.{
  String, ◌≡◌, refl, Bool, true, false, Option, none, some, ℕ_eq, Bytes, Bytes_eq, Option_Bytes_eq,
  Bool_eq,
}
use file_guard.Files.FilePath.{FilePath}
use file_guard.Record.{
  RestoreMetadata, ObjectIdentity, OriginalState, present, absent, Lifecycle, installed, restored,
  delete_intent, stored, SnapshotRecord, Codec, Timestamp_eq, Option_ObjectIdentity_eq,
  ObjectIdentity_eq, RestoreOrigin_eq, Lifecycle_eq, OriginalState_eq, RecordVersion_eq,
  SnapshotRecord_eq, UnmountNext_eq,
}
use file_guard.Transaction.System.{Effect, System, World, ◌>>=◌, ◌>>◌, give, attempt, require}
use file_guard.Transaction.Commits.{or_conflict}
use file_guard.Transaction.Validation.{
  Xattrs_eq, source_unchanged, validate_source, validate_captured_source, validate_detached,
  validate_installed_layout, require_installed_layout, require_installed_in, require_installed,
  validate_stored_in, validate_stored, require_stored, validate_target, validate_restored_in,
  validate_restored_target,
}
use file_guard.Transaction.Safety.Logic.{
  Invariant, Keeps, Anything, chain, give-Keeps, fail-Keeps, weaken, attempt-Keeps, disk-Keeps,
  expect-Keeps, require-Keeps,
}
use file_guard.Transaction.Safety.Commits.{Unblocked}
use file_guard.Transaction.Safety.Calls.{
  conflict-Keeps, or_conflict-Keeps, resolve_bound_path-Keeps, open_staging-Keeps,
}

module _ {codec : Codec} {s : System} (inv : Invariant codec s) where
  checks :
      {A : Type 0} {m : Effect (World s) A} (f : A → Bool) (reason : String)
      → Keeps inv m Anything
      → Keeps inv (m >>= λ a. require (f a) reason) Anything
  checks f reason first =
      chain inv first (λ a k. weaken inv (require-Keeps inv (f a) reason) (λ done k2. tt))

  source_unchanged-Keeps :
      (original : OriginalState) (identity : ObjectIdentity) (m : RestoreMetadata)
      (contents expected : Bytes)
      → Keeps inv (source_unchanged codec s original identity m contents expected) Anything
  unfolding source_unchanged
  source_unchanged-Keeps (present found m2) identity m contents expected =
      weaken inv (require-Keeps inv _ _) (λ done k. tt)
  source_unchanged-Keeps (absent presentation) identity m contents expected = fail-Keeps inv _

  validate_source-Keeps :
      (original : OriginalState) (r : SnapshotRecord) (resolved : s.ResolvedPath)
      → Keeps inv (validate_source codec s original r resolved) Anything
  unfolding validate_source
  validate_source-Keeps (present identity m) r resolved =
      chain inv (disk-Keeps inv _)
        (λ found k. source_unchanged-Keeps found.original identity m found.contents r.contents)
  validate_source-Keeps (absent presentation) r resolved = checks _ _ (disk-Keeps inv _)

  pub validate_captured_source-Keeps :
      (r : SnapshotRecord) (resolved : s.ResolvedPath)
      → Keeps inv (validate_captured_source codec s r resolved) Anything
  unfolding validate_captured_source
  validate_captured_source-Keeps r resolved = validate_source-Keeps r.header.original r resolved

  validate_detached-Keeps :
      (original : OriginalState) (detached : Option ObjectIdentity) (staging : s.StagingArea)
      (name : Bytes)
      → Keeps inv (validate_detached codec s original detached staging name) Anything
  unfolding validate_detached
  validate_detached-Keeps (present identity m) (some d) staging name = checks _ _ (disk-Keeps inv _)
  validate_detached-Keeps (absent presentation) none staging name = checks _ _ (disk-Keeps inv _)
  validate_detached-Keeps (present identity m) none staging name = fail-Keeps inv _
  validate_detached-Keeps (absent presentation) (some d) staging name = fail-Keeps inv _

  validate_installed_layout-Keeps :
      (path : FilePath) (r : SnapshotRecord) (detached : Option ObjectIdentity)
      → Keeps inv (validate_installed_layout codec s path r detached) Anything
  unfolding validate_installed_layout
  validate_installed_layout-Keeps path r detached =
      chain inv (resolve_bound_path-Keeps inv path r) (λ resolved k.
        chain inv (open_staging-Keeps inv r) (λ staging k2.
          chain inv (expect-Keeps inv r.header.placeholder _) (λ placeholder k3.
            chain inv (disk-Keeps inv _) (λ observed k4.
              chain inv (require-Keeps inv _ _) (λ done k5.
                validate_detached-Keeps r.header.original detached staging r.header.swap_name)))))

  -- A check that fails blocks the record.
  checked-Keeps :
      {m : Effect (World s) (Unit {0})} (reason : String) (r : SnapshotRecord)
      → Unblocked r
      → Keeps inv m Anything
      → Keeps inv
          (attempt m >>= λ checked. or_conflict codec s checked r reason >> give r)
          (λ a. a ≡ r)
  checked-Keeps reason r unblocked first = chain inv (attempt-Keeps inv first) (λ checked k.
      chain inv (or_conflict-Keeps inv checked r reason unblocked)
        (λ done k2. give-Keeps inv r refl))

  pub require_installed_layout-Keeps :
      (path : FilePath) (r : SnapshotRecord) (detached : Option ObjectIdentity)
      → Unblocked r
      → Keeps inv (require_installed_layout codec s path r detached) (λ a. a ≡ r)
  unfolding require_installed_layout
  require_installed_layout-Keeps path r detached unblocked =
      checked-Keeps _ r unblocked (validate_installed_layout-Keeps path r detached)

  require_installed_in-Keeps :
      (lifecycle : Lifecycle) (path : FilePath) (r : SnapshotRecord)
      → Unblocked r
      → Keeps inv (require_installed_in codec s lifecycle path r) (λ a. a ≡ r)
  unfolding require_installed_in
  require_installed_in-Keeps (installed detached) path r unblocked =
      require_installed_layout-Keeps path r detached unblocked
  require_installed_in-Keeps _ path r unblocked = conflict-Keeps inv r _ unblocked

  pub require_installed-Keeps :
      (path : FilePath) (r : SnapshotRecord)
      → Unblocked r
      → Keeps inv (require_installed codec s path r) (λ a. a ≡ r)
  unfolding require_installed
  require_installed-Keeps path r unblocked =
      require_installed_in-Keeps r.header.lifecycle path r unblocked

  validate_stored_in-Keeps :
      (lifecycle : Lifecycle) (original : OriginalState) (path : FilePath) (r : SnapshotRecord)
      → Keeps inv (validate_stored_in codec s lifecycle original path r) Anything
  unfolding validate_stored_in
  validate_stored_in-Keeps (stored name d) (present identity m) path r =
      chain inv (resolve_bound_path-Keeps inv path r) (λ resolved k.
        chain inv (open_staging-Keeps inv r) (λ staging k2.
          chain inv (disk-Keeps inv _) (λ target k3.
            chain inv (require-Keeps inv _ _) (λ done k4. checks _ _ (disk-Keeps inv _)))))
  validate_stored_in-Keeps (stored name d) (absent presentation) path r = fail-Keeps inv _
  validate_stored_in-Keeps _ original path r = fail-Keeps inv _

  pub require_stored-Keeps :
      (path : FilePath) (r : SnapshotRecord)
      → Unblocked r
      → Keeps inv (require_stored codec s path r) (λ a. a ≡ r)
  unfolding require_stored validate_stored
  require_stored-Keeps path r unblocked =
      checked-Keeps _ r unblocked
        (validate_stored_in-Keeps r.header.lifecycle r.header.original path r)

  validate_target-Keeps :
      (identity : Option ObjectIdentity) (logical_present : Bool) (r : SnapshotRecord)
      (resolved : s.ResolvedPath)
      → Keeps inv (validate_target codec s identity logical_present r resolved) Anything
  unfolding validate_target
  validate_target-Keeps (some expected) true r resolved = checks _ _ (disk-Keeps inv _)
  validate_target-Keeps none false r resolved = checks _ _ (disk-Keeps inv _)
  validate_target-Keeps (some expected) false r resolved = fail-Keeps inv _
  validate_target-Keeps none true r resolved = fail-Keeps inv _

  validate_restored_in-Keeps :
      (lifecycle : Lifecycle) (r : SnapshotRecord) (resolved : s.ResolvedPath)
      → Keeps inv (validate_restored_in codec s lifecycle r resolved) Anything
  unfolding validate_restored_in
  validate_restored_in-Keeps (restored result) r resolved =
      validate_target-Keeps result.restored_identity r.header.logical_present r resolved
  validate_restored_in-Keeps (delete_intent result) r resolved =
      validate_target-Keeps result.restored_identity r.header.logical_present r resolved
  validate_restored_in-Keeps _ r resolved = fail-Keeps inv _

  pub validate_restored_target-Keeps :
      (r : SnapshotRecord) (resolved : s.ResolvedPath)
      → Keeps inv (validate_restored_target codec s r resolved) Anything
  unfolding validate_restored_target
  validate_restored_target-Keeps r resolved =
      validate_restored_in-Keeps r.header.lifecycle r resolved

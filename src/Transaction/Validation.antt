-- ===== src/Transaction/Validation.antt =====
-- What the manager requires of the directories in a phase: `validate_installed_layout`,
-- `validate_stored`, `validate_captured_source` and `validate_restored_target` of
-- src/transaction.rs.
use file_guard.Prelude.{
  Bool, true, false, not, ◌||◌, Option, none, some, List, Eq, ◌==◌, ◌!=◌, ℕ_eq, discrete_eq, Bytes,
  Bytes_eq, Option_Bytes_eq, Bool_eq,
}
use file_guard.Process.{ascii}
use file_guard.Files.FilePath.{FilePath}
use file_guard.Record.{
  ExtendedAttribute, RestoreMetadata, ObjectIdentity, OriginalState, present, absent, metadata,
  Lifecycle, installed, restored, delete_intent, stored, SnapshotRecord, Codec,
  ExtendedAttribute-discrete, Timestamp_eq, Option_ObjectIdentity_eq, ObjectIdentity_eq,
  RestoreOrigin_eq, Lifecycle_eq, OriginalState_eq, RecordVersion_eq, SnapshotRecord_eq,
}
use file_guard.Record.Structure.{is_some}
use file_guard.Transaction.System.{
  Effect, System, World, ◌>>=◌, ◌>>◌, give, bail, attempt, require, expect, disk,
}
use file_guard.Transaction.Commits.{conflict, or_conflict, resolve_bound_path, open_staging}

unfoldable pub Xattrs-discrete : Discrete (List ExtendedAttribute)
Xattrs-discrete = hlevel ExtendedAttribute-discrete

instance abbrev pub Xattrs_eq : Eq (List ExtendedAttribute)
Xattrs_eq = discrete_eq Xattrs-discrete

-- The comparison of `validate_captured_source`: every field but the access time.
unfoldable pub same_source :
    ObjectIdentity → RestoreMetadata → Bytes → ObjectIdentity → RestoreMetadata → Bytes → Bool
same_source identity m contents expected_identity expected expected_contents = not (
    identity != expected_identity
    || contents != expected_contents
    || m.uid != expected.uid
    || m.gid != expected.gid
    || m.mode != expected.mode
    || m.mtime != expected.mtime
    || m.xattrs != expected.xattrs)

module _ (codec : Codec) (s : System) where
  unfoldable pub source_unchanged :
      OriginalState → ObjectIdentity → RestoreMetadata → Bytes → Bytes → Effect (World s) (Unit {0})
  unfolding same_source
  source_unchanged (present identity m) expected_identity expected contents expected_contents =
      require (same_source identity m contents expected_identity expected expected_contents)
        "captured file no longer matches its durable snapshot"
  source_unchanged (absent presentation) expected_identity expected contents expected_contents =
      bail "captured file disappeared"

  unfoldable pub validate_source :
      OriginalState → SnapshotRecord → s.ResolvedPath → Effect (World s) (Unit {0})
  unfolding source_unchanged is_some
  validate_source (present expected_identity expected) r resolved = do
    captured_now ← disk s (s.capture resolved)
    source_unchanged captured_now.original expected_identity expected captured_now.contents
        r.contents
  validate_source (absent presentation) r resolved = do
    observed ← disk s (s.observe resolved)
    require (not (is_some observed)) "captured absent path appeared"

  unfoldable pub validate_captured_source :
      SnapshotRecord → s.ResolvedPath → Effect (World s) (Unit {0})
  unfolding validate_source
  validate_captured_source r resolved = validate_source r.header.original r resolved

  -- The `match` of `validate_installed_layout` on the captured source and the detached original.
  unfoldable pub validate_detached :
      OriginalState → Option ObjectIdentity → s.StagingArea → Bytes → Effect (World s) (Unit {0})
  unfolding is_some
  validate_detached (present identity m) (some detached) staging name = do
    observed ← disk s (s.observe_staged staging name)
    require (observed == some detached) "inconsistent installed recovery state"
  validate_detached (absent presentation) none staging name = do
    observed ← disk s (s.observe_staged staging name)
    require (not (is_some observed)) "inconsistent installed recovery state"
  validate_detached _ _ staging name = bail "inconsistent installed recovery state"

  unfoldable pub validate_installed_layout :
      FilePath → SnapshotRecord → Option ObjectIdentity → Effect (World s) (Unit {0})
  unfolding resolve_bound_path open_staging validate_detached
  validate_installed_layout path r detached_original = do
    resolved ← resolve_bound_path codec s path r
    staging ← open_staging codec s r
    placeholder ← expect r.header.placeholder "installed snapshot has no placeholder identity"
    observed ← disk s (s.observe resolved)
    require (observed == some placeholder) "the path no longer contains the recorded placeholder"
    validate_detached r.header.original detached_original staging r.header.swap_name

  unfoldable pub require_installed_layout :
      FilePath → SnapshotRecord → Option ObjectIdentity → Effect (World s) SnapshotRecord
  unfolding validate_installed_layout or_conflict
  require_installed_layout path r detached_original = do
    checked ← attempt (validate_installed_layout path r detached_original)
    or_conflict codec s checked r "installed filesystem layout is invalid"
    give r

  -- `require_installed`, on the phase of the record.
  unfoldable pub require_installed_in :
      Lifecycle → FilePath → SnapshotRecord → Effect (World s) SnapshotRecord
  unfolding require_installed_layout conflict
  require_installed_in (installed detached_original) path r =
      require_installed_layout path r detached_original
  require_installed_in _ path r =
      conflict codec s r (ascii "record claims an invalid installed lifecycle")

  unfoldable pub require_installed : FilePath → SnapshotRecord → Effect (World s) SnapshotRecord
  unfolding require_installed_in
  require_installed path r = require_installed_in r.header.lifecycle path r

  unfoldable pub validate_stored_in :
      Lifecycle → OriginalState → FilePath → SnapshotRecord → Effect (World s) (Unit {0})
  unfolding resolve_bound_path open_staging is_some
  validate_stored_in (stored detached_name detached_original) (present identity m) path r = do
    resolved ← resolve_bound_path codec s path r
    staging ← open_staging codec s r
    target ← disk s (s.observe resolved)
    require (not (is_some target)) "inconsistent offline-store state"
    staged ← disk s (s.observe_staged staging detached_name)
    require (staged == some detached_original) "inconsistent offline-store state"
  validate_stored_in (stored detached_name detached_original) (absent presentation) path r =
      bail "stored record claims its original path was absent"
  validate_stored_in _ original path r = bail "record is not stored offline"

  unfoldable pub validate_stored : FilePath → SnapshotRecord → Effect (World s) (Unit {0})
  unfolding validate_stored_in
  validate_stored path r = validate_stored_in r.header.lifecycle r.header.original path r

  unfoldable pub require_stored : FilePath → SnapshotRecord → Effect (World s) SnapshotRecord
  unfolding validate_stored or_conflict
  require_stored path r = do
    checked ← attempt (validate_stored path r)
    or_conflict codec s checked r "offline-store filesystem layout is invalid"
    give r

  -- The `match` of `validate_restored_target` on the restored inode.
  unfoldable pub validate_target :
      Option ObjectIdentity → Bool → SnapshotRecord → s.ResolvedPath → Effect (World s) (Unit {0})
  unfolding is_some
  validate_target (some expected) true r resolved = do
    actual ← disk s (s.verify_restored resolved r.contents (metadata r.header.original))
    require (actual == expected) "restored inode identity changed"
  validate_target none false r resolved = do
    observed ← disk s (s.observe resolved)
    require (not (is_some observed)) "restored target presence disagrees with the snapshot"
  validate_target _ _ r resolved = bail "restored target presence disagrees with the snapshot"

  unfoldable pub validate_restored_in :
      Lifecycle → SnapshotRecord → s.ResolvedPath → Effect (World s) (Unit {0})
  unfolding validate_target
  validate_restored_in (restored result) r resolved =
      validate_target result.restored_identity r.header.logical_present r resolved
  validate_restored_in (delete_intent result) r resolved =
      validate_target result.restored_identity r.header.logical_present r resolved
  validate_restored_in _ r resolved = bail "record is not in restored cleanup"

  unfoldable pub validate_restored_target :
      SnapshotRecord → s.ResolvedPath → Effect (World s) (Unit {0})
  unfolding validate_restored_in
  validate_restored_target r resolved = validate_restored_in r.header.lifecycle r resolved

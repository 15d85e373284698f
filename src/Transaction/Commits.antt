-- ===== src/Transaction/Commits.antt =====
-- What the manager commits to the store: `transition`, `commit_successor`, `conflict` and
-- `require_unblocked` of src/transaction.rs, and the layouts it compares.
use file_guard.Prelude.{
  bit_and, String, Bool, true, false, not, ◌&&◌, Option, none, some, ◌++◌, ◌==◌, ℕ_eq, Bytes,
  Bytes_eq, Option_Bytes_eq, Bool_eq, ok, err,
}
use file_guard.Process.{ascii}
use file_guard.Files.FilePath.{FilePath}
use file_guard.Record.{
  ObjectIdentity, Lifecycle, SnapshotRecord, RecordVersion, Codec, version, successor, Timestamp_eq,
  Option_ObjectIdentity_eq, ObjectIdentity_eq, RestoreOrigin_eq, Lifecycle_eq, OriginalState_eq,
  RecordVersion_eq, SnapshotRecord_eq,
}
use file_guard.Record.Checks.{s_ifmt}
use file_guard.Record.Structure.{is_some}
use file_guard.Record.Snapshot.{path_from_hex}
use file_guard.Fuse.Commit.{TransactionError, refused, Outcome, from_store}
use file_guard.Transaction.System.{
  Effect, System, World, ◌>>=◌, ◌>>◌, give, fail, lift, attempt, require, disk, stored_call,
}

-- `same_object` and `same_file_after_rename` of src/secure_file.rs.
unfoldable pub same_object : ObjectIdentity → ObjectIdentity → Bool
same_object left right =
    left.device == right.device
    && left.inode == right.inode
    && bit_and left.mode s_ifmt == bit_and right.mode s_ifmt

unfoldable pub same_file_after_rename : ObjectIdentity → ObjectIdentity → Bool
unfolding same_object
same_file_after_rename before after =
    same_object before after
    && before.mtime == after.mtime
    && before.size == after.size
    && before.links == after.links
    && before.mode == after.mode
    && before.uid == after.uid
    && before.gid == after.gid

-- The target and one entry of the staging area.
abbrev pub Layout : Type 0
Layout = Option ObjectIdentity × Option ObjectIdentity

unfoldable pub object_matches : Option ObjectIdentity → Option ObjectIdentity → Bool → Bool
unfolding same_file_after_rename
object_matches none none after_rename = true
object_matches (some actual) (some expected) true = same_file_after_rename expected actual
object_matches (some actual) (some expected) false = actual == expected
object_matches _ _ _ = false

unfoldable pub layout_matches : Layout → Layout → Bool → Bool
unfolding object_matches
layout_matches actual expected after_rename =
    object_matches actual.0 expected.0 after_rename
    && object_matches actual.1 expected.1 after_rename

-- The successor that `conflict` commits.
unfoldable pub blocked : Codec → SnapshotRecord → Bytes → SnapshotRecord
unfolding successor
blocked codec r reason =
    let next = successor codec r r.header.lifecycle r.contents in
    record next { header = record next.header { blocked_reason = some reason } }

-- What `conflict` returns, whether or not its commit succeeded.
unfoldable pub conflict_error : Outcome RecordVersion → TransactionError
conflict_error (ok committed) = refused "the transaction is in conflict"
conflict_error (err e) =
    refused "the transaction is in conflict; additionally failed to persist conflict state"

module _ (codec : Codec) (s : System) where
  unfoldable pub record_path : SnapshotRecord → Effect (World s) FilePath
  record_path r = lift (from_store (path_from_hex codec r.header.path_hex))

  unfoldable pub commit_successor : SnapshotRecord → SnapshotRecord → Effect (World s) (Unit {0})
  unfolding record_path
  commit_successor current next = do
    path ← record_path current
    stored_call s (λ kept. s.store.commit kept path (some (version current)) next)
    give tt

  unfoldable pub transition : SnapshotRecord → Lifecycle → Effect (World s) SnapshotRecord
  unfolding record_path commit_successor successor
  transition current lifecycle = do
    path ← record_path current
    let next = successor codec current lifecycle current.contents
    commit_successor current next
    give next

  unfoldable pub conflict {ℓ} : {A : Type ℓ} → SnapshotRecord → Bytes → Effect (World s) A
  unfolding record_path blocked conflict_error
  conflict r reason = do
    path ← record_path r
    done ← attempt (
        stored_call s
          (λ kept. s.store.commit kept path (some (version r)) (blocked codec r reason)))
    fail (conflict_error done)

  -- `if !test { return self.conflict(record, reason) }`
  unfoldable pub agree : Bool → SnapshotRecord → String → Effect (World s) (Unit {0})
  unfolding conflict
  agree true r reason = give tt
  agree false r reason = conflict r (ascii reason)

  -- `Err(error) => return self.conflict(record, &format!("{reason}: {error}"))`
  unfoldable pub or_conflict {ℓ} :
      {A : Type ℓ} → Outcome A → SnapshotRecord → String → Effect (World s) A
  unfolding conflict
  or_conflict (ok a) r reason = give a
  or_conflict (err e) r reason = conflict r (ascii reason ++ ascii ": " ++ s.display e)

  unfoldable pub require_unblocked : SnapshotRecord → Effect (World s) (Unit {0})
  unfolding is_some
  require_unblocked r =
      require (not (is_some r.header.blocked_reason)) "the transaction requires manual recovery"

  unfoldable pub resolve_bound_path : FilePath → SnapshotRecord → Effect (World s) s.ResolvedPath
  unfolding same_object
  resolve_bound_path path r = do
    resolved ← disk s (s.open_path path)
    actual_parent ← disk s (s.parent_identity resolved)
    require (same_object actual_parent r.header.parent) "parent directory changed since capture"
    give resolved

  unfoldable pub open_staging : SnapshotRecord → Effect (World s) s.StagingArea
  open_staging r = do
    path ← lift (from_store (path_from_hex codec r.header.staging_path_hex))
    disk s (s.open_area path r.header.parent.device)

  -- `(resolved.observe()?, staging.observe(name)?)`
  unfoldable pub look : s.ResolvedPath → s.StagingArea → Bytes → Effect (World s) Layout
  look resolved staging name = do
    target ← disk s (s.observe resolved)
    staged ← disk s (s.observe_staged staging name)
    give (target, staged)

  -- An error of a rename counts only where the layout is not the one after it.
  unfoldable pub settle_rename : Outcome (Unit {0}) → Bool → Layout → Effect (World s) Layout
  settle_rename (err e) false observed = fail e
  settle_rename (err e) true observed = give observed
  settle_rename (ok done) settled observed = give observed

  unfoldable pub rename :
      Effect s.Disk (Unit {0}) → Effect (World s) Layout → (Layout → Bool) → Effect (World s) Layout
  unfolding settle_rename
  rename operation observe_again settled = do
    done ← attempt (disk s operation)
    observed ← observe_again
    settle_rename done (settled observed) observed

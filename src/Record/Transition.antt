-- ===== src/Record/Transition.antt =====
-- `validate_successor` and the transition table of src/store/record.rs.
use file_guard.Prelude.{
  Bool, true, false, not, ◌&&◌, ◌||◌, Option, none, some, if◌then◌else◌, ◌==◌, ℕ_eq, Bytes,
  Bytes_eq, Option_Bytes_eq, Bool_eq, ok, err, ◌>>◌, ensure,
}
use file_guard.Files.FilePath.{FilePath}
use file_guard.Record.{
  ObjectIdentity, existed, RestoreOrigin, from_installed, from_stored, then_restore,
  leave_installed, RestorePlan, RestoreResult, Lifecycle, captured, install_intent, installed,
  mount_intent, unmount_intent, restore_intent, restored, delete_intent, store_intent, stored,
  RecordHeader, SnapshotRecord, RecordVersion, Entry, missing, present_entry, finalizing, conflict,
  StoreResult, Codec, next_revision, version, Timestamp_eq, Option_ObjectIdentity_eq,
  ObjectIdentity_eq, RestoreOrigin_eq, Lifecycle_eq, OriginalState_eq, RecordVersion_eq,
  SnapshotRecord_eq,
}
use file_guard.Record.Checks.{identities_match_after_rename}
use file_guard.Record.Structure.{is_some, restore_intent_matches_header}
use file_guard.Record.Snapshot.{path_to_hex, validate_snapshot}

-- `RestoreIntent` to `RestoreIntent`: the restoration inode is bound once.
unfoldable pub binds_restoration : Bool → RestorePlan → RestorePlan → Bool
binds_restoration logical_present current next =
    not (is_some current.restore_identity)
    && is_some next.restore_identity
    && logical_present
    && current.origin == next.origin
    && current.restore_name == next.restore_name
    && current.detached_name == next.detached_name
    && current.detached_identity == next.detached_identity

-- The displaced entry that the end of a restoration names.
unfoldable pub displaced_as_planned : RestoreOrigin → Option Bytes → Option Bytes → Bool
displaced_as_planned from_installed displaced_name restore_name = displaced_name == restore_name
displaced_as_planned from_stored displaced_name restore_name = not (is_some displaced_name)

-- `RestoreIntent` to `Restored`
unfoldable pub completes_restoration : RestorePlan → RestoreResult → Bool
unfolding displaced_as_planned
completes_restoration plan result =
    plan.origin == result.origin
    && identities_match_after_rename plan.restore_identity result.restored_identity
    && plan.detached_name == result.detached_name
    && plan.detached_identity == result.detached_identity
    && displaced_as_planned plan.origin result.displaced_name plan.restore_name

-- `Installed` or `UnmountIntent` to `RestoreIntent`
unfoldable pub starts_restoration : RecordHeader → Option ObjectIdentity → RestorePlan → Bool
starts_restoration next detached plan =
    plan.origin == from_installed
    && detached == plan.detached_identity
    && restore_intent_matches_header next

-- `Stored` to `RestoreIntent`
unfoldable pub starts_offline_restoration :
    RecordHeader → Bytes → ObjectIdentity → RestorePlan → Bool
starts_offline_restoration next name detached plan =
    plan.origin == from_stored
    && plan.detached_name == some name
    && plan.detached_identity == some detached
    && restore_intent_matches_header next

-- `Restored` to `DeleteIntent`
unfoldable pub same_result : RestoreResult → RestoreResult → Bool
same_result current next =
    current.origin == next.origin
    && current.restored_identity == next.restored_identity
    && current.displaced_name == next.displaced_name
    && current.displaced_identity == next.displaced_identity
    && current.detached_name == next.detached_name
    && current.detached_identity == next.detached_identity

-- The `match` of `lifecycle_transition_is_valid`.
unfoldable pub transition : RecordHeader → RecordHeader → Lifecycle → Lifecycle → Bool
unfolding binds_restoration completes_restoration starts_restoration starts_offline_restoration
    same_result
transition current next captured install_intent = true
transition current next captured (store_intent name) = name == current.stored_name
transition current next install_intent (installed detached) = true
transition current next (installed before) (mount_intent after) = before == after
transition current next (mount_intent before) (installed after) = before == after
transition current next (mount_intent before) (mount_intent after) = before == after
transition current next (mount_intent before) (unmount_intent afterwards after) = before == after
transition current next (unmount_intent leave_installed before) (installed after) = before == after
transition current next (installed detached) (restore_intent plan) =
    starts_restoration next detached plan
transition current next (unmount_intent then_restore detached) (restore_intent plan) =
    starts_restoration next detached plan
transition current next (store_intent intended) (stored name detached) = intended == name
transition current next (stored name detached) (restore_intent plan) =
    starts_offline_restoration next name detached plan
transition current next (restore_intent before) (restore_intent after) =
    binds_restoration current.logical_present before after
transition current next (restore_intent plan) (restored result) = completes_restoration plan result
transition current next (restored before) (delete_intent after) = same_result before after
transition current next _ _ = false

unfoldable pub lifecycle_transition_is_valid : RecordHeader → RecordHeader → Bool
unfolding transition
lifecycle_transition_is_valid current next =
    transition current next current.lifecycle next.lifecycle

unfoldable pub same_capture : RecordHeader → RecordHeader → Bool
same_capture current next =
    current.path_hex == next.path_hex
    && current.generation == next.generation
    && current.original == next.original
    && current.parent == next.parent
    && current.staging_path_hex == next.staging_path_hex
    && current.swap_name == next.swap_name
    && current.stored_name == next.stored_name
    && current.mount_token == next.mount_token

unfoldable pub installs : Lifecycle → Lifecycle → Bool
installs install_intent (installed detached) = true
installs _ _ = false

unfoldable pub plans_install : Lifecycle → Lifecycle → Bool
plans_install captured install_intent = true
plans_install _ _ = false

unfoldable pub mounted_update : Lifecycle → Lifecycle → Bool
mounted_update (mount_intent before) (mount_intent after) = true
mounted_update _ _ = false

unfoldable pub placeholder_kept : RecordHeader → RecordHeader → Bool
unfolding installs plans_install
placeholder_kept current next =
    current.placeholder == next.placeholder
    || (installs current.lifecycle next.lifecycle
        && identities_match_after_rename current.placeholder next.placeholder)
    || (plans_install current.lifecycle next.lifecycle
        && not (is_some current.placeholder)
        && is_some next.placeholder)

unfoldable pub blocking : SnapshotRecord → SnapshotRecord → Bool
blocking current next =
    is_some next.header.blocked_reason
    && not (is_some current.header.blocked_reason)
    && current.header.lifecycle == next.header.lifecycle
    && current.header.logical_present == next.header.logical_present
    && current.contents == next.contents

-- The checks past the early return for a record that is only blocked.
unfoldable pub validate_progress : SnapshotRecord → SnapshotRecord → StoreResult (Unit {0})
unfolding mounted_update lifecycle_transition_is_valid
validate_progress current next = do
  ensure (not (is_some next.header.blocked_reason))
      (conflict "blocking a snapshot may not change its phase or contents")
  let updates = mounted_update current.header.lifecycle next.header.lifecycle
  ensure (current.contents == next.contents || updates)
      (conflict "credential contents changed outside a mounted update")
  ensure
      (current.header.logical_present == next.header.logical_present
        || (updates && not current.header.logical_present && next.header.logical_present))
      (conflict "logical presence changed outside the first mounted write")
  ensure (lifecycle_transition_is_valid current.header next.header)
      (conflict "invalid snapshot transition")

unfoldable pub validate_successor_fields : SnapshotRecord → SnapshotRecord → StoreResult (Unit {0})
unfolding same_capture placeholder_kept blocking validate_progress
validate_successor_fields current next = do
  ensure (same_capture current.header next.header) (conflict "immutable capture fields changed")
  ensure (placeholder_kept current.header next.header)
      (conflict "placeholder identity changed outside installation")
  ensure (not (is_some current.header.blocked_reason))
      (conflict "a blocked snapshot cannot transition automatically")
  if blocking current next then ok tt else validate_progress current next

-- What the first revision of a snapshot has to be.
unfoldable pub is_first_capture : RecordHeader → Bool
is_first_capture header =
    header.revision == 1
    && header.lifecycle == captured
    && header.logical_present == existed header.original
    && not (is_some header.placeholder)
    && not (is_some header.blocked_reason)

-- The `match` of `validate_successor`.
unfoldable pub validate_against :
    Option RecordVersion → Entry → SnapshotRecord → StoreResult (Unit {0})
unfolding is_first_capture validate_successor_fields
validate_against none missing next =
    ensure (is_first_capture next.header)
      (conflict "a new snapshot must start as an unblocked revision-1 capture")
validate_against none (present_entry current) next = err (conflict "snapshot already exists")
validate_against none (finalizing marker) next =
    err (conflict "snapshot path still has a finalization marker")
validate_against (some expected) missing next =
    err (conflict "snapshot was deleted before it could be updated")
validate_against (some expected) (finalizing marker) next =
    err (conflict "snapshot became a finalization marker before update")
validate_against (some expected) (present_entry current) next = do
  ensure (version current == expected) (conflict "snapshot revision changed before update")
  ensure
      (next.header.generation == expected.generation
        && next.header.revision == next_revision expected.revision)
      (conflict "successor must retain its generation and increment revision once")
  validate_successor_fields current next

unfoldable pub validate_successor :
    Codec
    → StoreResult FilePath
    → FilePath
    → Option RecordVersion
    → Entry
    → SnapshotRecord
    → StoreResult (Unit {0})
unfolding validate_against
validate_successor codec current_dir file_id expected current next = do
  validate_snapshot codec current_dir next
  ensure (next.header.path_hex == path_to_hex codec file_id)
      (conflict "candidate snapshot is bound to a different path")
  validate_against expected current next

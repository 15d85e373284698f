-- ===== src/Record/Structure.antt =====
-- What src/store/record.rs asks of the fields of a lifecycle phase.
use file_guard.Prelude.{
  String, Bool, true, false, not, ◌&&◌, ◌||◌, Option, none, some, if◌then◌else◌, ◌==◌, ◌!=◌, ℕ_eq,
  Bytes, Bytes_eq, Option_Bytes_eq, Bool_eq, ok, err, ◌>>=◌, ◌>>◌, ensure, ok_or, is_ok,
}
use file_guard.Record.{
  ObjectIdentity, present, absent, existed, RestoreOrigin, from_installed, from_stored, RestorePlan,
  RestoreResult, Lifecycle, captured, install_intent, installed, mount_intent, unmount_intent,
  restore_intent, restored, delete_intent, store_intent, stored, RecordHeader, StoreError, corrupt,
  StoreResult, Timestamp_eq, Option_ObjectIdentity_eq, ObjectIdentity_eq, RestoreOrigin_eq,
  Lifecycle_eq, OriginalState_eq, RecordVersion_eq, SnapshotRecord_eq,
}
use file_guard.Record.Checks.{
  s_ifreg, validate_identity, validate_entry_name, identities_match_after_rename,
}

-- Where the source would panic on `None`.
abbrev pub panic : StoreError
panic = corrupt "called Option::unwrap on a None value"

unfoldable pub unwrap {ℓ} : {A : Type ℓ} → Option A → StoreResult A
unwrap none = err panic
unwrap (some a) = ok a

unfoldable pub is_some {ℓ} : {A : Type ℓ} → Option A → Bool
is_some none = false
is_some (some _) = true

unfoldable pub require_present_original : RecordHeader → String → StoreResult (Unit {0})
require_present_original header phase =
    ensure (existed header.original && header.logical_present) (corrupt phase)

unfoldable pub validate_detached_identity :
    RecordHeader → ObjectIdentity → String → StoreResult (Unit {0})
validate_detached_identity header detached label = do
  validate_identity detached s_ifreg label
  elim header.original [
    | present identity kept ↦
        ensure (identities_match_after_rename (some identity) (some detached)) (corrupt label)
    | absent presentation ↦ err (corrupt label)
  ]

unfoldable pub validate_detached_original :
    RecordHeader → Option ObjectIdentity → StoreResult (Unit {0})
unfolding validate_detached_identity
validate_detached_original header none = elim header.original [
  | present identity kept ↦ err (corrupt "detached original disagrees with the captured source")
  | absent presentation ↦ ok tt
]
validate_detached_original header (some detached) = elim header.original [
  | present identity kept ↦ validate_detached_identity header detached "detached original"
  | absent presentation ↦ err (corrupt "detached original disagrees with the captured source")
]

-- The end of `validate_restore_detached`, past its `match`.
unfoldable pub validate_bound_detached :
    RecordHeader → Option Bytes → Option ObjectIdentity → StoreResult (Unit {0})
unfolding unwrap
validate_bound_detached header name identity = do
  bound ← unwrap name
  validate_entry_name bound
  detached ← unwrap identity
  validate_detached_identity header detached "detached original"

unfoldable pub validate_restore_detached :
    RecordHeader → RestoreOrigin → Option Bytes → Option ObjectIdentity → StoreResult (Unit {0})
unfolding validate_bound_detached require_present_original is_some
validate_restore_detached header from_installed name identity =
    if existed header.original
    then (do
      ensure (not (name != some header.swap_name || not (is_some identity)))
          (corrupt "installed restore lost its detached original binding")
      validate_bound_detached header name identity)
    else ensure (not (is_some name || is_some identity))
        (corrupt "absent original unexpectedly has a detached inode")
validate_restore_detached header from_stored name identity = do
  require_present_original header "offline restore"
  ensure (not (name != some header.stored_name || not (is_some identity)))
      (corrupt "offline restore lost its stored inode binding")
  validate_bound_detached header name identity

unfoldable pub validate_optional : Option ObjectIdentity → String → StoreResult (Unit {0})
validate_optional none label = ok tt
validate_optional (some identity) label = validate_identity identity s_ifreg label

unfoldable pub validate_displaced :
    RestoreOrigin → Option Bytes → Option ObjectIdentity → StoreResult (Unit {0})
unfolding is_some
validate_displaced from_installed name identity = do
  entry ← ok_or name (corrupt "installed restore has no displaced name")
  validate_entry_name entry
  placeholder ← ok_or identity (corrupt "installed restore has no displaced inode")
  validate_identity placeholder s_ifreg "displaced placeholder"
validate_displaced from_stored name identity =
    ensure (not (is_some name || is_some identity))
      (corrupt "offline restore cannot have a displaced placeholder")

unfoldable pub validate_restore_plan : RecordHeader → RestorePlan → StoreResult (Unit {0})
unfolding validate_optional
validate_restore_plan header plan = do
  name ← ok_or plan.restore_name (corrupt "restore intent has no entry name")
  validate_entry_name name
  validate_optional plan.restore_identity "restoration"
  ensure (not (not header.logical_present && is_some plan.restore_identity))
      (corrupt "absent logical files cannot have a restoration inode")
  validate_restore_detached header plan.origin plan.detached_name plan.detached_identity

unfoldable pub validate_restore_result : RecordHeader → RestoreResult → StoreResult (Unit {0})
unfolding validate_optional validate_displaced
validate_restore_result header result = do
  ensure (header.logical_present == is_some result.restored_identity)
      (corrupt "restored target identity disagrees with logical presence")
  validate_optional result.restored_identity "restored target"
  validate_displaced result.origin result.displaced_name result.displaced_identity
  validate_restore_detached header result.origin result.detached_name result.detached_identity

unfoldable pub validate_lifecycle_structure : RecordHeader → Lifecycle → StoreResult (Unit {0})
unfolding validate_restore_plan validate_restore_result
validate_lifecycle_structure header captured = ok tt
validate_lifecycle_structure header install_intent = ok tt
validate_lifecycle_structure header (installed detached) =
    validate_detached_original header detached
validate_lifecycle_structure header (mount_intent detached) =
    validate_detached_original header detached
validate_lifecycle_structure header (unmount_intent next detached) =
    validate_detached_original header detached
validate_lifecycle_structure header (store_intent name) = do
  validate_entry_name name
  require_present_original header "offline-store intent"
validate_lifecycle_structure header (stored name detached) = do
  validate_entry_name name
  require_present_original header "offline-store state"
  validate_detached_identity header detached "stored original"
validate_lifecycle_structure header (restore_intent plan) = validate_restore_plan header plan
validate_lifecycle_structure header (restored result) = validate_restore_result header result
validate_lifecycle_structure header (delete_intent result) = validate_restore_result header result

unfoldable pub restore_intent_matches_header : RecordHeader → Bool
restore_intent_matches_header header = is_ok (validate_lifecycle_structure header header.lifecycle)

abbrev pub phase_name : Lifecycle → String
phase_name captured = "captured"
phase_name install_intent = "installing"
phase_name (installed detached) = "installed"
phase_name (mount_intent detached) = "mounting"
phase_name (unmount_intent next detached) = "unmounting"
phase_name (store_intent name) = "storing"
phase_name (stored name detached) = "stored"
phase_name (restore_intent plan) = "restoring"
phase_name (restored result) = "restored"
phase_name (delete_intent result) = "deleting"

unfoldable pub is_installed_origin : RestoreOrigin → Bool
is_installed_origin from_installed = true
is_installed_origin from_stored = false

unfoldable pub lifecycle_requires_placeholder : Lifecycle → Bool
unfolding is_installed_origin
lifecycle_requires_placeholder captured = false
lifecycle_requires_placeholder install_intent = true
lifecycle_requires_placeholder (installed detached) = true
lifecycle_requires_placeholder (mount_intent detached) = true
lifecycle_requires_placeholder (unmount_intent next detached) = true
lifecycle_requires_placeholder (store_intent name) = false
lifecycle_requires_placeholder (stored name detached) = false
lifecycle_requires_placeholder (restore_intent plan) = is_installed_origin plan.origin
lifecycle_requires_placeholder (restored result) = is_installed_origin result.origin
lifecycle_requires_placeholder (delete_intent result) = is_installed_origin result.origin

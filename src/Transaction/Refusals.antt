-- ===== src/Transaction/Refusals.antt =====
-- A record that waits for manual recovery, and the operations of src/transaction.rs.
use file_guard.Prelude.{ℕ, suc, ◌≡◌, true, ℕ_eq, Bytes_eq, Option_Bytes_eq, Bool_eq, ok, err}
use file_guard.Files.FilePath.{FilePath}
use file_guard.Record.{
  UnmountNext, SnapshotRecord, Entry, present_entry, Codec, Timestamp_eq, Option_ObjectIdentity_eq,
  ObjectIdentity_eq, RestoreOrigin_eq, Lifecycle_eq, OriginalState_eq, RecordVersion_eq,
  SnapshotRecord_eq, UnmountNext_eq,
}
use file_guard.Record.Structure.{is_some}
use file_guard.Fuse.Commit.{TransactionError, refused, from_store}
use file_guard.Transaction.System.{
  Effect, System, World, onward, ◌>>=◌, ◌>>◌, give, fail, require, stored_call,
}
use file_guard.Transaction.Commits.{require_unblocked}
use file_guard.Transaction.Operations.{
  or_again, normalize_path, load_entry, present_record, prepare_entry, prepare_loop, prepare,
  mount_record, begin_mount, abort_record, abort_mount, unmount_record, unmount_loop, begin_unmount,
  reconcile_entry, reconcile_after_mount_absent, restore_entry, restore, offline_entry,
  offline_record, store_offline,
}

abbrev pub needs_recovery : TransactionError
needs_recovery = refused "the transaction requires manual recovery"

module _ (codec : Codec) (s : System) where
  -- A path whose record is blocked: it resolves, and the store's record has a reason to be blocked.
  pub record Blocked (given : FilePath) (w : World s) : Type 0 where
    pub path : FilePath
    pub resolved : World s
    pub r : SnapshotRecord
    pub kept : s.store.Contents
    pub resolves : normalize_path codec s given w ≡ (ok path, resolved)
    pub loads : s.store.load resolved.0 path ≡ (ok (present_entry r), kept)
    pub is_blocked : is_some r.header.blocked_reason ≡ true

  stop :
      {A B : Type 0} (m : Effect (World s) A) (f : A → Effect (World s) B) {w v : World s}
      {e : TransactionError}
      → m w ≡ (err e, v)
      → (m >>= f) w ≡ (err e, v)
  unfolding ◌>>=◌ onward
  stop m f h = rw h

  require_blocked :
      {A : Type 0} (r : SnapshotRecord) (m : Effect (World s) A) (w : World s)
      → is_some r.header.blocked_reason ≡ true
      → (require_unblocked codec s r >> m) w ≡ (err needs_recovery, w)
  unfolding require_unblocked require fail ◌>>=◌ onward
  require_blocked r m w h = rw h

  module _ (given : FilePath) (w : World s) (b : Blocked given w) where
    -- The directories as the path resolves, and the store as the load leaves it.
    abbrev after : World s
    after = (b.kept, b.resolved.1)

    -- The operations load the record of the path first.
    started :
        {A : Type 0} (next : FilePath → Entry → Effect (World s) A)
        → next b.path (present_entry b.r) after ≡ (err needs_recovery, after)
        → (normalize_path codec s given >>= λ p. load_entry codec s p >>= λ entry. next p entry) w
          ≡ (err needs_recovery, after)
    unfolding ◌>>=◌ onward load_entry stored_call from_store
    started next h = rw (b.resolves, b.loads) h

    checked :
        {A : Type 0} (m : Effect (World s) A)
        → (require_unblocked codec s b.r >> m) after ≡ (err needs_recovery, after)
    checked m = require_blocked b.r m after b.is_blocked

    present_first :
        {A : Type 0} (next : SnapshotRecord → Effect (World s) A)
        → (present_record codec s (present_entry b.r) >>= λ r.
              require_unblocked codec s r >> next r)
            after
          ≡ (err needs_recovery, after)
    unfolding ◌>>=◌ onward present_record give
    present_first next = checked (next b.r)

    offline_first :
        {A : Type 0} (next : SnapshotRecord → Effect (World s) A)
        → (offline_entry codec s b.path (present_entry b.r) >>= λ r.
              require_unblocked codec s r >> next r)
            after
          ≡ (err needs_recovery, after)
    unfolding ◌>>=◌ onward offline_entry give
    offline_first next = checked (next b.r)

    prepare_blocked : (fuel : ℕ) → prepare codec s (suc fuel) given w ≡ (err needs_recovery, after)
    unfolding prepare prepare_loop prepare_entry
    prepare_blocked fuel =
        started
          (λ p entry.
            prepare_entry codec s p entry >>= λ done. or_again (prepare_loop codec s fuel p) done)
          (stop _ _ (checked _))

    begin_unmount_blocked :
        (fuel : ℕ) (next : UnmountNext)
        → begin_unmount codec s (suc fuel) given next w ≡ (err needs_recovery, after)
    unfolding begin_unmount unmount_loop
    begin_unmount_blocked fuel next = started _ (
        present_first (λ r. unmount_record codec s r.header.lifecycle next r >>= λ done.
        or_again (unmount_loop codec s fuel b.path next) done))

    -- On a path whose record is blocked, prepare, begin_mount, abort_mount, begin_unmount,
    -- reconcile_after_mount_absent, restore and store_offline fail for that reason, having resolved
    -- the path and loaded the record, and done nothing else.
    pub blocked_is_refused :
        (fuel : ℕ) (next : UnmountNext)
        → (prepare codec s (suc fuel) given w ≡ (err needs_recovery, after))
          × (begin_mount codec s given w ≡ (err needs_recovery, after))
          × (abort_mount codec s given w ≡ (err needs_recovery, after))
          × (begin_unmount codec s (suc fuel) given next w ≡ (err needs_recovery, after))
          × (reconcile_after_mount_absent codec s given w ≡ (err needs_recovery, after))
          × (restore codec s given w ≡ (err needs_recovery, after))
          × (store_offline codec s given w ≡ (err needs_recovery, after))
    unfolding begin_mount abort_mount reconcile_after_mount_absent reconcile_entry restore
        restore_entry store_offline
    blocked_is_refused fuel next = (
      prepare_blocked fuel,
      started _ (present_first (λ r. mount_record codec s r.header.lifecycle b.path r)),
      started _ (present_first (λ r. abort_record codec s r.header.lifecycle b.path r)),
      begin_unmount_blocked fuel next,
      started (reconcile_entry codec s) (checked _),
      started (λ p entry. restore_entry codec s entry) (checked _),
      started _ (offline_first (λ r. offline_record codec s r.header.lifecycle b.path r)),
    )

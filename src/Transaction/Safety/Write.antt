-- ===== src/Transaction/Safety/Write.antt =====
-- Mounted writes of src/transaction.rs, and an invariant of the store.
use file_guard.Prelude.{
  ◌≡◌, refl, ◌⊎◌, inl, inr, Bool, true, false, Bool-cases, ℕ_eq, ==_refl, Bytes, Bytes_eq,
  Option_Bytes_eq, Bool_eq, ok, err, Result-cases,
}
use file_guard.Files.FilePath.{FilePath}
use file_guard.Record.{
  Lifecycle, mount_intent, SnapshotRecord, RecordVersion, indeterminate, StoreResult, Codec,
  version, successor, Timestamp_eq, Option_ObjectIdentity_eq, ObjectIdentity_eq, RestoreOrigin_eq,
  Lifecycle_eq, OriginalState_eq, RecordVersion_eq, SnapshotRecord_eq, UnmountNext_eq,
}
use file_guard.Record.Structure.{is_some}
use file_guard.Record.Snapshot.{path_from_hex}
use file_guard.Record.Edges.{Edge, update}
use file_guard.Fuse.Commit.{is_mount_intent, next_contents, settle_commit, update_contents}
use file_guard.Transaction.System.{System}
use file_guard.Transaction.Validation.{Xattrs_eq}
use file_guard.Transaction.Safety.Logic.{Follows, Invariant}
use file_guard.Transaction.Safety.Commits.{Unblocked, or_left, false_ne}
use file_guard.Record.Transition.{mounted_update, placeholder_kept}

mounted-Edge : (l : Lifecycle) → is_mount_intent l ≡ true → Edge l l
unfolding is_mount_intent
mounted-Edge (mount_intent d) h = update d d refl
mounted-Edge _ h = absurd (false_ne h)

mounted_update_lem : (l : Lifecycle) → is_mount_intent l ≡ true → mounted_update l l ≡ true
unfolding is_mount_intent mounted_update
mounted_update_lem (mount_intent d) h = refl
mounted_update_lem _ h = absurd (false_ne h)

presence_lem :
    (l : Lifecycle) (b : Bool)
    → is_mount_intent l ≡ true
    → (b ≡ true) ⊎ ((mounted_update l l ≡ true) × (b ≡ false) × (true ≡ true))
presence_lem l true h = inl refl
presence_lem l false h = inr (mounted_update_lem l h, refl, refl)

-- New contents of a mounted file follow the record that they are written to.
next_contents-Follows :
    (codec : Codec) (current : SnapshotRecord) (contents : Bytes)
    → Unblocked current
    → is_mount_intent current.header.lifecycle ≡ true
    → Follows current (next_contents codec current contents)
unfolding next_contents successor version placeholder_kept
next_contents-Follows codec current contents free mounted = record {
  accepted = record {
    same_version = refl;
    revision_step = refl;
    not_blocked = free;
    same_capture_fields = record {
      same_path = refl;
      same_generation = refl;
      same_original = refl;
      same_parent = refl;
      same_staging = refl;
      same_swap = refl;
      same_stored = refl;
      same_token = refl;
    };
    what = inr (record {
      unblocked = free;
      edge = mounted-Edge current.header.lifecycle mounted;
      contents_kept = inr (mounted_update_lem current.header.lifecycle mounted);
      presence_kept = presence_lem current.header.lifecycle current.header.logical_present mounted;
    });
  };
  placeholder = or_left _ _ (or_left _ _ (==_refl current.header.placeholder));
}

module _ {codec : Codec} {s : System} (inv : Invariant codec s) where
  settle_commit-holds :
      (path : FilePath) (next : SnapshotRecord)
      (result : StoreResult RecordVersion × s.store.Contents)
      → inv.holds result.1
      → inv.holds (settle_commit codec s.store path next result).1
  unfolding settle_commit
  settle_commit-holds path next (ok committed, kept) h = h
  settle_commit-holds path next (err (indeterminate reason), kept) h = inv.loads kept path h
  settle_commit-holds path next (err e, kept) h = h

  pub update_contents-holds :
      (kept : s.store.Contents) (current : SnapshotRecord) (contents : Bytes)
      → inv.holds kept
      → inv.holds (update_contents codec s.store kept current contents).1
  unfolding update_contents
  update_contents-holds kept current contents h =
      elim (Result-cases (path_from_hex codec current.header.path_hex)) [
        | inr (e, failed) ↦ rw (failed, update_contents) h
        | inl (path, found) ↦ elim (Bool-cases (is_some current.header.blocked_reason)) [
          | inl blocked_now ↦ rw (found, blocked_now, update_contents) h
          | inr free ↦ elim (Bool-cases (is_mount_intent current.header.lifecycle)) [
            | inr unmounted ↦ rw (found, free, unmounted, update_contents) h
            | inl mounted ↦
                rw (found, free, mounted, update_contents)
                  (settle_commit-holds path (next_contents codec current contents) _ (
                    inv.commits kept path current (next_contents codec current contents) found
                      (next_contents-Follows codec current contents free mounted) h))
          ]
        ]
      ]

-- ===== src/Transaction/Unmount.antt =====
-- The loop of `begin_unmount` in src/transaction.rs: a round that another commit forestalls is
-- followed by another one.
use file_guard.Prelude.{
  ℕ, zero, suc, ◌<◌, String, ◌≡◌, ◌∙◌, false, Option, some, arith, ℕ_eq, Bytes_eq, Option_Bytes_eq,
  Bool_eq, ok, err,
}
use file_guard.Files.FilePath.{FilePath}
use file_guard.Record.{
  ObjectIdentity, UnmountNext, mount_intent, unmount_intent, SnapshotRecord, RecordVersion,
  present_entry, StoreError, StoreResult, Codec, version, successor, Timestamp_eq,
  Option_ObjectIdentity_eq, ObjectIdentity_eq, RestoreOrigin_eq, Lifecycle_eq, OriginalState_eq,
  RecordVersion_eq, SnapshotRecord_eq, UnmountNext_eq,
}
use file_guard.Record.Structure.{is_some}
use file_guard.Record.Snapshot.{path_from_hex}
use file_guard.Fuse.Commit.{from_store}
use file_guard.Transaction.System.{
  System, World, onward, ◌>>=◌, give, fail, lift, attempt, require, stored_call,
}
use file_guard.Transaction.Commits.{record_path, commit_successor, transition, require_unblocked}
use file_guard.Transaction.Operations.{
  or_again, load_entry, present_record, retry_conflict, unmount_record, unmount_loop,
}

module _ (codec : Codec) (s : System) (path : FilePath) (next : UnmountNext) where
  -- A round: the store has a mounted record for the path, and answers its commit.
  pub record Round (w : World s) (answer : StoreResult RecordVersion) (v : World s) : Type 0 where
    pub r : SnapshotRecord
    pub detached : Option ObjectIdentity
    pub kept : s.store.Contents
    pub bound : FilePath
    pub loads : s.store.load w.0 path ≡ (ok (present_entry r), kept)
    pub free : is_some r.header.blocked_reason ≡ false
    pub mounted : r.header.lifecycle ≡ mount_intent detached
    pub found : path_from_hex codec r.header.path_hex ≡ ok bound
    pub commits :
        s.store.commit kept bound
          (some (version r))
          (successor codec r (unmount_intent next detached) r.contents)
        ≡ (answer, v.0)
    pub same_disk : w.1 ≡ v.1

  module _ (fuel : ℕ) {w v : World s} where
    round_lost :
        {reason : String}
        → Round w (err (StoreError.conflict reason)) v
        → unmount_loop codec s (suc fuel) path next w ≡ unmount_loop codec s fuel path next v
    unfolding unmount_loop load_entry stored_call from_store present_record require_unblocked
        unmount_record transition commit_successor record_path lift retry_conflict attempt require
        fail give ◌>>=◌ onward or_again version
    round_lost b = rw (b.loads, b.free, b.mounted, b.found, b.commits, b.same_disk)

    round_won :
        {committed : RecordVersion} (b : Round w (ok committed) v)
        → unmount_loop codec s (suc fuel) path next w
          ≡ (ok (successor codec b.r (unmount_intent next b.detached) b.r.contents), v)
    unfolding unmount_loop load_entry stored_call from_store present_record require_unblocked
        unmount_record transition commit_successor record_path lift retry_conflict attempt require
        fail give ◌>>=◌ onward or_again version
    round_won b = rw (b.loads, b.free, b.mounted, b.found, b.commits, b.same_disk)

  -- Rounds that lose to another commit, and a last one that does not.
  pub data Settles : ℕ → World s → SnapshotRecord → World s → Type 0 where
    wins :
        {w v : World s} {committed : RecordVersion} (b : Round w (ok committed) v)
        → Settles 0 w (successor codec b.r (unmount_intent next b.detached) b.r.contents) v
    loses :
        {losses : ℕ} {w v last : World s} {reason : String} {done : SnapshotRecord}
        → Round w (err (StoreError.conflict reason)) v
        → Settles losses v done last
        → Settles (suc losses) w done last

  -- When the store answers with a conflict a number of times, each time with a mounted record to
  -- load again, and then accepts the commit, fuel beyond the number of conflicts is enough: the loop
  -- returns the successor, in its unmount phase, of the record that it loaded last.
  pub unmount_loop-returns :
      (fuel : ℕ) {losses : ℕ} {w last : World s} {done : SnapshotRecord}
      → Settles losses w done last
      → losses < fuel
      → unmount_loop codec s fuel path next w ≡ (ok done, last)
  unmount_loop-returns zero settles h = absurd (omega arith)
  unmount_loop-returns (suc fuel) (wins b) h = round_won fuel b
  unmount_loop-returns (suc fuel) (loses b rest) h =
      round_lost fuel b ∙ unmount_loop-returns fuel rest (omega arith)

-- ===== src/Tests/Transactions.antt =====
-- The transaction manager on small stores and directories: src/transaction.rs.
use file_guard.Prelude.{
  ℕ, ◌<◌, ◌≡◌, refl, true, not, none, some, List, [], ◌∷◌, arith, ◌==◌, ℕ_eq, eq_of_==, Bytes_eq,
  Option_Bytes_eq, Bool_eq, ok, err,
}
use file_guard.Process.{ascii}
use file_guard.Files.FilePath.{FilePath}
use file_guard.Record.{
  absent, existed, then_restore, leave_installed, captured, mount_intent, unmount_intent,
  SnapshotRecord, RecordVersion, present_entry, StoreError, StoreResult, u64_mod, next_revision,
  version, successor, Timestamp_eq, Option_ObjectIdentity_eq, ObjectIdentity_eq, RestoreOrigin_eq,
  Lifecycle_eq, OriginalState_eq, RecordVersion_eq, SnapshotRecord_eq, UnmountNext_eq,
}
use file_guard.Record.Structure.{is_some}
use file_guard.Record.Snapshot.{path_from_hex}
use file_guard.Record.Transition.{is_first_capture}
use file_guard.Record.Edges.{and_split}
use file_guard.Fuse.Commit.{BackingStore, Outcome}
use file_guard.Transaction.System.{System, onward, ◌>>=◌, give, disk}
use file_guard.Transaction.Commits.{same_file_after_rename}
use file_guard.Record.Checks.{identities_match_after_rename}
use file_guard.Transaction.Safety.Commits.{same_file_after_rename_eq}
use file_guard.Transaction.Operations.{
  normalize_path, prepare, begin_mount, abort_mount, unmount_loop, begin_unmount,
  reconcile_after_mount_absent, restore, store_offline,
}
use file_guard.Transaction.Calls.{
  Call, call_begin_mount, call_begin_unmount, call_update_contents, perform_all,
}
use file_guard.Transaction.Refusals.{needs_recovery, Blocked, blocked_is_refused}
use file_guard.Transaction.Unmount.{Round, wins, loses, unmount_loop-returns}
use file_guard.Transaction.Safety.Logic.{Invariant}
use file_guard.Transaction.Safety.Phases.{Installed}
use file_guard.Transaction.Safety.Loading.{Mounted, Unmounting}
use file_guard.Transaction.Safety.Operations.{perform_all-holds, returned_phases}
use file_guard.Tests.Records.{plain, object, kept_metadata, token_bytes, revision_at, file_path}

-- A store that returns one record, and keeps a log of the commits; the first of them conflicts.
abbrev answer : List SnapshotRecord → RecordVersion → StoreResult RecordVersion
answer [] v = err (StoreError.conflict "raced")
answer (r ∷ rs) v = ok v

abbrev logged : SnapshotRecord → BackingStore
logged r = record {
  Contents = List SnapshotRecord;
  load = λ log path. (ok (present_entry r), log);
  commit = λ log path expected next. (answer log (version next), next ∷ log);
}

abbrev always {ℓ} : {A : Type ℓ} → A → Unit {0} → Outcome A × Unit {0}
always a w = (ok a, w)

-- Directories in which every call succeeds.
abbrev pub calm : SnapshotRecord → System
calm r = record {
  store = logged r;
  begin_finalization = λ log path v marker. (ok v, log);
  finish_finalization = λ log path v. (ok tt, log);
  Disk = Unit {0};
  ResolvedPath = FilePath;
  open_path = λ path. always path;
  path = λ path. path;
  parent_identity = λ path. always (object 0x4000);
  observe = λ path. always (some (object 0x8000));
  capture = λ path. always (record { original = absent kept_metadata; contents = [] });
  verify_restored = λ path contents m. always (object 0x8000);
  verify_finalized = λ path length digest m. always (object 0x8000);
  StagingArea = Unit {0};
  default_staging_root = λ path. always path;
  planned_path = λ root generation. ok root;
  parent = λ path. some path;
  create_area = λ root generation device. always tt;
  open_area = λ path device. always tt;
  discard_construction = λ area name. always tt;
  discard_uncommitted = λ area name. always tt;
  observe_staged = λ area name. always none;
  create_placeholder = λ area name m. always (object 0x8000);
  verify_placeholder = λ area name m. always (object 0x8000);
  create_restoration = λ area name contents m. always (object 0x8000);
  verify_restoration = λ area name contents m. always (object 0x8000);
  verify_snapshot = λ area name contents m. always (object 0x8000);
  verify_finalization = λ area name length digest m. always (object 0x8000);
  remove_verified = λ area name identity. always tt;
  is_empty = λ area. always true;
  contains_only = λ area names. always true;
  sync = λ area. always tt;
  remove_if_empty = λ area. always tt;
  exchange_with = λ path area name. always tt;
  install_absent = λ path area name. always tt;
  move_to_staging = λ path area name. always tt;
  sync_with = λ path area. always tt;
  random_token = always token_bytes;
  display = λ e. ascii "failed";
}

abbrev pub mounted_record : SnapshotRecord
mounted_record = revision_at 4 (mount_intent none) (some (object 0x8000)) none

abbrev pub stopped_record : SnapshotRecord
stopped_record = revision_at 4 (mount_intent none) (some (object 0x8000)) (some (ascii "stop"))

abbrev start : List SnapshotRecord × Unit {0}
start = ([], tt)

-- Every revision in the log fits in 64 bits.
Fits : List SnapshotRecord → Type 0
Fits [] = Unit {0}
Fits (r ∷ rs) = (r.header.revision < u64_mod) × Fits rs

next_revision_bound : (n : ℕ) → next_revision n < u64_mod
unfolding next_revision
next_revision_bound n = omega arith

first_bound :
    (first : SnapshotRecord)
    → is_first_capture first.header ≡ true
    → first.header.revision < u64_mod
unfolding is_first_capture
first_bound first h =
    let s4 = and_split _ (not (is_some first.header.blocked_reason)) h in
    let s3 = and_split _ (not (is_some first.header.placeholder)) s4.0 in
    let s2 = and_split _ (first.header.logical_present == existed first.header.original) s3.0 in
    let s1 = and_split (first.header.revision == 1) (first.header.lifecycle == captured) s2.0 in
    rw (eq_of_== first.header.revision 1 s1.0) (omega arith)

fitting : Invariant plain (calm mounted_record)
unfolding Fits
fitting = record {
  holds = Fits;
  loads = λ kept path h. h;
  loads_bare = λ kept path r h e phase. cc;
  captures = λ kept path first is_first digest h. (first_bound first is_first, h);
  commits = λ kept path current next found follows h.
      (rw follows.accepted.revision_step (next_revision_bound _), h);
  marks = λ kept path snapshot marker found finalizes h. h;
  unmarks = λ kept path marker h. h;
}

-- Two writes of a mounted file, an unmount that is raced once, and a mount that is refused.
abbrev calls : List Call
calls =
    call_update_contents mounted_record (ascii "new")
    ∷ call_begin_unmount 2 file_path leave_installed
    ∷ call_begin_mount file_path
    ∷ []

perform_all-holds_example : Fits (perform_all plain (calm mounted_record) calls start).0
unfolding fitting
perform_all-holds_example = perform_all-holds fitting calls start tt

returned_phases_example :
    ((prepare plain (calm mounted_record) 1 file_path start).0 ≡ ok mounted_record
      → Installed mounted_record)
    × ((abort_mount plain (calm mounted_record) file_path start).0 ≡ ok mounted_record
        → Installed mounted_record)
    × ((begin_mount plain (calm mounted_record) file_path start).0 ≡ ok mounted_record
        → Mounted mounted_record)
    × ((begin_unmount plain (calm mounted_record) 1 file_path then_restore start).0
          ≡ ok mounted_record
        → Unmounting then_restore mounted_record)
unfolding fitting
returned_phases_example = returned_phases fitting 1 file_path then_restore start mounted_record tt

waiting : Blocked plain (calm stopped_record) file_path start
unfolding normalize_path ◌>>=◌ onward disk give is_some
waiting = record {
  path = file_path;
  resolved = start;
  r = stopped_record;
  kept = [];
  resolves = refl;
  loads = refl;
  is_blocked = refl;
}

blocked_is_refused_example :
    (prepare plain (calm stopped_record) 2 file_path start ≡ (err needs_recovery, start))
    × (begin_mount plain (calm stopped_record) file_path start ≡ (err needs_recovery, start))
    × (abort_mount plain (calm stopped_record) file_path start ≡ (err needs_recovery, start))
    × (begin_unmount plain (calm stopped_record) 2 file_path then_restore start
        ≡ (err needs_recovery, start))
    × (reconcile_after_mount_absent plain (calm stopped_record) file_path start
        ≡ (err needs_recovery, start))
    × (restore plain (calm stopped_record) file_path start ≡ (err needs_recovery, start))
    × (store_offline plain (calm stopped_record) file_path start ≡ (err needs_recovery, start))
unfolding waiting
blocked_is_refused_example =
    blocked_is_refused plain (calm stopped_record) file_path start waiting 1 then_restore

same_file_after_rename_eq_example :
    same_file_after_rename (object 0x8000) (object 0x8180)
    ≡ identities_match_after_rename (some (object 0x8000)) (some (object 0x8180))
same_file_after_rename_eq_example = same_file_after_rename_eq (object 0x8000) (object 0x8180)

abbrev unmounted_record : SnapshotRecord
unmounted_record =
    successor plain mounted_record (unmount_intent leave_installed none) mounted_record.contents

raced :
    Round plain
      (calm mounted_record)
      file_path
      leave_installed
      start
      (err (StoreError.conflict "raced"))
      (unmounted_record ∷ [], tt)
unfolding is_some path_from_hex
raced = record {
  r = mounted_record;
  detached = none;
  kept = [];
  bound = file_path;
  loads = refl;
  free = refl;
  mounted = refl;
  found = refl;
  commits = refl;
  same_disk = refl;
}

accepted_round :
    Round plain
      (calm mounted_record)
      file_path
      leave_installed
      (unmounted_record ∷ [], tt)
      (ok (version unmounted_record))
      (unmounted_record ∷ unmounted_record ∷ [], tt)
unfolding is_some path_from_hex
accepted_round = record {
  r = mounted_record;
  detached = none;
  kept = unmounted_record ∷ [];
  bound = file_path;
  loads = refl;
  free = refl;
  mounted = refl;
  found = refl;
  commits = refl;
  same_disk = refl;
}

unmount_loop-returns_example :
    unmount_loop plain (calm mounted_record) 2 file_path leave_installed start
    ≡ (ok unmounted_record, (unmounted_record ∷ unmounted_record ∷ [], tt))
unfolding raced accepted_round
unmount_loop-returns_example =
    unmount_loop-returns plain (calm mounted_record) file_path leave_installed 2
      (loses raced (wins accepted_round)) (omega arith)

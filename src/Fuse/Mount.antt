-- ===== src/Fuse/Mount.antt =====
-- A mounted file and the handlers of its filesystem: `CredentialFs` of
-- src/fuse_fs/credential_fs.rs. What the handlers read of the kernel, of `/proc` and of the clock
-- is an input. A handler that asks the policy engine runs off the session thread, so other requests
-- are served between its two halves; each half is a step.
pub mod Runs
pub mod Grants
use file_guard.Prelude.{
  ℕ, bit_and, String, Bool, not, ◌&&◌, ◌||◌, Option, none, some, [], if◌then◌else◌, ◌==◌, ◌!=◌,
  ℕ_eq, discrete_eq, Bytes, Bytes_eq, Option_Bytes_eq, Bool_eq, Result, ok, err, ◌>>=◌, ◌>>◌,
  ensure,
}
use file_guard.Files.FilePath.{FilePath}
use file_guard.Process.{ProcessInfo}
use file_guard.Policy.Rule.{
  read, write, Access_eq, o_accmode, o_rdonly, o_rdwr, o_trunc, from_open_flags, is_allowed,
}
use file_guard.Policy.Entry.{RuleEntry_eq, Environment}
use file_guard.Policy.Repository.{RuleRepository}
use file_guard.Policy.Engine.{PolicyEngine, Wait, evaluate_open}
use file_guard.Record.{
  Timestamp, RestoreMetadata, metadata, installed, Entry, missing, present_entry, finalizing, Codec,
  Timestamp_eq, Option_ObjectIdentity_eq, ObjectIdentity_eq, RestoreOrigin_eq, Lifecycle_eq,
  OriginalState_eq, RecordVersion_eq, SnapshotRecord_eq,
}
use file_guard.Record.Structure.{is_some}
use file_guard.Fuse.Content.{
  Errno, enoent, eacces, einval, eio, eopnotsupp, slice_content, changes_permissions,
}
use file_guard.Fuse.Commit.{BackingStore, refused, Outcome, from_store, is_mount_intent}
use file_guard.Fuse.Shared.{
  OpenHandle, Shared, MutationError, invalid, commit_failed, find_handle, remove_handle,
  register_handle, may_write, may_read, current_size, apply_write, apply_truncate, truncate_on_open,
}

-- `INodeNo::ROOT`
abbrev pub root_ino : ℕ
root_ino = 1

-- `FileAttr`, without its times and constants.
pub record FileAttr : Type 0 where
  pub size : ℕ
  pub perm : ℕ
  pub uid : ℕ
  pub gid : ℕ

unfoldable pub build_file_attr : ℕ → RestoreMetadata → FileAttr
build_file_attr size m = record {
  size = size;
  perm = bit_and m.mode 0xfff;
  uid = m.uid;
  gid = m.gid;
}

pub data Reply : Type 0 where
  error : Errno → Reply
  attr : FileAttr → Reply
  opened : ℕ → Reply
  bytes_read : Bytes → Reply
  written : ℕ → Reply
  done : Reply

pub record Mount (r : RuleRepository) (b : BackingStore) : Type 0 where
  pub watched_path : FilePath
  pub owner_uid : ℕ
  pub presentation : RestoreMetadata
  pub shared : Shared
  pub kept : b.Contents
  pub engine : PolicyEngine r

-- The uid and the process of a request, its process as `/proc` shows it.
-- The outcome of the checks before an open asks the policy: a refusal, or whether it needs read
-- authority, needs write authority, and truncates.
pub data OpenChecks : Type 0 where
  rejected : Errno → OpenChecks
  needs : Bool → Bool → Bool → OpenChecks

-- What `setattr` is asked to change.
pub record SetAttr : Type 0 where
  pub new_mode : Option ℕ
  pub new_uid : Option ℕ
  pub new_gid : Option ℕ
  pub new_size : Option ℕ
  pub new_atime : Option Timestamp
  pub new_mtime : Option Timestamp
  pub new_ctime : Option Timestamp
  pub new_crtime : Option Timestamp
  pub new_chgtime : Option Timestamp
  pub new_bkuptime : Option Timestamp
  pub new_flags : Option ℕ
  pub via : Option ℕ

pub data SetAttrChecks : Type 0 where
  answered : Reply → SetAttrChecks
  truncate_via : ℕ → ℕ → SetAttrChecks
  truncate_asking : ℕ → SetAttrChecks

pub record Caller : Type 0 where
  pub caller_uid : ℕ
  pub identified : Result String ProcessInfo

module _ (r : RuleRepository) (b : BackingStore) where
  -- `CredentialFs::new`, when the entry is loaded.
  unfoldable pub mount_entry : FilePath → b.Contents → PolicyEngine r → Entry → Outcome (Mount r b)
  unfolding is_mount_intent
  mount_entry watched kept engine missing = err (refused "no installed v2 record")
  mount_entry watched kept engine (finalizing marker) = err (refused "no installed v2 record")
  mount_entry watched kept engine (present_entry stored_record) = do
    ensure (not (is_some stored_record.header.blocked_reason))
        (refused "v2 record requires manual recovery")
    ensure (is_mount_intent stored_record.header.lifecycle)
        (refused "v2 record is not awaiting its mount")
    ok (record {
      watched_path = watched;
      owner_uid = stored_record.header.parent.uid;
      presentation = metadata stored_record.header.original;
      shared = record { content = stored_record; handles = []; next_fh = 1 };
      kept = kept;
      engine = engine;
    })

  -- `CredentialFs::new`, given the path as `normalize_path` resolves it.
  unfoldable pub new_mount :
      FilePath → Outcome FilePath → b.Contents → PolicyEngine r → Outcome (Mount r b)
  unfolding from_store mount_entry
  new_mount watched resolved kept engine = do
    path ← resolved
    let loaded = b.load kept path
    entry ← from_store loaded.0
    mount_entry watched loaded.1 engine entry

  -- `CredentialFs::uid_permitted`
  unfoldable pub uid_permitted : Mount r b → ℕ → Bool
  uid_permitted m uid = uid == m.owner_uid || uid == 0

  -- `decide_open`
  unfoldable pub decide_open :
      (env : Environment)
      → Wait env r
      → PolicyEngine r
      → FilePath
      → ℕ
      → Caller
      → Bool
      → Bool
      → Option ProcessInfo × PolicyEngine r
  unfolding evaluate_open is_allowed
  decide_open env wait engine watched owner_uid caller needs_read needs_write =
      elim caller.identified [
        | err e ↦ (none, engine)
        | ok info ↦
            let evaluated = evaluate_open env r wait engine info watched needs_read needs_write in
            if caller.caller_uid != owner_uid && caller.caller_uid != 0
            then (none, engine)
            else ((if is_allowed evaluated.0 then some info else none), evaluated.1)
      ]

  unfoldable pub attributes : Mount r b → Reply
  unfolding build_file_attr current_size
  attributes m = attr (build_file_attr (current_size m.shared) m.presentation)

  -- `getattr`
  unfoldable pub getattr : Mount r b → ℕ → ℕ → Reply
  unfolding uid_permitted attributes
  getattr m uid ino =
      if ino != root_ino
      then error enoent
      else if not (uid_permitted m uid)
      then error eacces
      else attributes m

  -- `lookup`
  unfoldable pub lookup : Mount r b → Reply
  lookup m = error enoent

  -- `access`
  unfoldable pub access_probe : Mount r b → ℕ → ℕ → Reply
  unfolding uid_permitted
  access_probe m uid ino =
      if ino != root_ino
      then error enoent
      else if not (uid_permitted m uid)
      then error eacces
      else done

  -- `flush` and `fsync`
  unfoldable pub flush : Mount r b → ℕ → Reply
  flush m ino = if ino != root_ino then error enoent else done

  -- `release`
  unfoldable pub release : Mount r b → ℕ → ℕ → Mount r b × Reply
  unfolding remove_handle
  release m ino fh = if ino != root_ino then (m, error enoent) else (
    record m { shared = record m.shared { handles = remove_handle fh m.shared.handles } },
    done,
  )

  -- `read`
  unfoldable pub read_file : Mount r b → ℕ → ℕ → ℕ → ℕ → Reply
  unfolding may_read find_handle slice_content
  read_file m ino fh offset size =
      if ino != root_ino
      then error enoent
      else if not (may_read (find_handle fh m.shared.handles))
      then error eacces
      else bytes_read (slice_content m.shared.content.contents offset size)

  -- The reply to a mutation that failed.
  unfoldable pub mutation_errno : MutationError → Errno
  mutation_errno (invalid e) = e
  mutation_errno (commit_failed e) = eio

  -- The checks of `open` before it asks the policy: whether it needs read and write authority, and
  -- whether it truncates.
  unfoldable pub open_checks : ℕ → ℕ → OpenChecks
  unfolding from_open_flags
  open_checks ino flags =
      let accmode = bit_and flags o_accmode in
      let needs_read = accmode == o_rdonly || accmode == o_rdwr in
      let needs_write = from_open_flags flags == write in
      if ino != root_ino
      then rejected enoent
      else if not needs_read && not needs_write
      then rejected einval
      else needs needs_read needs_write (needs_write && bit_and flags o_trunc != 0)

  -- The checks of `setattr` before it truncates.
  unfoldable pub setattr_checks : Mount r b → ℕ → ℕ → SetAttr → SetAttrChecks
  unfolding uid_permitted changes_permissions attributes
  setattr_checks m uid ino request =
      if ino != root_ino
      then answered (error enoent)
      else if not (uid_permitted m uid)
      then answered (error eacces)
      else if changes_permissions request.new_mode m.presentation.mode
          || is_some request.new_uid
          || is_some request.new_gid
          || is_some request.new_atime
          || is_some request.new_mtime
          || is_some request.new_ctime
          || is_some request.new_crtime
          || is_some request.new_chgtime
          || is_some request.new_bkuptime
          || is_some request.new_flags
      then answered (error eopnotsupp)
      else elim request.new_size [
        | none ↦ answered (attributes m)
        | some size ↦ elim request.via [
          | some fh ↦ truncate_via fh size
          | none ↦ truncate_asking size
        ]
      ]

  module _ (codec : Codec) where
    -- `write`
    unfoldable pub write_file : Mount r b → ℕ → ℕ → ℕ → Bytes → Mount r b × Reply
    unfolding apply_write mutation_errno
    write_file m ino fh offset input =
        let (result, shared', kept') = apply_write codec b m.shared m.kept fh offset input in
        if ino != root_ino then (m, error enoent) else (
          record m { shared = shared'; kept = kept' },
          elim result [ ok n ↦ written n | err e ↦ error (mutation_errno e) ],
        )

    -- The truncation of `setattr` and its reply, which shows the size that is then current.
    unfoldable pub truncate_file : Mount r b → ℕ → Mount r b × Reply
    unfolding apply_truncate mutation_errno attributes
    truncate_file m size =
        let (result, shared', kept') = apply_truncate codec b m.shared m.kept size in
        let m' : Mount r b = record m { shared = shared'; kept = kept' } in
        (m', elim result [ ok _ ↦ attributes m' | err e ↦ error (mutation_errno e) ])

    -- `setattr` through an open handle.
    unfoldable pub truncate_handle : Mount r b → ℕ → ℕ → Mount r b × Reply
    unfolding truncate_file may_write find_handle
    truncate_handle m fh size =
        if not (may_write (find_handle fh m.shared.handles))
        then (m, error eacces)
        else truncate_file m size

    -- `setattr` by path, when the policy has decided.
    unfoldable pub finish_setattr : Mount r b → Option ProcessInfo → ℕ → Mount r b × Reply
    unfolding truncate_file
    finish_setattr m none size = (m, error eacces)
    finish_setattr m (some info) size = truncate_file m size

    -- The end of `open`: the handle is registered.
    unfoldable pub grant_handle : Mount r b → Bool → Bool → Mount r b × Reply
    unfolding register_handle
    grant_handle m needs_read needs_write =
        let handle : OpenHandle = record {
          access = if needs_write then write else read;
          can_read = needs_read;
        } in
        let (fh, shared') = register_handle m.shared handle in
        (record m { shared = shared' }, opened fh)

    -- The end of `open` after a truncation.
    unfoldable pub grant_truncated :
        Mount r b → Result MutationError (Unit {0}) → Bool → Bool → Mount r b × Reply
    unfolding grant_handle mutation_errno
    grant_truncated m (ok cut) needs_read needs_write = grant_handle m needs_read needs_write
    grant_truncated m (err e) needs_read needs_write = (m, error (mutation_errno e))

    -- `open`, when the policy has decided.
    unfoldable pub finish_open :
        Mount r b → Option ProcessInfo → Bool → Bool → Bool → Mount r b × Reply
    unfolding truncate_on_open grant_truncated
    finish_open m none needs_read needs_write truncates = (m, error eacces)
    finish_open m (some info) needs_read needs_write truncates =
        let (result, shared', kept') = truncate_on_open codec b m.shared m.kept in
        let m' : Mount r b = record m { shared = shared'; kept = kept' } in
        if truncates
        then grant_truncated m' result needs_read needs_write
        else grant_handle m needs_read needs_write

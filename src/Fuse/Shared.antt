-- ===== src/Fuse/Shared.antt =====
-- The state that the handlers of a mount share: `Shared` of src/fuse_fs/credential_fs.rs. Each of
-- its operations runs under the `mutation` lock, so it is one step here.
pub mod Updates
use file_guard.Prelude.{
  ℕ, ◌+◌, ◌%◌, ◌^◌, Bool, false, not, Option, none, some, List, [], ◌∷◌, ltb, if◌then◌else◌, ◌==◌,
  ℕ_eq, discrete_eq, Bytes, Bytes_eq, Option_Bytes_eq, Bool_eq, length, Result, ok, err,
}
use file_guard.Record.{
  SnapshotRecord, Codec, u64_mod, Timestamp_eq, Option_ObjectIdentity_eq, ObjectIdentity_eq,
  RestoreOrigin_eq, Lifecycle_eq, OriginalState_eq, RecordVersion_eq, SnapshotRecord_eq,
}
use file_guard.Policy.Rule.{Access, write, Access_eq}
use file_guard.Fuse.Content.{
  max_content_len, Errno, eacces, efbig, checked_write_end, resize, written_contents,
}
use file_guard.Fuse.Commit.{BackingStore, TransactionError, Outcome, update_contents}

pub record OpenHandle : Type 0 where
  pub access : Access
  pub can_read : Bool

pub record Shared : Type 0 where
  pub content : SnapshotRecord
  pub handles : List (ℕ × OpenHandle)
  pub next_fh : ℕ

pub data MutationError : Type 0 where
  invalid : Errno → MutationError
  commit_failed : TransactionError → MutationError

-- `HashMap::get`, `insert` and `remove` of the handle table.
unfoldable pub find_handle : ℕ → List (ℕ × OpenHandle) → Option OpenHandle
find_handle fh [] = none
find_handle fh ((known, handle) ∷ rest) = if known == fh then some handle else find_handle fh rest

unfoldable pub insert_handle : ℕ → OpenHandle → List (ℕ × OpenHandle) → List (ℕ × OpenHandle)
insert_handle fh handle [] = (fh, handle) ∷ []
insert_handle fh handle ((known, old) ∷ rest) =
    if known == fh then (known, handle) ∷ rest else (known, old) ∷ insert_handle fh handle rest

unfoldable pub remove_handle : ℕ → List (ℕ × OpenHandle) → List (ℕ × OpenHandle)
remove_handle fh [] = []
remove_handle fh ((known, handle) ∷ rest) =
    if known == fh then remove_handle fh rest else (known, handle) ∷ remove_handle fh rest

-- `Shared::register_handle`; the counter is an `AtomicU64`, which wraps around.
unfoldable pub register_handle : Shared → OpenHandle → ℕ × Shared
unfolding insert_handle
register_handle shared handle = (
  shared.next_fh,
  record shared {
    handles = insert_handle shared.next_fh handle shared.handles;
    next_fh = (shared.next_fh + 1) % u64_mod;
  },
)

unfoldable pub may_write : Option OpenHandle → Bool
may_write none = false
may_write (some handle) = handle.access == write

unfoldable pub may_read : Option OpenHandle → Bool
may_read none = false
may_read (some handle) = handle.can_read

-- `Shared::current_size`
unfoldable pub current_size : Shared → ℕ
current_size shared = length shared.content.contents

module _ (codec : Codec) (b : BackingStore) where
  -- The last lines of both mutations: the candidate is shared once it is committed.
  unfoldable pub replace_content {ℓ} :
      {A : Type ℓ}
      → A
      → Shared
      → Outcome SnapshotRecord × b.Contents
      → Result MutationError A × Shared × b.Contents
  replace_content done shared (ok next, kept) = (ok done, record shared { content = next }, kept)
  replace_content done shared (err e, kept) = (err (commit_failed e), shared, kept)

  -- `Shared::apply_write`
  unfoldable pub apply_write :
      Shared → b.Contents → ℕ → ℕ → Bytes → Result MutationError ℕ × Shared × b.Contents
  unfolding find_handle may_write checked_write_end written_contents replace_content update_contents
  apply_write shared kept fh offset input =
      if not (may_write (find_handle fh shared.handles))
      then (err (invalid eacces), shared, kept)
      else elim (checked_write_end offset (length input)) [
        | err e ↦ (err (invalid e), shared, kept)
        | ok end ↦ replace_content (length input % 2 ^ 32) shared (
            update_contents codec b kept shared.content
              (written_contents offset end input shared.content.contents))
      ]

  -- `Shared::apply_truncate`
  unfoldable pub apply_truncate :
      Shared → b.Contents → ℕ → Result MutationError (Unit {0}) × Shared × b.Contents
  unfolding resize replace_content update_contents
  apply_truncate shared kept new_size =
      if ltb max_content_len new_size
      then (err (invalid efbig), shared, kept)
      else replace_content tt shared
          (update_contents codec b kept shared.content (resize new_size shared.content.contents))

  -- `Shared::truncate_on_open`
  unfoldable pub truncate_on_open :
      Shared → b.Contents → Result MutationError (Unit {0}) × Shared × b.Contents
  unfolding apply_truncate
  truncate_on_open shared kept = apply_truncate shared kept 0

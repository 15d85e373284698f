-- ===== src/Transaction/Stored.antt =====
-- Mounted writes over the store of src/store/sqlite.rs.
use file_guard.Prelude.{
  ◌+◌, length, ◌≡◌, sym, ap, ◌∙◌, ℕ, ℕ_eq, Bytes, Bytes_eq, Option_Bytes_eq, Bool_eq, Result, ok,
  some,
}
use mathlib.Core.Path.{subst}
use file_guard.Files.FilePath.{FilePath}
use file_guard.Record.{
  SnapshotRecord, present_entry, StoreResult, Codec, version, Timestamp_eq,
  Option_ObjectIdentity_eq, ObjectIdentity_eq, RestoreOrigin_eq, Lifecycle_eq, OriginalState_eq,
  RecordVersion_eq, SnapshotRecord_eq, UnmountNext_eq,
}
use file_guard.Record.Snapshot.{path_from_hex}
use file_guard.Store.Rows.{Json}
use file_guard.Store.Sqlite.{Connection, load_record, commit}
use file_guard.Store.Statements.{Statements}
use file_guard.Store.Provenance.{load_record-commit}
use file_guard.Fuse.Content.{slice_content, written_contents}
use file_guard.Fuse.Commit.{BackingStore, Stored, commit_done, reload_showed, update_contents-ok}
use file_guard.Fuse.Shared.{Shared, MutationError, apply_write}
use file_guard.Fuse.Shared.Updates.{read_after_write, apply_write-committed}

module _ (codec : Codec) (current_dir : StoreResult FilePath) (json : Json) (c : Connection) where
  -- `SqliteStore` as a `BackingStore`.
  unfoldable pub sqlite_store : BackingStore
  unfolding load_record commit
  sqlite_store = record {
    Contents = c.Tables;
    load = λ tables path. (load_record codec current_dir json c tables path, tables);
    commit = commit codec current_dir json c;
  }

  -- A write through the mount, over a database with these tables.
  unfoldable pub write_stored :
      Shared → c.Tables → ℕ → ℕ → Bytes → Result MutationError ℕ × Shared × c.Tables
  unfolding sqlite_store apply_write
  write_stored shared tables fh offset input =
      apply_write codec sqlite_store shared tables fh offset input

  module _ (laws : Statements json c) where
    Stored-loads :
        (tables after : sqlite_store.Contents) (path : FilePath) (current next : SnapshotRecord)
        → Stored codec sqlite_store tables path current next after
        → (sqlite_store.load after path).0 ≡ ok (present_entry next)
    unfolding sqlite_store
    Stored-loads tables _ path current next (commit_done after e) =
        (load_record-commit codec current_dir json c laws tables after path (some (version current))
          next (version next) e).1
    Stored-loads tables _ path current next (reload_showed reason between after e shows) =
        subst (λ t. load_record codec current_dir json c t path ≡ ok (present_entry next))
          (ap (λ x. x.1) shows) (ap (λ x. x.0) shows)

    -- A write that the mount acknowledges is durable: the tables that it leaves load, for the path of
    -- the mounted record, the record that the mount shares from then on, and its contents have the
    -- data at the offset.
    pub write_stored-durable :
        (shared : Shared) (tables : c.Tables) (fh offset : ℕ) (input : Bytes) (n : ℕ)
        → (write_stored shared tables fh offset input).0 ≡ ok n
        → (path : FilePath) × (path_from_hex codec shared.content.header.path_hex ≡ ok path)
          × (load_record codec current_dir json c
                (write_stored shared tables fh offset input).2
                path
              ≡ ok (present_entry (write_stored shared tables fh offset input).1.content))
          × (slice_content (write_stored shared tables fh offset input).1.content.contents offset n
              ≡ input)
    unfolding write_stored sqlite_store
    write_stored-durable shared tables fh offset input n h =
        let contents =
          written_contents offset (offset + length input) input shared.content.contents in
        let (next, updates, shares) =
          apply_write-committed codec sqlite_store shared tables fh offset input n h in
        let (same, unblocked, mounted, (path, found, here)) =
          update_contents-ok codec sqlite_store tables shared.content next contents
            (ap (λ x. x.0) updates) in
        let loads = Stored-loads tables _ path shared.content next here in
        (
          path,
          found,
          ap (λ x. load_record codec current_dir json c x.1 path) (sym updates)
              ∙ loads
              ∙ ap (λ x. ok (present_entry x.content)) (sym shares),
          read_after_write codec sqlite_store shared tables fh offset input n h,
        )

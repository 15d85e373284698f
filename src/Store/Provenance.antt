-- ===== src/Store/Provenance.antt =====
-- What src/store/sqlite.rs returns after any writes, and after a commit.
use file_guard.Prelude.{
  ◌≡◌, sym, ap, ◌∙◌, Option, none, some, List, [], ◌∷◌, ℕ_eq, Bytes, Bytes_eq, Option_Bytes_eq,
  Bool_eq, ok, err, ok_inj,
}
use file_guard.Files.FilePath.{FilePath}
use file_guard.Record.{
  SnapshotRecord, RecordVersion, FinalizationRecord, Entry, present_entry, StoreError, StoreResult,
  Codec, version, Timestamp_eq, Option_ObjectIdentity_eq, ObjectIdentity_eq, RestoreOrigin_eq,
  Lifecycle_eq, OriginalState_eq, RecordVersion_eq, SnapshotRecord_eq, UnmountNext_eq,
}
use file_guard.Record.Transition.{validate_successor}
use file_guard.Record.History.{History}
use file_guard.Store.Rows.{StoredRow, Json}
use file_guard.Store.Sqlite.{
  Connection, load_found, load_record, end_transaction, transact, commit, begin_finalization,
  finish_finalization,
}
use file_guard.Store.Statements.{Statements}
use file_guard.Store.Loads.{Proper, load_record-present}
use file_guard.Store.Writes.{Written}
use file_guard.Store.Committed.{stage_commit-Staged, stage_commit-Proper, transact-keeps}
use file_guard.Store.Deletions.{stage_finalization-Proper, stage_deletion-Proper}

err_not_ok {ℓ} : {A : Type ℓ} {e : StoreError} {a : A} → ¬ (◌≡◌ {A = StoreResult A} (err e) (ok a))
err_not_ok k = cc

-- A call that writes, with its arguments.
pub data Write : Type 0 where
  write_commit : FilePath → Option RecordVersion → SnapshotRecord → Write
  write_begin_finalization : FilePath → RecordVersion → FinalizationRecord → Write
  write_finish_finalization : FilePath → RecordVersion → Write

module _ (codec : Codec) (current_dir : StoreResult FilePath) (json : Json) (c : Connection) where
  -- The tables that the calls leave, whatever they return.
  unfoldable pub after_write : Write → c.Tables → c.Tables
  unfolding commit begin_finalization finish_finalization
  after_write (write_commit file_id expected next) tables =
      (commit codec current_dir json c tables file_id expected next).1
  after_write (write_begin_finalization file_id expected marker) tables =
      (begin_finalization codec current_dir json c tables file_id expected marker).1
  after_write (write_finish_finalization file_id expected) tables =
      (finish_finalization codec current_dir json c tables file_id expected).1

  unfoldable pub after_writes : List Write → c.Tables → c.Tables
  unfolding after_write
  after_writes [] tables = tables
  after_writes (w ∷ ws) tables = after_writes ws (after_write w tables)

  module _ (laws : Statements json c) where
    after_write-Proper :
        (w : Write) (tables : c.Tables)
        → Proper codec current_dir json c tables
        → Proper codec current_dir json c (after_write w tables)
    unfolding after_write commit begin_finalization finish_finalization
    after_write-Proper (write_commit file_id expected next) tables proper =
        transact-keeps codec current_dir json c laws (Proper codec current_dir json c) tables _ _
          proper
          (λ made h.
            stage_commit-Proper codec current_dir json c laws tables made file_id expected next
              proper h)
    after_write-Proper (write_begin_finalization file_id expected marker) tables proper =
        transact-keeps codec current_dir json c laws (Proper codec current_dir json c) tables _ _
          proper
          (λ made h.
            stage_finalization-Proper codec current_dir json c laws tables made file_id expected
              marker proper h)
    after_write-Proper (write_finish_finalization file_id expected) tables proper =
        transact-keeps codec current_dir json c laws (Proper codec current_dir json c) tables _ _
          proper
          (λ made h.
            stage_deletion-Proper codec current_dir json c laws tables made file_id expected proper
              h)

    after_writes-Proper :
        (ws : List Write) (tables : c.Tables)
        → Proper codec current_dir json c tables
        → Proper codec current_dir json c (after_writes ws tables)
    unfolding after_writes
    after_writes-Proper [] tables proper = proper
    after_writes-Proper (w ∷ ws) tables proper =
        after_writes-Proper ws (after_write w tables) (after_write-Proper w tables proper)

    empty-Proper :
        (tables : c.Tables)
        → ((path : Bytes) → c.snapshot_row tables path ≡ ok none)
        → Proper codec current_dir json c tables
    unfolding Proper
    empty-Proper tables empty file_id row r here shows =
        absurd (gone (sym (empty file_id.bytes) ∙ here))
      where
        gone :
            {row : StoredRow}
            → ¬ (◌≡◌ {A = StoreResult (Option StoredRow)} (ok none) (ok (some row)))
        gone k = cc

    -- Whatever calls write to a database that started without snapshots, whether they succeed, fail
    -- or end with an uncertain commit, every snapshot that a load returns has a history: it is the
    -- last of revisions of that path that `validate_successor` accepted one after another, from a
    -- first capture.
    pub load_record-History :
        (ws : List Write) (tables : c.Tables) (file_id : FilePath) (r : SnapshotRecord)
        → ((path : Bytes) → c.snapshot_row tables path ≡ ok none)
        → load_record codec current_dir json c (after_writes ws tables) file_id
          ≡ ok (present_entry r)
        → (first : SnapshotRecord) × History codec current_dir file_id first r
    unfolding Proper
    load_record-History ws tables file_id r empty loaded =
        let (row, here, shows) =
          load_record-present codec current_dir json c (after_writes ws tables) file_id r loaded in
        after_writes-Proper ws tables (empty-Proper tables empty) file_id row r here shows

    end_transaction-ok :
        {A : Type 0} (r : StoreResult (Unit {0}) × c.Tables) (a b : A) (after : c.Tables)
        → end_transaction codec current_dir json c r a ≡ (ok b, after)
        → (r ≡ (ok tt, after)) × (b ≡ a)
    unfolding end_transaction
    end_transaction-ok (ok done, kept) a b after h =
        (ap (λ k. (ok tt, k)) (ap (λ x. x.1) h), sym (ok_inj (ap (λ x. x.0) h)))
    end_transaction-ok (err e, kept) a b after h = absurd (err_not_ok (ap (λ x. x.0) h))

    transact-ok :
        {A : Type 0} (tables after : c.Tables) (staged : StoreResult c.Tables) (a b : A)
        → transact codec current_dir json c tables staged a ≡ (ok b, after)
        → (staged ≡ ok after) × (b ≡ a)
    unfolding transact
    transact-ok tables after (ok made) a b h =
        let (ends, same) = end_transaction-ok (c.commit_transaction tables made) a b after h in
        (ap ok (sym (laws.committed tables made after ends)), same)
    transact-ok tables after (err e) a b h = absurd (err_not_ok (ap (λ x. x.0) h))

    -- A commit that succeeds returns the version of the candidate, and the candidate is what a load
    -- of the path returns next; the candidate was accepted against what a load would have returned
    -- before.
    pub load_record-commit :
        (tables after : c.Tables) (file_id : FilePath) (expected : Option RecordVersion)
        (next : SnapshotRecord) (v : RecordVersion)
        → commit codec current_dir json c tables file_id expected next ≡ (ok v, after)
        → (v ≡ version next)
          × (load_record codec current_dir json c after file_id ≡ ok (present_entry next))
          × ((current : Entry) × (load_record codec current_dir json c tables file_id ≡ ok current)
              × (validate_successor codec current_dir file_id expected current next ≡ ok tt))
    unfolding commit load_record load_found Written
    load_record-commit tables after file_id expected next v h =
        let (staged, same) = transact-ok tables after _ _ v h in
        let st =
          stage_commit-Staged codec current_dir json c laws tables after file_id expected next
            staged in
        let at : c.snapshot_row after file_id.bytes ≡ ok (some st.row) =
          rw (← st.keyed) st.written.0 in
        (same, rw (at, st.decodes), (st.current, st.loaded, st.accepted))

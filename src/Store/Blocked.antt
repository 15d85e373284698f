-- ===== src/Store/Blocked.antt =====
-- A snapshot that waits for manual recovery, and the writes of src/store/sqlite.rs.
use file_guard.Prelude.{
  ◌≡◌, refl, sym, ap, ◌∙◌, ◌≢◌, ◌⊎◌, inl, inr, true, false, Option, none, some, List, [], ◌∷◌, ℕ_eq,
  Bytes-discrete, Bytes_eq, Option_Bytes_eq, Bool_eq, ok, ok_inj,
}
use file_guard.Files.FilePath.{FilePath}
use file_guard.Record.{
  SnapshotRecord, RecordVersion, FinalizationRecord, Entry, present_entry, StoreResult, Codec,
  Timestamp_eq, Option_ObjectIdentity_eq, ObjectIdentity_eq, RestoreOrigin_eq, Lifecycle_eq,
  OriginalState_eq, RecordVersion_eq, SnapshotRecord_eq, UnmountNext_eq,
}
use file_guard.Record.Structure.{is_some}
use file_guard.Record.Transition.{validate_against, validate_successor}
use file_guard.Record.Successor.{validate_successor-Accepted}
use file_guard.Store.Rows.{StoredRow, Json, decode_row}
use file_guard.Store.Sqlite.{
  Connection, load_found, load_record, stage_commit, commit, stage_finalization, begin_finalization,
  stage_deletion, finish_finalization,
}
use file_guard.Store.Statements.{Statements}
use file_guard.Store.Loads.{load_record-present}
use file_guard.Store.Writes.{Written, refuses}
use file_guard.Store.Committed.{stage_commit-Staged, transact-keeps}
use file_guard.Store.Deletions.{stage_finalization-Deleted, stage_deletion-rows}
use file_guard.Store.Provenance.{
  Write, write_commit, write_begin_finalization, write_finish_finalization, after_write,
  after_writes,
}

module _ (codec : Codec) (current_dir : StoreResult FilePath) (json : Json) (c : Connection)
    (laws : Statements json c) where
  not_accepted :
      (file_id : FilePath) (expected : Option RecordVersion) (r next : SnapshotRecord)
      → is_some r.header.blocked_reason ≡ true
      → ¬ (validate_successor codec current_dir file_id expected (present_entry r) next ≡ ok tt)
  unfolding validate_against
  not_accepted file_id none r next blocked accepted =
      refuses codec current_dir json c laws file_id none (present_entry r) next accepted (λ k. cc)
  not_accepted file_id (some v) r next blocked accepted =
      let a = validate_successor-Accepted codec current_dir file_id v r next accepted in
      both (sym blocked ∙ a.not_blocked)
    where
      both : ¬ (true ≡ false)
      both e = cc

  -- A row of the path, which decodes to a record that is blocked.
  module _ (file_id : FilePath) (row : StoredRow) (r : SnapshotRecord)
      (decodes : decode_row codec current_dir json row ≡ ok r)
      (blocked : is_some r.header.blocked_reason ≡ true) where
    HasRow : c.Tables → Type 0
    HasRow tables = c.snapshot_row tables file_id.bytes ≡ ok (some row)

    HasRow-loads :
        (tables : c.Tables)
        → HasRow tables
        → load_record codec current_dir json c tables file_id ≡ ok (present_entry r)
    unfolding load_record load_found HasRow
    HasRow-loads tables here = rw (here, decodes) refl

    -- Another path, or the same: then the record that was loaded is the blocked one.
    loaded_here :
        (tables : c.Tables) (other : FilePath) (entry : Entry)
        → HasRow tables
        → load_record codec current_dir json c tables other ≡ ok entry
        → (file_id.bytes ≢ other.bytes) ⊎ (entry ≡ present_entry r)
    loaded_here tables other entry here loaded = elim (Bytes-discrete file_id.bytes other.bytes) [
      | no differs ↦ inl differs
      | yes same ↦
          let one : other ≡ file_id = ap (λ b. record { bytes = b }) (sym same) in
          inr (
            sym (
              ok_inj (
                sym (HasRow-loads tables here)
                ∙ ap (load_record codec current_dir json c tables) (sym one)
                ∙ loaded)))
    ]

    stage_commit-HasRow :
        (tables made : c.Tables) (other : FilePath) (expected : Option RecordVersion)
        (next : SnapshotRecord)
        → HasRow tables
        → stage_commit codec current_dir json c tables other expected next ≡ ok made
        → HasRow made
    unfolding HasRow Written
    stage_commit-HasRow tables made other expected next here h =
        let st =
          stage_commit-Staged codec current_dir json c laws tables made other expected next h in
        elim (loaded_here tables other st.current here st.loaded) [
          | inl differs ↦ st.written.1 file_id.bytes (λ e. differs (e ∙ st.keyed)) ∙ here
          | inr same ↦ absurd (not_accepted other expected r next blocked (rw (← same) st.accepted))
        ]

    stage_finalization-HasRow :
        (tables made : c.Tables) (other : FilePath) (expected : RecordVersion)
        (marker : FinalizationRecord)
        → HasRow tables
        → stage_finalization codec current_dir json c tables other expected marker ≡ ok made
        → HasRow made
    unfolding HasRow
    stage_finalization-HasRow tables made other expected marker here h =
        let d =
          stage_finalization-Deleted codec current_dir json c laws tables made other expected marker
            h in
        elim (loaded_here tables other (present_entry d.current) here d.loaded) [
          | inl differs ↦ d.others file_id.bytes differs ∙ here
          | inr same ↦ absurd (
              both (
                sym blocked
                ∙ ap (λ x. is_some x.header.blocked_reason) (sym (record_of same))
                ∙ d.not_blocked))
        ]
      where
        both : ¬ (true ≡ false)
        both e = cc

        record_of : {a b : SnapshotRecord} → present_entry a ≡ present_entry b → a ≡ b
        record_of e = cc

    stage_deletion-HasRow :
        (tables made : c.Tables) (other : FilePath) (expected : RecordVersion)
        → HasRow tables
        → stage_deletion codec current_dir json c tables other expected ≡ ok made
        → HasRow made
    unfolding HasRow
    stage_deletion-HasRow tables made other expected here h =
        stage_deletion-rows codec current_dir json c laws tables made other expected h file_id.bytes
        ∙ here

    after_write-HasRow :
        (w : Write) (tables : c.Tables)
        → HasRow tables
        → HasRow (after_write codec current_dir json c w tables)
    unfolding after_write commit begin_finalization finish_finalization
    after_write-HasRow (write_commit other expected next) tables here =
        transact-keeps codec current_dir json c laws HasRow tables _ _ here
          (λ made h. stage_commit-HasRow tables made other expected next here h)
    after_write-HasRow (write_begin_finalization other expected marker) tables here =
        transact-keeps codec current_dir json c laws HasRow tables _ _ here
          (λ made h. stage_finalization-HasRow tables made other expected marker here h)
    after_write-HasRow (write_finish_finalization other expected) tables here =
        transact-keeps codec current_dir json c laws HasRow tables _ _ here
          (λ made h. stage_deletion-HasRow tables made other expected here h)

    after_writes-HasRow :
        (ws : List Write) (tables : c.Tables)
        → HasRow tables
        → HasRow (after_writes codec current_dir json c ws tables)
    unfolding after_writes
    after_writes-HasRow [] tables here = here
    after_writes-HasRow (w ∷ ws) tables here =
        after_writes-HasRow ws (after_write codec current_dir json c w tables)
          (after_write-HasRow w tables here)

  -- A record that waits for manual recovery is there to stay: whatever calls write to the database,
  -- for its path or another one, and whether they succeed, fail or end with an uncertain commit, a
  -- load of the path still returns this record.
  pub load_record-blocked :
      (ws : List Write) (tables : c.Tables) (file_id : FilePath) (r : SnapshotRecord)
      → is_some r.header.blocked_reason ≡ true
      → load_record codec current_dir json c tables file_id ≡ ok (present_entry r)
      → load_record codec current_dir json c
          (after_writes codec current_dir json c ws tables)
          file_id
        ≡ ok (present_entry r)
  unfolding HasRow
  load_record-blocked ws tables file_id r blocked loaded =
      let (row, here, decodes) =
        load_record-present codec current_dir json c tables file_id r loaded in
      HasRow-loads file_id row r decodes blocked (after_writes codec current_dir json c ws tables)
        (after_writes-HasRow file_id row r decodes blocked ws tables here)

-- ===== src/Store/Deletions.antt =====
-- The finalizations of src/store/sqlite.rs, and the rows that they leave.
use file_guard.Prelude.{
  String, Bool, true, false, not, ◌||◌, ◌≢◌, ok_inj, ◌≡◌, refl, sym, ap, ◌∙◌, Option, none, some,
  ◌==◌, ℕ_eq, Bytes, Bytes-discrete, Bytes_eq, Option_Bytes_eq, Bool_eq, ok, >>=-eq-ok,
  ensure-eq-ok,
}
use file_guard.Files.FilePath.{FilePath}
use file_guard.Record.{
  SnapshotRecord, Entry, missing, present_entry, finalizing, RecordVersion, FinalizationRecord,
  StoreResult, Codec, version, marker_version, Timestamp_eq, Option_ObjectIdentity_eq,
  ObjectIdentity_eq, RestoreOrigin_eq, Lifecycle_eq, OriginalState_eq, RecordVersion_eq,
  SnapshotRecord_eq, UnmountNext_eq,
}
use file_guard.Record.Structure.{is_some}
use file_guard.Record.Snapshot.{validate_finalization}
use file_guard.Store.Rows.{StoredRow, Json, revision_to_sql}
use file_guard.Store.Sqlite.{
  Connection, is_deletion, load_record, require_snapshot, require_marker, stage_finalization,
  stage_deletion,
}
use file_guard.Store.Statements.{Statements}
use file_guard.Store.Loads.{Proper}
use file_guard.Store.Writes.{changed_one-lem}

module _ (codec : Codec) (current_dir : StoreResult FilePath) (json : Json) (c : Connection) where
  module _ (laws : Statements json c) where
    -- Rows that a statement does not add.
    pub kept-Proper :
        (tables made : c.Tables)
        → ((path : Bytes) (row : StoredRow)
            → c.snapshot_row made path ≡ ok (some row)
            → c.snapshot_row tables path ≡ ok (some row))
        → Proper codec current_dir json c tables
        → Proper codec current_dir json c made
    unfolding Proper
    kept-Proper tables made back proper file_id row r here shows =
        proper file_id row r (back file_id.bytes row here) shows

    required :
        (reason : String) (entry : Entry) (current : SnapshotRecord)
        → require_snapshot codec current_dir json c reason entry ≡ ok current
        → entry ≡ present_entry current
    unfolding require_snapshot
    required reason (present_entry found) current h = ap present_entry (ok_inj h)
    required reason missing current h = cc
    required reason (finalizing marker) current h = cc

    -- What the start of a finalization that reaches its end read, checked and deleted.
    pub record Deleted (tables made : c.Tables) (file_id : FilePath) : Type 0 where
      pub current : SnapshotRecord
      pub loaded : load_record codec current_dir json c tables file_id ≡ ok (present_entry current)
      pub not_blocked : is_some current.header.blocked_reason ≡ false
      pub gone : c.snapshot_row made file_id.bytes ≡ ok none
      pub others :
          (path : Bytes)
          → path ≢ file_id.bytes
          → c.snapshot_row made path ≡ c.snapshot_row tables path

    neither_left : (a b : Bool) → not (a || b) ≡ true → a ≡ false
    neither_left false b h = refl
    neither_left true b h = cc

    pub stage_finalization-Deleted :
        (tables made : c.Tables) (file_id : FilePath) (expected : RecordVersion)
        (marker : FinalizationRecord)
        → stage_finalization codec current_dir json c tables file_id expected marker ≡ ok made
        → Deleted tables made file_id
    unfolding stage_finalization
    stage_finalization-Deleted tables made file_id expected marker h =
        let (done, valid, h2) = >>=-eq-ok (validate_finalization codec current_dir marker) _ h in
        let h3 = ensure-eq-ok _ _ _ h2 in
        let (done2, begins, h4) = >>=-eq-ok (c.begin_immediate tables) _ h3.1 in
        let (entry, loaded, h5) =
          >>=-eq-ok (load_record codec current_dir json c tables file_id) _ h4 in
        let (current, found, h6) =
          >>=-eq-ok (require_snapshot codec current_dir json c _ entry) _ h5 in
        let h7 = ensure-eq-ok (version current == expected) _ _ h6 in
        let h8 =
          ensure-eq-ok
            (not
              (is_some current.header.blocked_reason || not (is_deletion current.header.lifecycle)))
            _ _ h7.1 in
        let (header, encoded, h9) = >>=-eq-ok (json.encode_finalization_header marker) _ h8.1 in
        let (revision, in_range, h10) = >>=-eq-ok (revision_to_sql marker.revision) _ h9 in
        let (marked, marks, h11) = >>=-eq-ok (c.insert_finalization tables _) _ h10 in
        let (expected_revision, in_range2, h12) =
          >>=-eq-ok (revision_to_sql expected.revision) _ h11 in
        let (wrote, deletes, h13) =
          >>=-eq-ok (c.delete_snapshot marked.1 file_id.bytes expected.generation expected_revision)
            _ h12 in
        let deleted =
          deletes ∙ ap ok (changed_one-lem codec current_dir json c laws _ wrote made h13) in
        record {
          current = current;
          loaded = loaded ∙ ap ok (required _ entry current found);
          not_blocked = neither_left _ _ h8.0;
          gone =
              laws.deleted marked.1 made file_id.bytes expected.generation expected_revision
                deleted;
          others = λ path differs.
              laws.delete_others marked.1 made file_id.bytes expected.generation expected_revision
                path deleted differs
              ∙ laws.marked tables marked.1 _ marked.0 path marks;
        }

    pub stage_finalization-Proper :
        (tables made : c.Tables) (file_id : FilePath) (expected : RecordVersion)
        (marker : FinalizationRecord)
        → Proper codec current_dir json c tables
        → stage_finalization codec current_dir json c tables file_id expected marker ≡ ok made
        → Proper codec current_dir json c made
    stage_finalization-Proper tables made file_id expected marker proper h =
        let d = stage_finalization-Deleted tables made file_id expected marker h in
        kept-Proper tables made
          (λ path row here. elim (Bytes-discrete path file_id.bytes) [
            | no differs ↦ sym (d.others path differs) ∙ here
            | yes same ↦
                let at : c.snapshot_row made file_id.bytes ≡ ok (some row) = rw (← same) here in
                absurd (nothing (sym d.gone ∙ at))
          ])
          proper
      where
        nothing :
            {row : StoredRow}
            → ¬ (◌≡◌ {A = StoreResult (Option StoredRow)} (ok none) (ok (some row)))
        nothing k = cc

    -- The deletion of a marker leaves the snapshots.
    pub stage_deletion-rows :
        (tables made : c.Tables) (file_id : FilePath) (expected : RecordVersion)
        → stage_deletion codec current_dir json c tables file_id expected ≡ ok made
        → (path : Bytes) → c.snapshot_row made path ≡ c.snapshot_row tables path
    unfolding stage_deletion
    stage_deletion-rows tables made file_id expected h path =
        let (done, begins, h2) = >>=-eq-ok (c.begin_immediate tables) _ h in
        let (entry, loaded, h3) =
          >>=-eq-ok (load_record codec current_dir json c tables file_id) _ h2 in
        let (marker, found, h4) = >>=-eq-ok (require_marker codec current_dir json c entry) _ h3 in
        let h5 = ensure-eq-ok (marker_version marker == expected) _ _ h4 in
        let (revision, in_range, h6) = >>=-eq-ok (revision_to_sql expected.revision) _ h5.1 in
        let (wrote, deletes, h7) =
          >>=-eq-ok (c.delete_finalization tables file_id.bytes expected.generation revision) _
            h6 in
        laws.unmarked tables made file_id.bytes expected.generation revision 1 path
          (deletes ∙ ap ok (changed_one-lem codec current_dir json c laws _ wrote made h7))

    pub stage_deletion-Proper :
        (tables made : c.Tables) (file_id : FilePath) (expected : RecordVersion)
        → Proper codec current_dir json c tables
        → stage_deletion codec current_dir json c tables file_id expected ≡ ok made
        → Proper codec current_dir json c made
    stage_deletion-Proper tables made file_id expected proper h =
        kept-Proper tables made
          (λ path row here. sym (stage_deletion-rows tables made file_id expected h path) ∙ here)
          proper

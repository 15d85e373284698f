-- ===== src/Store/Writes.antt =====
-- The row that a commit of src/store/sqlite.rs writes.
use file_guard.Prelude.{
  ℕ, String, ◌≡◌, refl, sym, ap, ◌∙◌, ◌≢◌, Option, none, some, ◌==◌, ℕ_eq, eq_of_==, Bytes,
  Bytes_eq, Option_Bytes_eq, Bool_eq, ok, >>=-eq-ok, ensure-eq-ok, ok_inj,
}
use file_guard.Files.FilePath.{FilePath}
use file_guard.Record.{
  SnapshotRecord, RecordVersion, Entry, missing, present_entry, finalizing, StoreResult, Codec,
  Timestamp_eq, Option_ObjectIdentity_eq, ObjectIdentity_eq, RestoreOrigin_eq, Lifecycle_eq,
  OriginalState_eq, RecordVersion_eq, SnapshotRecord_eq, UnmountNext_eq,
}
use file_guard.Record.Snapshot.{path_to_hex, validate_snapshot}
use file_guard.Record.Transition.{validate_against, validate_successor}
use file_guard.Record.Successor.{validate_successor-Accepted}
use file_guard.Record.History.{History, begun, continued}
use file_guard.Store.Rows.{StoredRow, Json, revision_to_sql}
use file_guard.Store.Sqlite.{Connection, load_record, write_row, changed_one}
use file_guard.Store.Statements.{Statements}
use file_guard.Store.Loads.{Proper, load_record-present}

module _ (codec : Codec) (current_dir : StoreResult FilePath) (json : Json) (c : Connection) where
  module _ (laws : Statements json c) where
    -- What a write of one row leaves.
    unfoldable pub Written : c.Tables → c.Tables → StoredRow → Type 0
    Written tables made row =
        (c.snapshot_row made row.path ≡ ok (some row))
        × ((path : Bytes) → path ≢ row.path → c.snapshot_row made path ≡ c.snapshot_row tables path)

    pub write_row-Written :
        (tables made : c.Tables) (expected : Option RecordVersion) (row : StoredRow)
        → ((v : RecordVersion) → expected ≡ some v → row.generation ≡ v.generation)
        → write_row codec current_dir json c tables expected row ≡ ok (1, made)
        → Written tables made row
    unfolding write_row Written
    write_row-Written tables made none row same h = (
      laws.inserted tables made row h,
      λ path other. laws.insert_others tables made row path h other,
    )
    write_row-Written tables made (some v) row same h =
        let (revision, e, rest) = >>=-eq-ok (revision_to_sql v.revision) _ h in
        (
          laws.updated tables made v.generation revision row rest
              ∙ ap (λ g. ok (some (record row { generation = g }))) (sym (same v refl)),
          λ path other. laws.update_others tables made v.generation revision row path rest other,
        )

    -- The checks of `validate_successor` one by one.
    pub accepted_parts :
        (file_id : FilePath) (expected : Option RecordVersion) (current : Entry)
        (next : SnapshotRecord)
        → validate_successor codec current_dir file_id expected current next ≡ ok tt
        → (validate_snapshot codec current_dir next ≡ ok tt)
          × (next.header.path_hex ≡ path_to_hex codec file_id)
          × (validate_against expected current next ≡ ok tt)
    unfolding validate_successor
    accepted_parts file_id expected current next h =
        let (done, valid, rest) = >>=-eq-ok (validate_snapshot codec current_dir next) _ h in
        let s2 = ensure-eq-ok (next.header.path_hex == path_to_hex codec file_id) _ _ rest in
        (valid, eq_of_== next.header.path_hex (path_to_hex codec file_id) s2.0, s2.1)

    pub refuses :
        (file_id : FilePath) (expected : Option RecordVersion) (current : Entry)
        (next : SnapshotRecord)
        → validate_successor codec current_dir file_id expected current next ≡ ok tt
        → ¬ (validate_against expected current next ≡ ok tt)
        → ⊥
    refuses file_id expected current next h no_match =
        no_match (accepted_parts file_id expected current next h).2

    -- The history of a candidate that the store accepts.
    pub accepted-History :
        (tables : c.Tables) (file_id : FilePath) (expected : Option RecordVersion) (current : Entry)
        (next : SnapshotRecord)
        → Proper codec current_dir json c tables
        → load_record codec current_dir json c tables file_id ≡ ok current
        → validate_successor codec current_dir file_id expected current next ≡ ok tt
        → (first : SnapshotRecord) × History codec current_dir file_id first next
    unfolding Proper validate_against
    accepted-History tables file_id none missing next proper loaded accepted =
        (next, begun next accepted)
    accepted-History tables file_id (some v) (present_entry current) next proper loaded accepted =
        let (row, here, decodes) =
          load_record-present codec current_dir json c tables file_id current loaded in
        let (first, history) = proper file_id row current here decodes in
        let same =
          (validate_successor-Accepted codec current_dir file_id v current next
            accepted).same_version in
        (first, continued first current next history (rw same accepted))
    accepted-History tables file_id none (present_entry current) next proper loaded accepted =
        absurd (refuses file_id none (present_entry current) next accepted (λ k. cc))
    accepted-History tables file_id none (finalizing m) next proper loaded accepted =
        absurd (refuses file_id none (finalizing m) next accepted (λ k. cc))
    accepted-History tables file_id (some v) missing next proper loaded accepted =
        absurd (refuses file_id (some v) missing next accepted (λ k. cc))
    accepted-History tables file_id (some v) (finalizing m) next proper loaded accepted =
        absurd (refuses file_id (some v) (finalizing m) next accepted (λ k. cc))

    pub changed_one-lem :
        (reason : String) (done : ℕ × c.Tables) (made : c.Tables)
        → changed_one codec current_dir json c reason done ≡ ok made
        → done ≡ (1, made)
    unfolding changed_one
    changed_one-lem reason (count, tables) made h =
        let s1 = ensure-eq-ok (count == 1) _ _ h in
        let e = eq_of_== count 1 s1.0 in let k = ok_inj s1.1 in rw (e, k)

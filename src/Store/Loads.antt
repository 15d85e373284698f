-- ===== src/Store/Loads.antt =====
-- The rows that src/store/sqlite.rs loads, and where they come from.
use file_guard.Prelude.{
  ℕ, ◌^◌, ◌≡◌, refl, ap, ◌∙◌, inl, inr, true, ◌&&◌, Option, none, some, ltb, Bool-cases, ◌==◌, ℕ_eq,
  ==_refl, Bytes, Bytes_eq, Option_Bytes_eq, Bool_eq, ok, err, >>=-eq-ok, ok_inj,
}
use file_guard.Prelude.Int.{ℤ}
use file_guard.Files.FilePath.{FilePath}
use file_guard.Record.{
  SnapshotRecord, Entry, present_entry, corrupt, StoreResult, Codec, Timestamp_eq,
  Option_ObjectIdentity_eq, ObjectIdentity_eq, RestoreOrigin_eq, Lifecycle_eq, OriginalState_eq,
  RecordVersion_eq, SnapshotRecord_eq, UnmountNext_eq,
}
use file_guard.Record.Snapshot.{path_to_hex, validate_snapshot}
use file_guard.Record.History.{History}
use file_guard.Store.Rows.{
  StoredRow, StoredFinalization, Json, revision_from_sql, revision_to_sql, phase_column, decode_row,
  decode_finalization,
}
use file_guard.Store.Sqlite.{Connection, load_finalization, load_found, load_record, row_of}
use file_guard.Store.Statements.{Statements, and_intro}

module _ (codec : Codec) (current_dir : StoreResult FilePath) (json : Json) (c : Connection) where
  -- Every row of `snapshots` that decodes is a revision that the transition table leads to, from a
  -- first capture of its path.
  unfoldable pub Proper : c.Tables → Type 0
  Proper tables =
      (file_id : FilePath) (row : StoredRow) (r : SnapshotRecord)
      → c.snapshot_row tables file_id.bytes ≡ ok (some row)
      → decode_row codec current_dir json row ≡ ok r
      → (first : SnapshotRecord) × History codec current_dir file_id first r

  pub not_marker :
      (row : Option StoredFinalization) (r : SnapshotRecord)
      → ¬ (load_finalization codec current_dir json c row ≡ ok (present_entry r))
  unfolding load_finalization
  not_marker none r h = cc
  not_marker (some row) r h =
      let (marker, e, rest) = >>=-eq-ok (decode_finalization codec current_dir json row) _ h in cc

  pub present_inj :
      {a b : SnapshotRecord}
      → ◌≡◌ {A = StoreResult Entry} (ok (present_entry a)) (ok (present_entry b))
      → a ≡ b
  present_inj h = cc

  pub load_found-present :
      (tables : c.Tables) (file_id : FilePath) (found : Option StoredRow) (r : SnapshotRecord)
      → load_found codec current_dir json c tables file_id found ≡ ok (present_entry r)
      → (row : StoredRow) × (found ≡ some row) × (decode_row codec current_dir json row ≡ ok r)
  unfolding load_found
  load_found-present tables file_id none r h =
      let (row, e, rest) = >>=-eq-ok (c.finalization_row tables file_id.bytes) _ h in
      absurd (not_marker row r rest)
  load_found-present tables file_id (some row) r h =
      let (found, e, rest) = >>=-eq-ok (decode_row codec current_dir json row) _ h in
      (row, refl, e ∙ ap ok (present_inj rest))

  pub load_record-present :
      (tables : c.Tables) (file_id : FilePath) (r : SnapshotRecord)
      → load_record codec current_dir json c tables file_id ≡ ok (present_entry r)
      → (row : StoredRow) × (c.snapshot_row tables file_id.bytes ≡ ok (some row))
        × (decode_row codec current_dir json row ≡ ok r)
  unfolding load_record
  load_record-present tables file_id r h =
      let (found, e, rest) = >>=-eq-ok (c.snapshot_row tables file_id.bytes) _ h in
      let (row, same, decodes) = load_found-present tables file_id found r rest in
      (row, e ∙ ap ok same, decodes)

  module _ (laws : Statements json c) where
    pub in_range_lem :
        (revision : ℕ) (sql : ℤ)
        → revision_to_sql revision ≡ ok sql
        → revision_from_sql sql ≡ ok revision
    unfolding revision_to_sql revision_from_sql
    in_range_lem revision sql h = elim (Bool-cases (ltb revision (2 ^ 63))) [
      | inl small ↦ let e = ok_inj (rw small at h) in rw (← e)
      | inr large ↦ absurd (out (rw large at h))
    ]
      where
        out :
            ¬ (◌≡◌ {A = StoreResult ℤ} (err (corrupt "snapshot revision is out of range")) (ok sql))
        out k = cc

    -- The row of a candidate that `validate_successor` accepts decodes to it.
    pub row_of-decodes :
        (file_id : FilePath) (next : SnapshotRecord) (header : Bytes) (revision : ℤ)
        → validate_snapshot codec current_dir next ≡ ok tt
        → next.header.path_hex ≡ path_to_hex codec file_id
        → json.encode_snapshot_header next.header ≡ ok header
        → revision_to_sql next.header.revision ≡ ok revision
        → decode_row codec current_dir json
            (row_of codec current_dir json c file_id next header revision)
          ≡ ok next
    unfolding decode_row row_of path_to_hex
    row_of-decodes file_id next header revision valid bound encoded in_range =
        let same_columns : (next.header.path_hex == codec.hex_encode file_id.bytes
              && next.header.generation == next.header.generation
              && next.header.revision == next.header.revision
              && phase_column next.header.lifecycle == phase_column next.header.lifecycle)
            ≡ true =
          and_intro _ _
            (and_intro _ _
              (and_intro _ _ (rw bound (==_refl (codec.hex_encode file_id.bytes)))
                (==_refl next.header.generation))
              (==_refl next.header.revision))
            (==_refl (phase_column next.header.lifecycle)) in
        rw (laws.decoded next.header header encoded, in_range_lem _ _ in_range, same_columns, valid)

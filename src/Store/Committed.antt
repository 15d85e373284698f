-- ===== src/Store/Committed.antt =====
-- The commits of src/store/sqlite.rs, and the rows that they leave.
use file_guard.Prelude.{
  ◌≡◌, refl, sym, ap, ◌∙◌, inl, inr, Option, none, some, ◌==◌, ℕ_eq, eq_of_==, Bytes,
  Bytes-discrete, Bytes_eq, Option_Bytes_eq, Bool_eq, ok, err, >>=-eq-ok, ensure-eq-ok,
}
use mathlib.Core.Path.{subst⁻¹}
use file_guard.Files.FilePath.{FilePath}
use file_guard.Record.{
  SnapshotRecord, RecordVersion, Entry, missing, present_entry, finalizing, StoreResult, Codec,
  next_revision, version, Timestamp_eq, Option_ObjectIdentity_eq, ObjectIdentity_eq,
  RestoreOrigin_eq, Lifecycle_eq, OriginalState_eq, RecordVersion_eq, SnapshotRecord_eq,
  UnmountNext_eq,
}
use file_guard.Record.Transition.{validate_against, validate_successor}
use file_guard.Record.Edges.{and_split}
use file_guard.Record.History.{History}
use file_guard.Store.Rows.{StoredRow, Json, revision_to_sql, decode_row}
use file_guard.Store.Sqlite.{
  Connection, load_record, end_transaction, transact, row_of, write_row, stage_commit,
}
use file_guard.Store.Statements.{Statements, some_inj}
use file_guard.Store.Loads.{Proper, row_of-decodes}
use file_guard.Store.Writes.{
  Written, write_row-Written, accepted_parts, accepted-History, changed_one-lem,
}

module _ (codec : Codec) (current_dir : StoreResult FilePath) (json : Json) (c : Connection) where
  module _ (laws : Statements json c) where
    pub accepted_generation :
        (expected : Option RecordVersion) (current : Entry) (next : SnapshotRecord)
        → validate_against expected current next ≡ ok tt
        → (v : RecordVersion) → expected ≡ some v
        → next.header.generation ≡ v.generation
    unfolding validate_against
    accepted_generation none current next h v e = cc
    accepted_generation (some w) missing next h v e = cc
    accepted_generation (some w) (finalizing m) next h v e = cc
    accepted_generation (some w) (present_entry current) next h v e =
        let s1 = ensure-eq-ok (version current == w) _ _ h in
        let s2 = ensure-eq-ok _ _ _ s1.1 in
        let s3 =
          and_split (next.header.generation == w.generation)
            (next.header.revision == next_revision w.revision) s2.0 in
        eq_of_== next.header.generation w.generation s3.0 ∙ ap (λ x. x.generation) (some_inj e)

    pub one_row :
        {tables : c.Tables} {path : Bytes} {a b : StoredRow}
        → c.snapshot_row tables path ≡ ok (some a)
        → c.snapshot_row tables path ≡ ok (some b)
        → a ≡ b
    one_row h k = cc

    pub one_record :
        (row : StoredRow) {a b : SnapshotRecord}
        → decode_row codec current_dir json row ≡ ok a
        → decode_row codec current_dir json row ≡ ok b
        → a ≡ b
    one_record row h k = cc

    -- A record that a table holds in place of another one.
    pub replaced-Proper :
        (tables made : c.Tables) (file_id : FilePath) (row : StoredRow) (next : SnapshotRecord)
        → row.path ≡ file_id.bytes
        → Proper codec current_dir json c tables
        → Written codec current_dir json c laws tables made row
        → decode_row codec current_dir json row ≡ ok next
        → (first : SnapshotRecord) × History codec current_dir file_id first next
        → Proper codec current_dir json c made
    unfolding Proper Written
    replaced-Proper tables made file_id row next keyed proper written decodes history other found r
          here shows =
        elim (Bytes-discrete other.bytes row.path) [
          | no differs ↦ proper other found r (sym (written.1 other.bytes differs) ∙ here) shows
          | yes same ↦
              let at : c.snapshot_row made row.path ≡ ok (some found) = rw (← same) here in
              let which = one_row written.0 at in
              let what : next ≡ r = one_record row decodes (rw which shows) in
              let whose : other ≡ file_id = ap (λ b. record { bytes = b }) (same ∙ keyed) in
              rw (← what, whose) history
        ]

    -- What a commit that reaches its end read, checked and wrote.
    pub record Staged (tables made : c.Tables) (file_id : FilePath)
        (expected : Option RecordVersion) (next : SnapshotRecord) : Type 0 where
      pub current : Entry
      pub loaded : load_record codec current_dir json c tables file_id ≡ ok current
      pub accepted : validate_successor codec current_dir file_id expected current next ≡ ok tt
      pub row : StoredRow
      pub keyed : row.path ≡ file_id.bytes
      pub written : Written codec current_dir json c laws tables made row
      pub decodes : decode_row codec current_dir json row ≡ ok next

    pub stage_commit-Staged :
        (tables made : c.Tables) (file_id : FilePath) (expected : Option RecordVersion)
        (next : SnapshotRecord)
        → stage_commit codec current_dir json c tables file_id expected next ≡ ok made
        → Staged tables made file_id expected next
    unfolding stage_commit row_of
    stage_commit-Staged tables made file_id expected next h =
        let (done, begins, h2) = >>=-eq-ok (c.begin_immediate tables) _ h in
        let (current, loaded, h3) =
          >>=-eq-ok (load_record codec current_dir json c tables file_id) _ h2 in
        let (done2, accepted, h4) =
          >>=-eq-ok (validate_successor codec current_dir file_id expected current next) _ h3 in
        let (header, encoded, h5) = >>=-eq-ok (json.encode_snapshot_header next.header) _ h4 in
        let (revision, in_range, h6) = >>=-eq-ok (revision_to_sql next.header.revision) _ h5 in
        let row = row_of codec current_dir json c file_id next header revision in
        let (wrote, writes, h7) =
          >>=-eq-ok (write_row codec current_dir json c tables expected row) _ h6 in
        let one = changed_one-lem codec current_dir json c laws _ wrote made h7 in
        let parts =
          accepted_parts codec current_dir json c laws file_id expected current next accepted in
        record {
          current = current;
          loaded = loaded;
          accepted = accepted;
          row = row;
          keyed = refl;
          written =
              write_row-Written codec current_dir json c laws tables made expected row
                (accepted_generation expected current next parts.2) (writes ∙ ap ok one);
          decodes =
              row_of-decodes codec current_dir json c laws file_id next header revision parts.0
                parts.1 encoded in_range;
        }

    pub stage_commit-Proper :
        (tables made : c.Tables) (file_id : FilePath) (expected : Option RecordVersion)
        (next : SnapshotRecord)
        → Proper codec current_dir json c tables
        → stage_commit codec current_dir json c tables file_id expected next ≡ ok made
        → Proper codec current_dir json c made
    stage_commit-Proper tables made file_id expected next proper h =
        let st = stage_commit-Staged tables made file_id expected next h in
        replaced-Proper tables made file_id st.row next st.keyed proper st.written st.decodes (
          accepted-History codec current_dir json c laws tables file_id expected st.current next
            proper st.loaded st.accepted)

    -- What holds of the tables before a transaction, and of those that it makes, holds of those that
    -- it leaves.
    pub transact-keeps {ℓ} :
        {A : Type 0} (P : c.Tables → Type ℓ) (tables : c.Tables) (staged : StoreResult c.Tables)
        (a : A)
        → P tables
        → ((made : c.Tables) → staged ≡ ok made → P made)
        → P (transact codec current_dir json c tables staged a).1
    unfolding transact end_transaction
    transact-keeps P tables (err e) a before makes = before
    transact-keeps P tables (ok made) a before makes = ended (c.commit_transaction tables made) refl
      where
        ended :
            (r : StoreResult (Unit {0}) × c.Tables)
            → c.commit_transaction tables made ≡ r
            → P (end_transaction codec current_dir json c r a).1
        ended (ok done, after) e = subst⁻¹ P (laws.committed tables made after e) (makes made refl)
        ended (err failed, after) e = elim (laws.uncertain tables made after failed e) [
          | inl same ↦ subst⁻¹ P same before
          | inr same ↦ subst⁻¹ P same (makes made refl)
        ]

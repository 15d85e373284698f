-- ===== src/Store/Statements.antt =====
-- What src/store/sqlite.rs relies on of SQLite and of `serde_json`.
use file_guard.Prelude.{
  ℕ, ◌≡◌, ◌≢◌, ◌⊎◌, Bool, true, false, ◌&&◌, Option, none, some, ℕ_eq, Bytes, Bytes_eq,
  Option_Bytes_eq, Bool_eq, ok, err,
}
use file_guard.Prelude.Int.{ℤ}
use file_guard.Record.{
  RecordHeader, StoreError, Timestamp_eq, Option_ObjectIdentity_eq, ObjectIdentity_eq,
  RestoreOrigin_eq, Lifecycle_eq, OriginalState_eq, RecordVersion_eq, SnapshotRecord_eq,
  UnmountNext_eq,
}
use file_guard.Store.Rows.{StoredRow, StoredFinalization, Json}
use file_guard.Store.Sqlite.{Connection}

-- What the store relies on of SQLite and of `serde_json`: a transaction that commits leaves its
-- tables, and one whose commit fails leaves them or those before it; a statement that changes one
-- row of `snapshots` leaves that row under its key, and the others as they were; a statement on
-- `finalizations` leaves `snapshots` as it was; a header that was encoded decodes to itself.
pub record Statements (json : Json) (c : Connection) : Type 0 where
  pub committed :
      (before made after : c.Tables)
      → c.commit_transaction before made ≡ (ok tt, after)
      → after ≡ made
  pub uncertain :
      (before made after : c.Tables) (e : StoreError)
      → c.commit_transaction before made ≡ (err e, after)
      → (after ≡ before) ⊎ (after ≡ made)
  pub inserted :
      (tables made : c.Tables) (row : StoredRow)
      → c.insert_snapshot tables row ≡ ok (1, made)
      → c.snapshot_row made row.path ≡ ok (some row)
  pub insert_others :
      (tables made : c.Tables) (row : StoredRow) (path : Bytes)
      → c.insert_snapshot tables row ≡ ok (1, made)
      → path ≢ row.path
      → c.snapshot_row made path ≡ c.snapshot_row tables path
  pub updated :
      (tables made : c.Tables) (generation : Bytes) (revision : ℤ) (row : StoredRow)
      → c.update_snapshot tables generation revision row ≡ ok (1, made)
      → c.snapshot_row made row.path ≡ ok (some (record row { generation = generation }))
  pub update_others :
      (tables made : c.Tables) (generation : Bytes) (revision : ℤ) (row : StoredRow) (path : Bytes)
      → c.update_snapshot tables generation revision row ≡ ok (1, made)
      → path ≢ row.path
      → c.snapshot_row made path ≡ c.snapshot_row tables path
  pub deleted :
      (tables made : c.Tables) (path generation : Bytes) (revision : ℤ)
      → c.delete_snapshot tables path generation revision ≡ ok (1, made)
      → c.snapshot_row made path ≡ ok none
  pub delete_others :
      (tables made : c.Tables) (path generation : Bytes) (revision : ℤ) (other : Bytes)
      → c.delete_snapshot tables path generation revision ≡ ok (1, made)
      → other ≢ path
      → c.snapshot_row made other ≡ c.snapshot_row tables other
  pub marked :
      (tables made : c.Tables) (row : StoredFinalization) (count : ℕ) (path : Bytes)
      → c.insert_finalization tables row ≡ ok (count, made)
      → c.snapshot_row made path ≡ c.snapshot_row tables path
  pub unmarked :
      (tables made : c.Tables) (key generation : Bytes) (revision : ℤ) (count : ℕ) (path : Bytes)
      → c.delete_finalization tables key generation revision ≡ ok (count, made)
      → c.snapshot_row made path ≡ c.snapshot_row tables path
  pub decoded :
      (header : RecordHeader) (bytes : Bytes)
      → json.encode_snapshot_header header ≡ ok bytes
      → json.decode_snapshot_header bytes ≡ ok header

pub some_inj {ℓ} : {A : Type ℓ} {a b : A} → ◌≡◌ {A = Option A} (some a) (some b) → a ≡ b
some_inj e = cc

pub and_intro : (a b : Bool) → a ≡ true → b ≡ true → (a && b) ≡ true
and_intro true b h k = k
and_intro false b h k = cc

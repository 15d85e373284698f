-- ===== src/Transaction/System.antt =====
-- What src/transaction.rs works on: the backing store of src/store/mod.rs, and the directory
-- handles of src/secure_file.rs (`ResolvedPath`, `StagingArea`), whose system calls are not read.
use file_guard.Prelude.{
  ℕ, String, Bool, true, false, Option, none, some, List, ℕ_eq, Bytes, Bytes_eq, Option_Bytes_eq,
  Bool_eq, ok, err,
}
use file_guard.Files.FilePath.{FilePath}
use file_guard.Record.{
  RestoreMetadata, ObjectIdentity, OriginalState, RecordVersion, FinalizationRecord, StoreResult,
  Timestamp_eq, Option_ObjectIdentity_eq, ObjectIdentity_eq, RestoreOrigin_eq, Lifecycle_eq,
  OriginalState_eq, RecordVersion_eq, SnapshotRecord_eq,
}
use file_guard.Fuse.Commit.{BackingStore, TransactionError, refused, Outcome, from_store}

-- What `ResolvedPath::capture` returns.
pub record CapturedSource : Type 0 where
  pub original : OriginalState
  pub contents : Bytes

-- A call that may fail and changes the world either way.
abbrev pub Effect {ℓ κ} : Type ℓ → Type κ → Type (ℓ ⊔ κ)
Effect W A = W → Outcome A × W

pub record System : Type 1 where
  -- `BackingStore`
  pub store : BackingStore
  pub begin_finalization :
      store.Contents
      → FilePath
      → RecordVersion
      → FinalizationRecord
      → StoreResult RecordVersion × store.Contents
  pub finish_finalization :
      store.Contents → FilePath → RecordVersion → StoreResult (Unit {0}) × store.Contents
  pub Disk : Type 0
  -- `ResolvedPath`
  pub ResolvedPath : Type 0
  pub open_path : FilePath → Effect Disk ResolvedPath
  pub path : ResolvedPath → FilePath
  pub parent_identity : ResolvedPath → Effect Disk ObjectIdentity
  pub observe : ResolvedPath → Effect Disk (Option ObjectIdentity)
  pub capture : ResolvedPath → Effect Disk CapturedSource
  pub verify_restored : ResolvedPath → Bytes → RestoreMetadata → Effect Disk ObjectIdentity
  pub verify_finalized : ResolvedPath → ℕ → Bytes → RestoreMetadata → Effect Disk ObjectIdentity
  -- `StagingArea`
  pub StagingArea : Type 0
  pub default_staging_root : ResolvedPath → Effect Disk FilePath
  pub planned_path : FilePath → Bytes → Outcome FilePath
  pub parent : FilePath → Option FilePath
  pub create_area : FilePath → Bytes → ℕ → Effect Disk StagingArea
  pub open_area : FilePath → ℕ → Effect Disk StagingArea
  pub discard_construction : StagingArea → Bytes → Effect Disk (Unit {0})
  pub discard_uncommitted : StagingArea → Bytes → Effect Disk (Unit {0})
  pub observe_staged : StagingArea → Bytes → Effect Disk (Option ObjectIdentity)
  pub create_placeholder : StagingArea → Bytes → RestoreMetadata → Effect Disk ObjectIdentity
  pub verify_placeholder : StagingArea → Bytes → RestoreMetadata → Effect Disk ObjectIdentity
  pub create_restoration :
      StagingArea → Bytes → Bytes → RestoreMetadata → Effect Disk ObjectIdentity
  pub verify_restoration :
      StagingArea → Bytes → Bytes → RestoreMetadata → Effect Disk ObjectIdentity
  pub verify_snapshot : StagingArea → Bytes → Bytes → RestoreMetadata → Effect Disk ObjectIdentity
  pub verify_finalization :
      StagingArea → Bytes → ℕ → Bytes → RestoreMetadata → Effect Disk ObjectIdentity
  pub remove_verified : StagingArea → Bytes → ObjectIdentity → Effect Disk (Unit {0})
  pub is_empty : StagingArea → Effect Disk Bool
  pub contains_only : StagingArea → List Bytes → Effect Disk Bool
  pub sync : StagingArea → Effect Disk (Unit {0})
  pub remove_if_empty : StagingArea → Effect Disk (Unit {0})
  -- `ResolvedPath`, with the staging area
  pub exchange_with : ResolvedPath → StagingArea → Bytes → Effect Disk (Unit {0})
  pub install_absent : ResolvedPath → StagingArea → Bytes → Effect Disk (Unit {0})
  pub move_to_staging : ResolvedPath → StagingArea → Bytes → Effect Disk (Unit {0})
  pub sync_with : ResolvedPath → StagingArea → Effect Disk (Unit {0})
  -- `random_token` of src/store/sqlite.rs, and an error as a text.
  pub random_token : Effect Disk Bytes
  pub display : TransactionError → Bytes

-- The store's contents and the directories.
abbrev pub World : System → Type 0
World s = s.store.Contents × s.Disk

unfoldable pub onward {ℓ κ μ} :
    {W : Type ℓ} {A : Type κ} {B : Type μ} → (A → Effect W B) → Outcome A × W → Outcome B × W
onward next (ok a, after) = next a after
onward next (err e, after) = (err e, after)

infixl 5 ◌>>=◌
unfoldable pub ◌>>=◌ {ℓ κ μ} :
    {W : Type ℓ} {A : Type κ} {B : Type μ} → Effect W A → (A → Effect W B) → Effect W B
(first >>= next) w = onward next (first w)

infixl 5 ◌>>◌
abbrev pub ◌>>◌ {ℓ κ μ} :
    {W : Type ℓ} {A : Type κ} {B : Type μ} → Effect W A → Effect W B → Effect W B
first >> next = first >>= λ a. next

module _ {ℓ} {W : Type ℓ} where
  -- `Ok(a)`
  unfoldable pub give {κ} : {A : Type κ} → A → Effect W A
  give a w = (ok a, w)

  -- `Err(e)`
  unfoldable pub fail {κ} : {A : Type κ} → TransactionError → Effect W A
  fail e w = (err e, w)

  -- `anyhow::bail!`
  abbrev pub bail {κ} : {A : Type κ} → String → Effect W A
  bail reason = fail (refused reason)

  -- A result, not a call.
  unfoldable pub lift {κ} : {A : Type κ} → Outcome A → Effect W A
  lift m w = (m, w)

  -- The `match` on a call that an error does not end.
  unfoldable pub attempt {κ} : {A : Type κ} → Effect W A → Effect W (Outcome A)
  attempt m w = (ok (m w).0, (m w).1)

  -- `if !test { bail!(reason) }`
  unfoldable pub require : Bool → String → Effect W (Unit {0})
  require true reason = give tt
  require false reason = bail reason

  -- `ok_or_else`
  unfoldable pub expect {κ} : {A : Type κ} → Option A → String → Effect W A
  expect none reason = bail reason
  expect (some a) reason = give a

module _ (s : System) where
  -- A call on the directories.
  unfoldable pub disk : {A : Type 0} → Effect s.Disk A → Effect (World s) A
  disk call w = let r = call w.1 in (r.0, (w.0, r.1))

  -- A call on the store.
  unfoldable pub stored_call :
      {A : Type 0} → (s.store.Contents → StoreResult A × s.store.Contents) → Effect (World s) A
  stored_call call w = let r = call w.0 in (from_store r.0, (r.1, w.1))

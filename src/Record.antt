-- ===== src/Record.antt =====
-- The records of the backing store: src/store/mod.rs. Hexadecimal fields are texts as stored.
pub mod Checks
pub mod Structure
pub mod Snapshot
pub mod Transition
pub mod Edges
pub mod Successor
pub mod History
use file_guard.Prelude.{
  ℕ, ◌+◌, ◌-◌, ◌*◌, ◌%◌, ◌^◌, String, Bool, true, false, Option, List, ℕ_discrete, if◌then◌else◌,
  Eq, ℕ_eq, discrete_eq, Bytes, Bytes-discrete, Bytes_eq, Option_Bytes-discrete, Option_Bytes_eq,
  Bool-discrete, Bool_eq, Result,
}
use file_guard.Prelude.Int.{ℤ, ℤ-discrete}

abbrev pub max_credential_size : ℕ
max_credential_size = 16 * 1024 * 1024

abbrev pub format_version : ℕ
format_version = 2

pub record Timestamp : Type 0 where
  pub seconds : ℤ
  pub nanoseconds : ℤ

pub record ExtendedAttribute : Type 0 where
  pub name_hex : Bytes
  pub value_hex : Bytes

pub record RestoreMetadata : Type 0 where
  pub uid : ℕ
  pub gid : ℕ
  pub mode : ℕ
  pub atime : Timestamp
  pub mtime : Timestamp
  pub xattrs : List ExtendedAttribute

pub record ObjectIdentity : Type 0 where
  pub device : ℕ
  pub inode : ℕ
  pub ctime : Timestamp
  pub mtime : Timestamp
  pub size : ℕ
  pub links : ℕ
  pub mode : ℕ
  pub uid : ℕ
  pub gid : ℕ

pub data OriginalState : Type 0 where
  present : ObjectIdentity → RestoreMetadata → OriginalState
  absent : RestoreMetadata → OriginalState

-- `OriginalState::metadata`
unfoldable pub metadata : OriginalState → RestoreMetadata
metadata (present identity kept) = kept
metadata (absent presentation) = presentation

-- `OriginalState::existed`
unfoldable pub existed : OriginalState → Bool
existed (present identity kept) = true
existed (absent presentation) = false

pub data RestoreOrigin : Type 0 where
  from_installed from_stored : RestoreOrigin

pub data UnmountNext : Type 0 where
  then_restore leave_installed : UnmountNext

-- The fields of `RestoreIntent`.
pub record RestorePlan : Type 0 where
  pub origin : RestoreOrigin
  pub restore_name : Option Bytes
  pub restore_identity : Option ObjectIdentity
  pub detached_name : Option Bytes
  pub detached_identity : Option ObjectIdentity

-- The fields that `Restored` and `DeleteIntent` share.
pub record RestoreResult : Type 0 where
  pub origin : RestoreOrigin
  pub restored_identity : Option ObjectIdentity
  pub displaced_name : Option Bytes
  pub displaced_identity : Option ObjectIdentity
  pub detached_name : Option Bytes
  pub detached_identity : Option ObjectIdentity

pub data Lifecycle : Type 0 where
  captured : Lifecycle
  install_intent : Lifecycle
  installed : Option ObjectIdentity → Lifecycle
  mount_intent : Option ObjectIdentity → Lifecycle
  unmount_intent : UnmountNext → Option ObjectIdentity → Lifecycle
  restore_intent : RestorePlan → Lifecycle
  restored : RestoreResult → Lifecycle
  delete_intent : RestoreResult → Lifecycle
  store_intent : Bytes → Lifecycle
  stored : Bytes → ObjectIdentity → Lifecycle

pub record RecordHeader : Type 0 where
  pub format : ℕ
  pub path_hex : Bytes
  pub generation : Bytes
  pub revision : ℕ
  pub lifecycle : Lifecycle
  pub original : OriginalState
  pub logical_present : Bool
  pub parent : ObjectIdentity
  pub staging_path_hex : Bytes
  pub swap_name : Bytes
  pub stored_name : Bytes
  pub placeholder : Option ObjectIdentity
  pub mount_token : Bytes
  pub content_sha256 : Bytes
  pub blocked_reason : Option Bytes

pub record SnapshotRecord : Type 0 where
  pub header : RecordHeader
  pub contents : Bytes

pub record RecordVersion : Type 0 where
  pub generation : Bytes
  pub revision : ℕ

pub record FinalizationRecord : Type 0 where
  pub format : ℕ
  pub path_hex : Bytes
  pub generation : Bytes
  pub revision : ℕ
  pub logical_present : Bool
  pub parent : ObjectIdentity
  pub staging_path_hex : Bytes
  pub final_name : Bytes
  pub final_identity : Option ObjectIdentity
  pub restore_metadata : RestoreMetadata
  pub content_length : ℕ
  pub content_sha256 : Bytes

pub data Entry : Type 0 where
  missing : Entry
  present_entry : SnapshotRecord → Entry
  finalizing : FinalizationRecord → Entry

pub data StoreError : Type 0 where
  locked : StoreError
  unsupported_format unsafe_configuration corrupt conflict indeterminate : String → StoreError
  io serialization sqlite : String → StoreError

abbrev pub StoreResult {ℓ} : Type ℓ → Type ℓ
StoreResult A = Result StoreError A

-- What the records take from the `sha2` and `hex` crates.
pub record Codec : Type 0 where
  pub sha256 : Bytes → Bytes
  pub hex_encode : Bytes → Bytes
  pub hex_decode : Bytes → Option Bytes

-- A `u64` sum, as a release build computes it.
abbrev pub u64_mod : ℕ
u64_mod = 2 ^ 64

unfoldable pub next_revision : ℕ → ℕ
next_revision revision = (revision + 1) % u64_mod

-- `SnapshotRecord::version`
unfoldable pub version : SnapshotRecord → RecordVersion
version r = record { generation = r.header.generation; revision = r.header.revision }

-- `FinalizationRecord::version`
unfoldable pub marker_version : FinalizationRecord → RecordVersion
marker_version m = record { generation = m.generation; revision = m.revision }

-- `SnapshotRecord::successor`
unfoldable pub successor : Codec → SnapshotRecord → Lifecycle → Bytes → SnapshotRecord
unfolding next_revision
successor codec r lifecycle contents = record {
  header = record r.header {
    revision = next_revision r.header.revision;
    lifecycle = lifecycle;
    content_sha256 = codec.sha256 contents;
  };
  contents = contents;
}

unfoldable pub Timestamp-discrete : Discrete Timestamp
Timestamp-discrete = hlevel ℤ-discrete

unfoldable pub ObjectIdentity-discrete : Discrete ObjectIdentity
ObjectIdentity-discrete = hlevel (Timestamp-discrete, ℕ_discrete)

unfoldable pub Option_ObjectIdentity-discrete : Discrete (Option ObjectIdentity)
Option_ObjectIdentity-discrete = hlevel ObjectIdentity-discrete

unfoldable pub RestoreOrigin-discrete : Discrete RestoreOrigin
RestoreOrigin-discrete = hlevel

unfoldable pub UnmountNext-discrete : Discrete UnmountNext
UnmountNext-discrete = hlevel

unfoldable pub RestorePlan-discrete : Discrete RestorePlan
RestorePlan-discrete =
    hlevel (RestoreOrigin-discrete, Option_Bytes-discrete, Option_ObjectIdentity-discrete)

unfoldable pub RestoreResult-discrete : Discrete RestoreResult
RestoreResult-discrete =
    hlevel (RestoreOrigin-discrete, Option_Bytes-discrete, Option_ObjectIdentity-discrete)

unfoldable pub Lifecycle-discrete : Discrete Lifecycle
Lifecycle-discrete = hlevel (
  UnmountNext-discrete, Bytes-discrete, ObjectIdentity-discrete, Option_ObjectIdentity-discrete,
  RestorePlan-discrete, RestoreResult-discrete,
)

unfoldable pub ExtendedAttribute-discrete : Discrete ExtendedAttribute
ExtendedAttribute-discrete = hlevel Bytes-discrete

unfoldable pub RestoreMetadata-discrete : Discrete RestoreMetadata
RestoreMetadata-discrete = hlevel (Timestamp-discrete, ExtendedAttribute-discrete, ℕ_discrete)

unfoldable pub OriginalState-discrete : Discrete OriginalState
OriginalState-discrete = hlevel (ObjectIdentity-discrete, RestoreMetadata-discrete)

unfoldable pub RecordVersion-discrete : Discrete RecordVersion
RecordVersion-discrete = hlevel (Bytes-discrete, ℕ_discrete)

unfoldable pub RecordHeader-discrete : Discrete RecordHeader
RecordHeader-discrete = hlevel (
  ℕ_discrete, Bytes-discrete, Option_Bytes-discrete, Bool-discrete, Lifecycle-discrete,
  OriginalState-discrete, ObjectIdentity-discrete, Option_ObjectIdentity-discrete,
)

unfoldable pub SnapshotRecord-discrete : Discrete SnapshotRecord
SnapshotRecord-discrete = hlevel (RecordHeader-discrete, Bytes-discrete)

instance abbrev pub Timestamp_eq : Eq Timestamp
Timestamp_eq = discrete_eq Timestamp-discrete

instance abbrev pub Option_ObjectIdentity_eq : Eq (Option ObjectIdentity)
Option_ObjectIdentity_eq = discrete_eq Option_ObjectIdentity-discrete

instance abbrev pub ObjectIdentity_eq : Eq ObjectIdentity
ObjectIdentity_eq = discrete_eq ObjectIdentity-discrete

instance abbrev pub RestoreOrigin_eq : Eq RestoreOrigin
RestoreOrigin_eq = discrete_eq RestoreOrigin-discrete

instance abbrev pub Lifecycle_eq : Eq Lifecycle
Lifecycle_eq = discrete_eq Lifecycle-discrete

instance abbrev pub OriginalState_eq : Eq OriginalState
OriginalState_eq = discrete_eq OriginalState-discrete

instance abbrev pub RecordVersion_eq : Eq RecordVersion
RecordVersion_eq = discrete_eq RecordVersion-discrete

instance abbrev pub SnapshotRecord_eq : Eq SnapshotRecord
SnapshotRecord_eq = discrete_eq SnapshotRecord-discrete

instance abbrev pub UnmountNext_eq : Eq UnmountNext
UnmountNext_eq = discrete_eq UnmountNext-discrete

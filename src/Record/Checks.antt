-- ===== src/Record/Checks.antt =====
-- The checks of src/store/record.rs on the parts of a record.
use file_guard.Prelude.{
  ℕ, ◌-◌, ◌^◌, bit_and, String, Bool, true, false, not, ◌&&◌, ◌||◌, Option, none, some, List, [],
  ◌∷◌, ltb, ◌==◌, ◌!=◌, ℕ_eq, Bytes, Bytes_eq, Option_Bytes_eq, Bool_eq, length, any, all, ok,
  ◌>>=◌, ◌>>◌, ensure, ok_or,
}
use file_guard.Prelude.Int.{ℤ, pos, negsuc}
use file_guard.Files.Utf8.{is_ascii_hexdigit}
use file_guard.Files.FilePath.{slash, dot, dot_dot}
use file_guard.Record.{
  Timestamp, ExtendedAttribute, RestoreMetadata, ObjectIdentity, corrupt, StoreResult, Codec,
  Timestamp_eq, Option_ObjectIdentity_eq, ObjectIdentity_eq, RestoreOrigin_eq, Lifecycle_eq,
  OriginalState_eq, RecordVersion_eq, SnapshotRecord_eq,
}

abbrev pub s_ifmt : ℕ
s_ifmt = 0xf000

abbrev pub s_ifdir : ℕ
s_ifdir = 0x4000

abbrev pub s_ifreg : ℕ
s_ifreg = 0x8000

abbrev pub u32_max : ℕ
u32_max = 2 ^ 32 - 1

-- `!0o7777` and `0o7777` as 32-bit masks.
abbrev pub type_bits : ℕ
type_bits = 0xfffff000

abbrev pub mode_bits : ℕ
mode_bits = 0xfff

unfoldable pub nanoseconds_in_range : ℤ → Bool
nanoseconds_in_range (pos n) = ltb n 1_000_000_000
nanoseconds_in_range (negsuc n) = false

unfoldable pub validate_timestamp : Timestamp → StoreResult (Unit {0})
unfolding nanoseconds_in_range
validate_timestamp t =
    ensure (nanoseconds_in_range t.nanoseconds) (corrupt "timestamp nanoseconds are out of range")

unfoldable pub validate_identity : ObjectIdentity → ℕ → String → StoreResult (Unit {0})
unfolding validate_timestamp
validate_identity identity kind label = do
  ensure (not (bit_and identity.mode s_ifmt != kind || identity.links == 0)) (corrupt label)
  validate_timestamp identity.ctime
  validate_timestamp identity.mtime

-- The order of byte strings.
unfoldable pub lt_bytes : Bytes → Bytes → Bool
lt_bytes [] [] = false
lt_bytes [] (d ∷ ds) = true
lt_bytes (c ∷ cs) [] = false
lt_bytes (c ∷ cs) (d ∷ ds) = ltb c d || (c == d && lt_bytes cs ds)

unfoldable pub after_previous : Option Bytes → Bytes → Bool
unfolding lt_bytes
after_previous none name = true
after_previous (some previous) name = lt_bytes previous name

unfoldable pub has_byte : ℕ → Bytes → Bool
has_byte b bytes = any (λ c. c == b) bytes

module _ (codec : Codec) where
  unfoldable pub validate_xattrs : Option Bytes → List ExtendedAttribute → StoreResult (Unit {0})
  unfolding after_previous has_byte
  validate_xattrs previous [] = ok tt
  validate_xattrs previous (attribute ∷ rest) =
      let remaining = validate_xattrs (some attribute.name_hex) rest in
      (do
        name ← ok_or (codec.hex_decode attribute.name_hex) (corrupt "invalid xattr name")
        ensure (not (has_byte 0 name)) (corrupt "xattr name contains NUL")
        ok_or (codec.hex_decode attribute.value_hex) (corrupt "invalid xattr value")
        ensure (after_previous previous attribute.name_hex)
            (corrupt "xattrs must be strictly sorted and unique")
        remaining)

  unfoldable pub validate_metadata : RestoreMetadata → StoreResult (Unit {0})
  unfolding validate_timestamp validate_xattrs
  validate_metadata m = do
    ensure (not (m.uid == u32_max || m.gid == u32_max))
        (corrupt "restore ownership contains the reserved unchanged value")
    ensure (not (bit_and m.mode type_bits != 0)) (corrupt "restore mode contains file-type bits")
    validate_timestamp m.atime
    validate_timestamp m.mtime
    validate_xattrs none m.xattrs

unfoldable pub validate_token : Bytes → String → StoreResult (Unit {0})
validate_token value label =
    ensure (length value == 32 && all is_ascii_hexdigit value) (corrupt label)

unfoldable pub validate_entry_name : Bytes → StoreResult (Unit {0})
unfolding has_byte
validate_entry_name value = do
  ensure (not (value == [] || value == dot || value == dot_dot || has_byte slash value))
      (corrupt "snapshot contains an invalid staging entry name")
  ensure (not (has_byte 0 value)) (corrupt "staging entry contains NUL")

unfoldable pub identities_match_after_rename : Option ObjectIdentity → Option ObjectIdentity → Bool
identities_match_after_rename none none = true
identities_match_after_rename (some before) (some after) =
    before.device == after.device
    && before.inode == after.inode
    && before.mtime == after.mtime
    && before.size == after.size
    && before.links == after.links
    && before.mode == after.mode
    && before.uid == after.uid
    && before.gid == after.gid
identities_match_after_rename _ _ = false

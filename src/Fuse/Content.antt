-- ===== src/Fuse/Content.antt =====
-- The byte ranges of src/fuse_fs/credential_fs.rs.
pub mod Ranges
use file_guard.Prelude.{
  ℕ, zero, suc, ◌+◌, ◌-◌, ◌*◌, ◌^◌, bit_and, Bool, false, Option, none, some, [], ◌∷◌, ◌++◌, ltb,
  leb, if◌then◌else◌, ◌!=◌, ℕ_eq, discrete_eq, Bytes, Bytes_eq, Option_Bytes_eq, Bool_eq, length,
  take, drop, Result, ok, err,
}
use Prim.Native.Nat.{min}

abbrev pub max_content_len : ℕ
max_content_len = 16 * 1024 * 1024

pub data Errno : Type 0 where
  enoent eacces einval efbig eio eopnotsupp : Errno

-- `slice_content`
unfoldable pub slice_content : Bytes → ℕ → ℕ → Bytes
slice_content content offset size =
    if leb (length content) offset
    then []
    else take (min size (length content - offset)) (drop offset content)

-- `u64::checked_add` and the cap.
unfoldable pub checked_write_end : ℕ → ℕ → Result Errno ℕ
checked_write_end offset len =
    let end = offset + len in
    if leb (2 ^ 64) end then err efbig else if ltb max_content_len end then err efbig else ok end

-- `Vec::resize` with zeros.
unfoldable pub resize : ℕ → Bytes → Bytes
resize zero content = []
resize (suc n) [] = 0 ∷ resize n []
resize (suc n) (c ∷ content) = c ∷ resize n content

-- `candidate[start..end].copy_from_slice(data)`
unfoldable pub copy_at : ℕ → Bytes → Bytes → Bytes
copy_at start input content = take start content ++ (input ++ drop (start + length input) content)

-- The contents after a write that ends at `end`.
unfoldable pub written_contents : ℕ → ℕ → Bytes → Bytes → Bytes
unfolding resize copy_at
written_contents start end input content =
    copy_at start input (if ltb (length content) end then resize end content else content)

-- `changes_permissions`
unfoldable pub changes_permissions : Option ℕ → ℕ → Bool
changes_permissions none current = false
changes_permissions (some mode) current = bit_and mode 0xfff != bit_and current 0xfff

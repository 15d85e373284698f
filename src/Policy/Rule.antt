-- ===== src/Policy/Rule.antt =====
-- src/policy/rule.rs: directions, actions, compiled rules and decisions.
use file_guard.Prelude.{
  ℕ, bit_and, Bool, true, false, ◌||◌, Option, none, some, if◌then◌else◌, Eq, ◌==◌, ◌!=◌, ℕ_eq,
  discrete_eq, Bytes, Bytes_eq, Option_Bytes_eq, Bool_eq,
}
use file_guard.Files.FilePath.{FilePath}

pub data Action : Type 0 where
  allow deny : Action

pub data Access : Type 0 where
  read write any_access : Access

unfoldable pub Access-discrete : Discrete Access
Access-discrete = hlevel

instance abbrev pub Access_eq : Eq Access
Access_eq = discrete_eq Access-discrete

-- `Access::covers`
unfoldable pub covers : Access → Access → Bool
covers self req = self == any_access || self == req

abbrev pub o_accmode : ℕ
o_accmode = 3

abbrev pub o_rdonly : ℕ
o_rdonly = 0

abbrev pub o_wronly : ℕ
o_wronly = 1

abbrev pub o_rdwr : ℕ
o_rdwr = 2

abbrev pub o_trunc : ℕ
o_trunc = 0x200

abbrev pub o_append : ℕ
o_append = 0x400

-- `Access::from_open_flags`; the flags are the bit pattern of the `i32`.
unfoldable pub from_open_flags : ℕ → Access
from_open_flags flags =
    let accmode = bit_and flags o_accmode in
    if accmode == o_wronly
      || accmode == o_rdwr
      || bit_and flags o_trunc != 0
      || bit_and flags o_append != 0
    then write
    else read

pub data IdentityPin : Type 0 where
  sha256 : Bytes → IdentityPin
  unpinned : IdentityPin

-- `IdentityPin::sha256`
unfoldable pub pin_sha256 : IdentityPin → Option Bytes
pin_sha256 (sha256 value) = some value
pin_sha256 unpinned = none

pub record ScriptIdentity : Type 0 where
  pub path : Bytes
  pub pin : IdentityPin

pub record Rule : Type 0 where
  pub file : FilePath
  pub binary : FilePath
  pub action : Action
  pub access : Access
  pub identity : IdentityPin
  pub script : Option ScriptIdentity

pub data Decision : Type 0 where
  allow_always deny_always allow_session allow_once deny_once : Decision

-- `Decision::is_allowed`
unfoldable pub is_allowed : Decision → Bool
is_allowed allow_always = true
is_allowed allow_session = true
is_allowed allow_once = true
is_allowed _ = false

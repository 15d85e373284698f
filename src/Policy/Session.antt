-- ===== src/Policy/Session.antt =====
-- src/policy/session.rs: the grants of this daemon run. The hash set is a list without repetition.

pub mod Grants
use file_guard.Prelude.{
  ℕ, Bool, true, false, ◌&&◌, ◌||◌, Option, none, some, List, [], ◌∷◌, if◌then◌else◌, ◌==◌, ℕ_eq,
  discrete_eq, Bytes, Bytes_eq, Option_Bytes_eq, Bool_eq, any,
}
use file_guard.Files.FilePath.{FilePath, ◌=path=◌}
use file_guard.Process.{ProcessInfo}
use file_guard.Policy.Rule.{Access, any_access, Access_eq}

pub record ProcessId : Type 0 where
  pub pid : ℕ
  pub start_time : ℕ
  pub binary_path : FilePath
  pub binary_sha256 : Bytes
  pub script : Option FilePath

-- `From<&ProcessInfo> for ProcessId`
unfoldable pub process_id : ProcessInfo → ProcessId
process_id info = record {
  pid = info.pid;
  start_time = info.start_time;
  binary_path = info.binary_path;
  binary_sha256 = info.binary_sha256;
  script = info.script;
}

unfoldable pub script_eq : Option FilePath → Option FilePath → Bool
script_eq none none = true
script_eq (some p) (some q) = p =path= q
script_eq _ _ = false

-- The derived `PartialEq`: field by field, paths as paths.
unfoldable pub process_id_eq : ProcessId → ProcessId → Bool
unfolding script_eq
process_id_eq a b =
    a.pid == b.pid
    && a.start_time == b.start_time
    && (a.binary_path =path= b.binary_path)
    && a.binary_sha256 == b.binary_sha256
    && script_eq a.script b.script

pub record GrantKey : Type 0 where
  pub proc : ProcessId
  pub file : FilePath
  pub access : Access

unfoldable pub grant_key_eq : GrantKey → GrantKey → Bool
unfolding process_id_eq
grant_key_eq a b = process_id_eq a.proc b.proc && (a.file =path= b.file) && a.access == b.access

pub record SessionState : Type 0 where
  pub session_allows : List GrantKey

unfoldable pub new : SessionState
new = record { session_allows = [] }

unfoldable pub contains : List GrantKey → GrantKey → Bool
unfolding grant_key_eq
contains grants key = any (λ g. grant_key_eq g key) grants

-- `SessionState::grant_session`
unfoldable pub grant_session : SessionState → ProcessId → FilePath → Access → SessionState
unfolding contains
grant_session s proc file access =
    let key : GrantKey = record { proc = proc; file = file; access = access } in
    if contains s.session_allows key then s else record { session_allows = key ∷ s.session_allows }

-- `SessionState::is_session_allowed`
unfoldable pub is_session_allowed : SessionState → ProcessId → FilePath → Access → Bool
unfolding contains
is_session_allowed s proc file access =
    contains s.session_allows (record { proc = proc; file = file; access = access })
    || contains s.session_allows (record { proc = proc; file = file; access = any_access })

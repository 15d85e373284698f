-- ===== src/Process.antt =====
-- src/process/identify.rs: what the daemon knows of a calling process, and which binaries are
-- interpreters.
use file_guard.Prelude.{
  ℕ, String, Bool, true, false, ◌&&◌, ◌||◌, Option, List, [], ◌∷◌, map, leb, if◌then◌else◌, ◌==◌,
  ℕ_eq, Bytes, Bytes_eq, Option_Bytes_eq, Bool_eq, any,
}
use file_guard.Files.FilePath.{FilePath}
use Prim.Native.Char.{code}

pub record ParentProcess : Type 0 where
  pub pid : ℕ
  pub name : Bytes
  pub binary_path : Option FilePath

pub record ProcessInfo : Type 0 where
  pub pid : ℕ
  pub start_time : ℕ
  pub binary_path : FilePath
  pub binary_name : Bytes
  pub binary_sha256 : Bytes
  pub script : Option FilePath
  pub parent_chain : List ParentProcess

-- The bytes of an ASCII literal.
abbrev pub ascii : String → Bytes
ascii String.[] = []
ascii (String.◌∷◌ c s) = code c ∷ ascii s

digit_or_dot : ℕ → Bool
digit_or_dot c = (leb b'0' c && leb c b'9') || c == b'.'

-- `name.trim_end_matches(|c| c.is_ascii_digit() || c == '.')`
trim_version : Bytes → Bytes
unfolding digit_or_dot
trim_version [] = []
trim_version (c ∷ cs) =
    let rest = trim_version cs in if rest == [] && digit_or_dot c then [] else c ∷ rest

starts_with : Bytes → Bytes → Bool
starts_with [] s = true
starts_with (p ∷ ps) [] = false
starts_with (p ∷ ps) (c ∷ cs) = p == c && starts_with ps cs

abbrev interpreters : List Bytes
interpreters = map ascii (
    "pypy" ∷ "node" ∷ "nodejs" ∷ "deno" ∷ "bun" ∷ "ruby" ∷ "perl" ∷ "php" ∷ "lua" ∷ "luajit"
    ∷ "tclsh" ∷ "wish" ∷ "bash" ∷ "sh" ∷ "dash" ∷ "zsh" ∷ "ksh" ∷ "Rscript" ∷ "java" ∷ [])

unfoldable pub is_interpreter : Bytes → Bool
unfolding trim_version starts_with
is_interpreter name =
    starts_with (ascii "python") name || any (λ known. trim_version name == known) interpreters

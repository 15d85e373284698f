-- ===== src/Policy/Entry.antt =====
-- Rule entries as they are written down (src/config.rs), and how src/policy/engine.rs checks,
-- normalises and compiles them.

pub mod Normal
pub mod Fields
use file_guard.Prelude.{
  ◌-◌, String, Bool, ◌&&◌, Option, none, some, map, if◌then◌else◌, Eq, ◌==◌, ℕ_eq, discrete_eq,
  Bytes, Bytes-discrete, Bytes_eq, Option_Bytes_eq, Bool_eq, length, all, Result, ok, err, ◌>>=◌,
  ◌>>◌, ensure, ok_or,
}
use file_guard.Files.Utf8.{is_ascii_hexdigit, to_ascii_lowercase}
use file_guard.Files.FilePath.{FilePath, is_absolute, to_str}
use file_guard.Files.Lexical.{absolute_lexical}
use file_guard.Files.Expand.{expand_path}
use file_guard.Policy.Rule.{
  Action, allow, deny, Access, Access_eq, IdentityPin, sha256, unpinned, ScriptIdentity, Rule,
}

pub data RuleAction : Type 0 where
  allow_rule deny_rule : RuleAction

pub record RuleEntry : Type 0 where
  pub file : Bytes
  pub binary : Bytes
  pub action : RuleAction
  pub access : Access
  pub hash : Option Bytes
  pub script : Option Bytes
  pub script_hash : Option Bytes

unfoldable pub RuleEntry-discrete : Discrete RuleEntry
RuleEntry-discrete = hlevel Bytes-discrete

instance abbrev pub RuleEntry_eq : Eq RuleEntry
RuleEntry_eq = discrete_eq RuleEntry-discrete

pub data RulePinUpdate : Type 0 where
  keep : RulePinUpdate
  repin : Bytes → RulePinUpdate
  unpin : RulePinUpdate

-- What the operating system answers: the home directory of the watched user, the working
-- directory, and the hash of a file's present contents.
pub record Environment : Type 0 where
  pub target_home : Result String (Option FilePath)
  pub current_dir : Result String FilePath
  pub hash_file : FilePath → Result String Bytes

unfoldable pub or_keep {ℓ} : {A : Type ℓ} → Option A → A → A
or_keep none old = old
or_keep (some new) old = new

unfoldable pub apply_pin : RulePinUpdate → RuleEntry → RuleEntry
apply_pin keep entry = entry
apply_pin (repin value) entry = record entry { hash = some value }
apply_pin unpin entry = record entry { hash = none; script_hash = none }

unfoldable pub apply_rule_edit :
    RuleEntry → Option RuleAction → Option Access → RulePinUpdate → RuleEntry
unfolding or_keep apply_pin
apply_rule_edit entry action access pin =
    apply_pin pin
      (record entry { action = or_keep action entry.action; access = or_keep access entry.access })

unfoldable pub is_hash : Bytes → Bool
unfolding is_ascii_hexdigit
is_hash value = length value == 64 && all is_ascii_hexdigit value

unfoldable pub normalize_hash : Option Bytes → String → Result String (Option Bytes)
unfolding is_hash
normalize_hash none field = ok none
normalize_hash (some value) field =
    if is_hash value then ok (some (map to_ascii_lowercase value)) else err field

unfoldable pub identity_pin : Option Bytes → String → Result String IdentityPin
unfolding is_hash
identity_pin none field = ok unpinned
identity_pin (some value) field =
    if is_hash value then ok (sha256 (map to_ascii_lowercase value)) else err field

unfoldable pub rule_action : RuleAction → Action
rule_action allow_rule = allow
rule_action deny_rule = deny

unfoldable pub path_of : Bytes → FilePath
path_of bytes = record { bytes = bytes }

unfoldable pub script_path : Option ScriptIdentity → Option Bytes
script_path none = none
script_path (some script) = some script.path

module _ (env : Environment) where
  unfoldable pub lexical : FilePath → Result String FilePath
  unfolding absolute_lexical
  lexical = absolute_lexical env.current_dir "path escapes the filesystem root"

  unfoldable pub compile_script :
      Option Bytes → Option Bytes → Result String (Option ScriptIdentity)
  unfolding identity_pin path_of
  compile_script none (some hash) = err "script_sha256 requires a script path"
  compile_script none none = ok none
  compile_script (some path) hash = do
    ensure (is_absolute (path_of path)) "rule script path must be absolute"
    lexical_path ← lexical (path_of path)
    text ← ok_or (to_str lexical_path) "rule script path must be valid UTF-8"
    pin ← identity_pin hash "script_sha256"
    ok (some (record { path = text; pin = pin }))

  unfoldable pub rule_from_entry : RuleEntry → Result String Rule
  unfolding rule_action
  rule_from_entry entry = do
    expanded ← expand_path env.target_home entry.file
    ensure (is_absolute expanded) "rule file path must be absolute"
    file ← lexical expanded
    ensure (is_absolute (path_of entry.binary)) "rule binary path must be absolute"
    identity ← identity_pin entry.hash "sha256"
    script ← compile_script entry.script entry.script_hash
    ok (record {
      file = file;
      binary = path_of entry.binary;
      action = rule_action entry.action;
      access = entry.access;
      identity = identity;
      script = script;
    })

  unfoldable pub prepare_rule_entry : RuleEntry → Result String (RuleEntry × Rule)
  unfolding script_path
  prepare_rule_entry entry = do
    hash ← normalize_hash entry.hash "sha256"
    script_hash ← normalize_hash entry.script_hash "script_sha256"
    let hashed = record entry { hash = hash; script_hash = script_hash }
    compiled ← rule_from_entry hashed
    file ← ok_or (to_str compiled.file) "rule file path must be valid UTF-8"
    ok (record hashed { file = file; script = script_path compiled.script }, compiled)

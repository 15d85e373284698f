-- ===== src/Policy/Entry/Normal.antt =====
-- A prepared entry is in normal form: preparing it again changes nothing.
use file_guard.Prelude.{
  ℕ, suc, String, ◌≡◌, refl, ap, inl, inr, true, Option, none, some, List, [], ◌∷◌, map, arith,
  Option-cases, ℕ_eq, Bytes, Bytes_eq, Option_Bytes_eq, Bool_eq, length, all, Result, ok,
  Result-cases, ok_inj,
}
use file_guard.Files.Utf8.{is_ascii_hexdigit, to_ascii_lowercase}
use file_guard.Files.FilePath.{FilePath, root_dir, normal, components, is_absolute, to_str}
use file_guard.Files.Lexical.Normal.{absolute_lexical-normal}
use file_guard.Files.Expand.{expand_path}
use file_guard.Policy.Rule.{Access_eq, ScriptIdentity, Rule}
use file_guard.Policy.Entry.{
  RuleEntry, RuleEntry_eq, Environment, is_hash, normalize_hash, identity_pin, path_of, script_path,
  lexical, compile_script, rule_from_entry, prepare_rule_entry,
}

lower_hexdigit :
    (b : ℕ) → is_ascii_hexdigit b ≡ true → is_ascii_hexdigit (to_ascii_lowercase b) ≡ true
unfolding is_ascii_hexdigit to_ascii_lowercase
lower_hexdigit b h = ground arith

lower_idem : (b : ℕ) → to_ascii_lowercase (to_ascii_lowercase b) ≡ to_ascii_lowercase b
unfolding to_ascii_lowercase
lower_idem b = ground arith

pub map-lower_idem :
    (s : Bytes) → map to_ascii_lowercase (map to_ascii_lowercase s) ≡ map to_ascii_lowercase s
map-lower_idem [] = refl
map-lower_idem (c ∷ s) = cc (lower_idem c, map-lower_idem s)

length-lower : (s : Bytes) → length (map to_ascii_lowercase s) ≡ length s
length-lower [] = refl
length-lower (c ∷ s) = ap suc (length-lower s)

all-lower :
    (s : Bytes)
    → all is_ascii_hexdigit s ≡ true
    → all is_ascii_hexdigit (map to_ascii_lowercase s) ≡ true
all-lower [] h = refl
all-lower (c ∷ s) h = ground (arith, lower_hexdigit c, all-lower s)

is_hash-lower : (s : Bytes) → is_hash s ≡ true → is_hash (map to_ascii_lowercase s) ≡ true
unfolding is_hash
is_hash-lower s h = ground (arith, length-lower s, all-lower s)

-- A normalised hash is normal, and is pinned as it is.
normalize_hash-normal :
    (v w : Option Bytes) (f g : String) → normalize_hash v f ≡ ok w → (normalize_hash w g ≡ ok w)
unfolding normalize_hash
normalize_hash-normal none w f g h = ground arith
normalize_hash-normal (some v) w f g h = ground (arith, is_hash-lower v, map-lower_idem v)

pub to_str-eq : (p : FilePath) (text : Bytes) → to_str p ≡ some text → path_of text ≡ p
unfolding to_str path_of
to_str-eq p text h = ground arith

-- An absolute path has no home directory to expand.
pub expand_path-absolute :
    (home : Result String (Option FilePath)) (p : FilePath) (names : List Bytes)
    → components p ≡ root_dir ∷ map normal names
    → expand_path home p.bytes ≡ ok p
unfolding expand_path
expand_path-absolute home p names h = rw h

module _ (env : Environment) where
  pub lexical-normal :
      (p q : FilePath)
      → lexical env p ≡ ok q
      → (is_absolute q ≡ true)
        × ((names : List Bytes) × (components q ≡ root_dir ∷ map normal names))
        × (lexical env q ≡ ok q)
  unfolding lexical
  lexical-normal = absolute_lexical-normal env.current_dir "path escapes the filesystem root"

  compile_script-normal :
      (script hash : Option Bytes) (compiled : Option ScriptIdentity)
      → compile_script env script hash ≡ ok compiled
      → compile_script env (script_path compiled) hash ≡ ok compiled
  unfolding compile_script script_path
  compile_script-normal none none compiled h = rw (← ok_inj h)
  compile_script-normal none (some x) compiled h = cc
  compile_script-normal (some path) hash compiled h =
      elim (Result-cases (lexical env (path_of path))) [
        | inr (e, failed) ↦ absurd (ground arith)
        | inl (q, found) ↦ elim (Option-cases (to_str q)) [
          | inl unreadable ↦ absurd (ground arith)
          | inr (text, readable) ↦ elim (Result-cases (identity_pin hash "script_sha256")) [
            | inr (e, failed) ↦ absurd (ground arith)
            | inl (pin, pinned) ↦
                let same : some (record { path = text; pin = pin }) ≡ compiled = ground arith in
                let (rooted, _, again) = lexical-normal (path_of path) q found in
                rw (← same) (ground (arith, to_str-eq q text readable))
          ]
        ]
      ]

  rule_from_entry-normal :
      (entry : RuleEntry) (compiled : Rule) (file : Bytes)
      → rule_from_entry env entry ≡ ok compiled
      → to_str compiled.file ≡ some file
      → rule_from_entry env (record entry { file = file; script = script_path compiled.script })
        ≡ ok compiled
  unfolding rule_from_entry path_of
  rule_from_entry-normal entry compiled file h readable =
      elim (Result-cases (expand_path env.target_home entry.file)) [
        | inr (e, failed) ↦ absurd (ground arith)
        | inl (expanded, x) ↦ elim (Result-cases (lexical env expanded)) [
          | inr (e, failed) ↦ absurd (ground arith)
          | inl (q, l) ↦ elim (Result-cases (identity_pin entry.hash "sha256")) [
            | inr (e, failed) ↦ absurd (ground arith)
            | inl (pin, i) ↦
                elim (Result-cases (compile_script env entry.script entry.script_hash)) [
                  | inr (e, failed) ↦ absurd (ground arith)
                  | inl (script, c) ↦
                      let (rooted, (names, listed), again) = lexical-normal expanded q l in
                      let same : compiled.file ≡ q = ground arith in
                      let text : file ≡ q.bytes =
                        ap (λ (p : FilePath). p.bytes) (to_str-eq q file (rw same at readable)) in
                      ground (
                        arith,
                        expand_path-absolute env.target_home q names listed,
                        compile_script-normal entry.script entry.script_hash script c,
                      )
                ]
          ]
        ]
      ]

  -- Preparing the entry that a successful preparation returned succeeds, with the same entry and
  -- the same compiled rule.
  pub prepare_rule_entry_idem :
      (entry prepared : RuleEntry) (compiled : Rule)
      → prepare_rule_entry env entry ≡ ok (prepared, compiled)
      → prepare_rule_entry env prepared ≡ ok (prepared, compiled)
  unfolding prepare_rule_entry
  prepare_rule_entry_idem entry prepared compiled h =
      elim (Result-cases (normalize_hash entry.hash "sha256")) [
        | inr (e, failed) ↦ absurd (ground arith)
        | inl (hash, n) ↦ elim (Result-cases (normalize_hash entry.script_hash "script_sha256")) [
          | inr (e, failed) ↦ absurd (ground arith)
          | inl (script_hash, m) ↦
              let hashed : RuleEntry = record entry { hash = hash; script_hash = script_hash } in
              elim (Result-cases (rule_from_entry env hashed)) [
                | inr (e, failed) ↦ absurd (ground arith)
                | inl (c, made) ↦ elim (Option-cases (to_str c.file)) [
                  | inl unreadable ↦ absurd (ground arith)
                  | inr (file, readable) ↦ ground (
                    arith,
                    normalize_hash-normal entry.hash hash "sha256" "sha256" n,
                    normalize_hash-normal entry.script_hash script_hash "script_sha256"
                        "script_sha256" m,
                    rule_from_entry-normal hashed c file made readable,
                  )
                ]
              ]
        ]
      ]

-- ===== src/Policy/Entry/Fields.antt =====
-- What a compiled rule takes from its entry, field by field.
use file_guard.Prelude.{
  ◌≡◌, inl, inr, Option, arith, ℕ_eq, Bytes, Bytes_eq, Option_Bytes_eq, Bool_eq, ok, Result-cases,
}
use file_guard.Files.FilePath.{FilePath}
use file_guard.Files.Expand.{expand_path}
use file_guard.Policy.Rule.{Access_eq, Rule}
use file_guard.Policy.Entry.{
  RuleEntry, RuleEntry_eq, Environment, normalize_hash, identity_pin, rule_action, path_of, lexical,
  compile_script, rule_from_entry, prepare_rule_entry,
}

pub record CompiledFrom (env : Environment) (entry : RuleEntry) (rule : Rule) : Type 0 where
  pub expanded : FilePath
  pub expand : expand_path env.target_home entry.file ≡ ok expanded
  pub file : lexical env expanded ≡ ok rule.file
  pub binary : rule.binary ≡ path_of entry.binary
  pub action : rule.action ≡ rule_action entry.action
  pub access : rule.access ≡ entry.access
  pub identity : identity_pin entry.hash "sha256" ≡ ok rule.identity
  pub script : compile_script env entry.script entry.script_hash ≡ ok rule.script

module _ (env : Environment) where
  pub rule_from_entry-CompiledFrom :
      (entry : RuleEntry) (rule : Rule)
      → rule_from_entry env entry ≡ ok rule
      → CompiledFrom env entry rule
  unfolding rule_from_entry
  rule_from_entry-CompiledFrom entry rule h =
      elim (Result-cases (expand_path env.target_home entry.file)) [
        | inr (e, failed) ↦ absurd (ground arith)
        | inl (expanded, x) ↦ elim (Result-cases (lexical env expanded)) [
          | inr (e, failed) ↦ absurd (ground arith)
          | inl (file, l) ↦ elim (Result-cases (identity_pin entry.hash "sha256")) [
            | inr (e, failed) ↦ absurd (ground arith)
            | inl (pin, i) ↦
                elim (Result-cases (compile_script env entry.script entry.script_hash)) [
                  | inr (e, failed) ↦ absurd (ground arith)
                  | inl (script, c) ↦ record {
                    expanded = expanded;
                    expand = x;
                    file = ground arith;
                    binary = ground arith;
                    action = ground arith;
                    access = ground arith;
                    identity = ground arith;
                    script = ground arith;
                  }
                ]
          ]
        ]
      ]

  pub record PreparedFrom (entry prepared : RuleEntry) (rule : Rule) : Type 0 where
    pub hash : Option Bytes
    pub normal_hash : normalize_hash entry.hash "sha256" ≡ ok hash
    pub script_hash : Option Bytes
    pub normal_script_hash : normalize_hash entry.script_hash "script_sha256" ≡ ok script_hash
    pub compiled : CompiledFrom env (record entry { hash = hash; script_hash = script_hash }) rule

  pub prepare_rule_entry-PreparedFrom :
      (entry prepared : RuleEntry) (rule : Rule)
      → prepare_rule_entry env entry ≡ ok (prepared, rule)
      → PreparedFrom entry prepared rule
  unfolding prepare_rule_entry
  prepare_rule_entry-PreparedFrom entry prepared rule h =
      elim (Result-cases (normalize_hash entry.hash "sha256")) [
        | inr (e, failed) ↦ absurd (ground arith)
        | inl (hash, n) ↦ elim (Result-cases (normalize_hash entry.script_hash "script_sha256")) [
          | inr (e, failed) ↦ absurd (ground arith)
          | inl (script_hash, m) ↦
              let hashed : RuleEntry = record entry { hash = hash; script_hash = script_hash } in
              elim (Result-cases (rule_from_entry env hashed)) [
                | inr (e, failed) ↦ absurd (ground arith)
                | inl (c, made) ↦
                    let same : c ≡ rule = ground arith in
                    record {
                      hash = hash;
                      normal_hash = n;
                      script_hash = script_hash;
                      normal_script_hash = m;
                      compiled = rule_from_entry-CompiledFrom hashed rule (rw same at made);
                    }
              ]
        ]
      ]

-- ===== src/Policy/Manager/Compiled.antt =====
-- Every active rule is compiled from its entry, and its entry is in normal form.
use file_guard.Prelude.{
  ℕ, String, ◌≡◌, inl, inr, not, ◌&&◌, Option, none, some, List, [], ◌∷◌, ◌++◌, arith, Bool-cases,
  Option-cases, ◌==◌, ℕ_eq, Bytes_eq, Option_Bytes_eq, Bool_eq, any, All, All-append, Result, ok,
  err, collect, Result-cases, ok_inj,
}
use file_guard.Policy.Rule.{Access, Access_eq, Rule}
use file_guard.Policy.Entry.{
  RuleAction, RuleEntry, RuleEntry_eq, RulePinUpdate, Environment, apply_rule_edit,
  prepare_rule_entry,
}
use file_guard.Policy.Entry.Normal.{prepare_rule_entry_idem}
use file_guard.Policy.Repository.{StoredRule, RuleRepository}
use file_guard.Policy.Manager.{
  ActiveRule, has_id, has_entry, find_learned, replace_learned, remove_learned, activate,
  RuleManager, active_rule, find_compiled, new_entries, push_inserted, new, finish_add,
  add_managed_rule, finish_import, import_managed_rules, finish_edit, edit_prepared,
  edit_managed_rule, finish_remove, remove_managed_rule, RuleCall, add, import_rules, edit, remove,
  serve_calls,
}

module _ (env : Environment) where
  -- The rule is what its entry compiles to, and the entry is its own normal form.
  abbrev pub IsCompiled : ActiveRule → Type 0
  IsCompiled rule = prepare_rule_entry env rule.entry ≡ ok (rule.entry, rule.compiled)

  abbrev IsPrepared : RuleEntry × Rule → Type 0
  IsPrepared p = prepare_rule_entry env p.0 ≡ ok (p.0, p.1)

  All-replace_learned :
      (id : ℕ) (e : RuleEntry) (c : Rule) (rules : List ActiveRule)
      → IsPrepared (e, c)
      → All IsCompiled rules
      → All IsCompiled (replace_learned id e c rules)
  unfolding replace_learned
  All-replace_learned id e c [] p h = tt
  All-replace_learned id e c (x ∷ xs) p h = elim (Bool-cases (has_id id x)) [
    | inl here ↦ rw here (p, h.1)
    | inr there ↦ rw there (h.0, All-replace_learned id e c xs p h.1)
  ]

  All-remove_learned :
      (id : ℕ) (rules : List ActiveRule)
      → All IsCompiled rules
      → All IsCompiled (remove_learned id rules)
  unfolding remove_learned
  All-remove_learned id [] h = tt
  All-remove_learned id (x ∷ xs) h = elim (Bool-cases (has_id id x)) [
    | inl here ↦ rw here h.1
    | inr there ↦ rw there (h.0, All-remove_learned id xs h.1)
  ]

  collect-IsPrepared :
      (entries : List RuleEntry) (prepared : List (RuleEntry × Rule))
      → collect (prepare_rule_entry env) entries ≡ ok prepared
      → All IsPrepared prepared
  collect-IsPrepared [] prepared h = rw (← ok_inj h) tt
  collect-IsPrepared (e ∷ es) prepared h = elim (Result-cases (prepare_rule_entry env e)) [
    | inr (x, failed) ↦ absurd (ground arith)
    | inl (p, made) ↦ elim (Result-cases (collect (prepare_rule_entry env) es)) [
      | inr (x, failed) ↦ absurd (ground arith)
      | inl (ps, rest) ↦
          let same : (p ∷ ps) ≡ prepared = ground arith in
          rw (← same) (prepare_rule_entry_idem env e p.0 p.1 made, collect-IsPrepared es ps rest)
    ]
  ]

  find_compiled-IsPrepared :
      (e : RuleEntry) (c : Rule) (prepared : List (RuleEntry × Rule))
      → All IsPrepared prepared
      → find_compiled e prepared ≡ some c
      → IsPrepared (e, c)
  unfolding find_compiled
  find_compiled-IsPrepared e c [] h f = cc
  find_compiled-IsPrepared e c ((x, d) ∷ prepared) h f = elim (Bool-cases (x == e)) [
    | inl same ↦
        let e_eq : x ≡ e = (RuleEntry_eq.same_iff x e).0 same in
        let c_eq : d ≡ c = ground arith in rw (← e_eq, ← c_eq) h.0
    | inr other ↦ find_compiled-IsPrepared e c prepared h.1 (rw (other, find_compiled) at f)
  ]

  All-push_inserted :
      (prepared : List (RuleEntry × Rule)) (rows : List StoredRule) (rules : List ActiveRule)
      → All IsPrepared prepared
      → All IsCompiled rules
      → All IsCompiled (push_inserted prepared rows rules).1
  unfolding push_inserted
  All-push_inserted prepared [] rules p h = h
  All-push_inserted prepared (row ∷ rows) rules p h =
      elim (Option-cases (find_compiled row.entry prepared)) [
        | inl unknown ↦ rw (unknown, push_inserted) h
        | inr (c, found) ↦
            let new_rule = active_rule (row.entry, c) row.id in
            rw (found, push_inserted)
              (All-push_inserted prepared rows (rules ++ (new_rule ∷ [])) p (
                All-append IsCompiled rules (new_rule ∷ []) h
                  (find_compiled-IsPrepared row.entry c prepared p found, tt)))
      ]

module _ (env : Environment) (r : RuleRepository) where
  abbrev pub AllCompiled : RuleManager r → Type 0
  AllCompiled m = All (IsCompiled env) m.rules

  finish_add-AllCompiled :
      (m : RuleManager r) (p : RuleEntry × Rule)
      (result : Result String (Option StoredRule) × r.State)
      → IsPrepared env p
      → AllCompiled m
      → AllCompiled (finish_add env r m p result).1
  unfolding finish_add
  finish_add-AllCompiled m p (err e, store) q h = h
  finish_add-AllCompiled m p (ok none, store) q h = h
  finish_add-AllCompiled m p (ok (some row), store) q h =
      All-append (IsCompiled env) m.rules (active_rule p row.id ∷ []) h (q, tt)

  add_managed_rule-AllCompiled :
      (m : RuleManager r) (entry : RuleEntry)
      → AllCompiled m
      → AllCompiled (add_managed_rule env r m entry).1
  unfolding add_managed_rule
  add_managed_rule-AllCompiled m entry h = elim (Result-cases (prepare_rule_entry env entry)) [
    | inr (e, failed) ↦ rw (failed, add_managed_rule) h
    | inl (p, made) ↦
        rw (made, add_managed_rule)
          (elim (Bool-cases (has_entry p.0 m.rules)) [
            | inl old ↦ rw old h
            | inr new ↦ rw new (
                finish_add-AllCompiled m p (r.insert m.store p.0)
                  (prepare_rule_entry_idem env entry p.0 p.1 made) h)
          ])
  ]

  finish_import-AllCompiled :
      (m : RuleManager r) (p : List (RuleEntry × Rule))
      (result : Result String (List StoredRule) × r.State)
      → All (IsPrepared env) p
      → AllCompiled m
      → AllCompiled (finish_import env r m p result).1
  unfolding finish_import
  finish_import-AllCompiled m p (err e, store) q h = h
  finish_import-AllCompiled m p (ok l, store) q h = All-push_inserted env p l m.rules q h

  import_managed_rules-AllCompiled :
      (m : RuleManager r) (entries : List RuleEntry)
      → AllCompiled m
      → AllCompiled (import_managed_rules env r m entries).1
  unfolding import_managed_rules
  import_managed_rules-AllCompiled m entries h =
      elim (Result-cases (collect (prepare_rule_entry env) entries)) [
        | inr (e, failed) ↦ rw (failed, import_managed_rules) h
        | inl (p, made) ↦
            rw (made, import_managed_rules)
              (finish_import-AllCompiled m p (r.insert_many m.store (new_entries p m.rules))
                (collect-IsPrepared env entries p made) h)
      ]

  finish_edit-AllCompiled :
      (m : RuleManager r) (id : ℕ) (p : RuleEntry × Rule)
      (result : Result String (Unit {0}) × r.State)
      → IsPrepared env p
      → AllCompiled m
      → AllCompiled (finish_edit env r m id p result).1
  unfolding finish_edit
  finish_edit-AllCompiled m id p (err e, store) q h = h
  finish_edit-AllCompiled m id p (ok u, store) q h = All-replace_learned env id p.0 p.1 m.rules q h

  edit_prepared-AllCompiled :
      (m : RuleManager r) (id : ℕ) (p : RuleEntry × Rule)
      → IsPrepared env p
      → AllCompiled m
      → AllCompiled (edit_prepared env r m id p).1
  unfolding edit_prepared
  edit_prepared-AllCompiled m id p q h =
      elim (Bool-cases (any (λ active. not (has_id id active) && active.entry == p.0) m.rules)) [
        | inl twin ↦ rw twin h
        | inr alone ↦ rw alone (finish_edit-AllCompiled m id p (r.replace m.store id p.0) q h)
      ]

  edit_managed_rule-AllCompiled :
      (m : RuleManager r) (id : ℕ) (action : Option RuleAction) (access : Option Access)
      (pin : RulePinUpdate)
      → AllCompiled m
      → AllCompiled (edit_managed_rule env r m id action access pin).1
  unfolding edit_managed_rule
  edit_managed_rule-AllCompiled m id action access pin h =
      elim (Option-cases (find_learned id m.rules)) [
        | inl missing ↦ rw (missing, edit_managed_rule) h
        | inr (rule, found) ↦
            let edited = apply_rule_edit rule.entry action access pin in
            elim (Result-cases (prepare_rule_entry env edited)) [
              | inr (e, failed) ↦ rw (found, failed, edit_managed_rule) h
              | inl (p, made) ↦
                  rw (found, made, edit_managed_rule)
                    (edit_prepared-AllCompiled m id p
                      (prepare_rule_entry_idem env edited p.0 p.1 made) h)
            ]
      ]

  finish_remove-AllCompiled :
      (m : RuleManager r) (id : ℕ) (entry : RuleEntry) (result : Result String (Unit {0}) × r.State)
      → AllCompiled m
      → AllCompiled (finish_remove env r m id entry result).1
  unfolding finish_remove
  finish_remove-AllCompiled m id entry (err e, store) h = h
  finish_remove-AllCompiled m id entry (ok u, store) h = All-remove_learned env id m.rules h

  remove_managed_rule-AllCompiled :
      (m : RuleManager r) (id : ℕ) → AllCompiled m → AllCompiled (remove_managed_rule env r m id).1
  unfolding remove_managed_rule
  remove_managed_rule-AllCompiled m id h = elim (Option-cases (find_learned id m.rules)) [
    | inl missing ↦ rw (missing, remove_managed_rule) h
    | inr (rule, found) ↦
        rw (found, remove_managed_rule)
          (finish_remove-AllCompiled m id rule.entry (r.remove m.store id) h)
  ]

  -- Any sequence of calls, whatever each returns, takes a manager whose every active rule is
  -- compiled from its own normal entry to one of which this holds.
  pub serve_calls-AllCompiled :
      (calls : List RuleCall) (m : RuleManager r)
      → AllCompiled m
      → AllCompiled (serve_calls env r m calls)
  unfolding serve_calls
  serve_calls-AllCompiled [] m h = h
  serve_calls-AllCompiled (add entry ∷ calls) m h =
      serve_calls-AllCompiled calls (add_managed_rule env r m entry).1
        (add_managed_rule-AllCompiled m entry h)
  serve_calls-AllCompiled (import_rules entries ∷ calls) m h =
      serve_calls-AllCompiled calls (import_managed_rules env r m entries).1
        (import_managed_rules-AllCompiled m entries h)
  serve_calls-AllCompiled (edit id action access pin ∷ calls) m h =
      serve_calls-AllCompiled calls (edit_managed_rule env r m id action access pin).1
        (edit_managed_rule-AllCompiled m id action access pin h)
  serve_calls-AllCompiled (remove id ∷ calls) m h =
      serve_calls-AllCompiled calls (remove_managed_rule env r m id).1
        (remove_managed_rule-AllCompiled m id h)

activate-IsCompiled :
    (env : Environment) (id : Option ℕ) (entry : RuleEntry) (rule : ActiveRule)
    → activate env id entry ≡ ok rule
    → IsCompiled env rule
unfolding activate
activate-IsCompiled env id entry rule h = elim (Result-cases (prepare_rule_entry env entry)) [
  | inr (e, failed) ↦ absurd (ground arith)
  | inl (p, made) ↦
      let same : record { entry = p.0; compiled = p.1; learned_id = id } ≡ rule = ground arith in
      rw (← same) (prepare_rule_entry_idem env entry p.0 p.1 made)
]

collect-All {ℓ} :
    {A : Type ℓ} (f : A → Result String ActiveRule) (P : ActiveRule → Type 0) (xs : List A)
    (rules : List ActiveRule)
    → ((x : A) (rule : ActiveRule) → f x ≡ ok rule → P rule)
    → collect f xs ≡ ok rules
    → All P rules
collect-All f P [] rules each h = rw (← ok_inj h) tt
collect-All f P (x ∷ xs) rules each h = elim (Result-cases (f x)) [
  | inr (e, failed) ↦ absurd (ground arith)
  | inl (rule, made) ↦ elim (Result-cases (collect f xs)) [
    | inr (e, failed) ↦ absurd (ground arith)
    | inl (rest, more) ↦
        let same : (rule ∷ rest) ≡ rules = ground arith in
        rw (← same) (each x rule made, collect-All f P xs rest each more)
  ]
]

-- A manager that starts up without an error has compiled every active rule, configured or learned,
-- from its own normal entry.
new-AllCompiled :
    (env : Environment) (r : RuleRepository) (configured : List RuleEntry) (store : r.State)
    (m : RuleManager r)
    → new env r configured store ≡ ok m
    → AllCompiled env r m
unfolding new
new-AllCompiled env r configured store m h =
    elim (Result-cases (collect (activate env none) configured)) [
      | inr (e, failed) ↦ absurd (ground arith)
      | inl (rules, a) ↦ elim (Result-cases (r.list store)) [
        | inr (e, failed) ↦ absurd (ground arith)
        | inl (rows, l) ↦
            elim (Result-cases (collect (λ row. activate env (some row.id) row.entry) rows)) [
              | inr (e, failed) ↦ absurd (ground arith)
              | inl (learned, b) ↦
                  let same : rules ++ learned ≡ m.rules = ground arith in
                  rw (← same) (
                    All-append (IsCompiled env) rules learned
                      (collect-All (activate env none) (IsCompiled env) configured rules
                        (λ x. activate-IsCompiled env none x) a)
                      (collect-All (λ (row : StoredRule). activate env (some row.id) row.entry)
                        (IsCompiled env) rows learned
                        (λ row. activate-IsCompiled env (some row.id) row.entry) b))
            ]
      ]
    ]

-- ===== src/Policy/Manager/Mirror.antt =====
-- The learned rules in memory are the rows of the repository, whatever call is made and however
-- it ends.
use mathlib.Core.List.{append-nil, Memᴰ}
use file_guard.Prelude.{
  ℕ, String, ◌≡◌, refl, sym, ◌∙◌, inl, inr, not, ◌&&◌, Option, none, some, List, [], ◌∷◌, ◌++◌,
  Bool-cases, Option-cases, ◌==◌, ℕ_eq, Bytes_eq, Option_Bytes_eq, Bool_eq, any, All, Result, ok,
  err, collect, Result-cases,
}
use file_guard.Policy.Rule.{Access, Access_eq, Rule}
use file_guard.Policy.Entry.{
  RuleAction, RuleEntry, RuleEntry_eq, RulePinUpdate, Environment, apply_rule_edit,
  prepare_rule_entry,
}
use file_guard.Policy.Repository.{
  StoredRule, RuleRepository, replace_row, remove_row, appended, one_inserted, if_done,
  IsRepository,
}
use file_guard.Policy.Manager.{
  has_id, has_entry, find_learned, RuleManager, active_rule, new_entries, new, finish_add,
  add_managed_rule, finish_import, import_managed_rules, finish_edit, edit_prepared,
  edit_managed_rule, finish_remove, remove_managed_rule, RuleCall, add, import_rules, edit, remove,
  serve_calls,
}
use file_guard.Policy.Manager.Rows.{
  learned, learned-append, learned-replace_learned, learned-remove_learned, push_inserted-learned,
}

module _ (env : Environment) (r : RuleRepository) (laws : IsRepository r) where
  -- The learned rules of a manager are the rows of its repository, in order.
  abbrev pub Mirrors : RuleManager r → Type 0
  Mirrors m = learned m.rules ≡ laws.rows m.store

  finish_add-Mirrors :
      (m : RuleManager r) (p : RuleEntry × Rule) (result : Result String (Option StoredRule))
      (store : r.State)
      → Mirrors m
      → laws.rows store ≡ laws.rows m.store ++ one_inserted result
      → ((row : StoredRule) → result ≡ ok (some row) → row.entry ≡ p.0)
      → Mirrors (finish_add env r m p (result, store)).1
  unfolding finish_add
  finish_add-Mirrors m p (err e) store h rows entry =
      rw rows (h ∙ sym (append-nil (laws.rows m.store)))
  finish_add-Mirrors m p (ok none) store h rows entry =
      rw rows (h ∙ sym (append-nil (laws.rows m.store)))
  finish_add-Mirrors m p (ok (some row)) store h rows entry =
      rw (rows, learned-append m.rules (active_rule p row.id ∷ []), h, ← entry row refl)

  -- Adding a rule keeps memory and repository alike, also when the repository fails.
  pub add_managed_rule-Mirrors :
      (m : RuleManager r) (entry : RuleEntry)
      → Mirrors m
      → Mirrors (add_managed_rule env r m entry).1
  unfolding add_managed_rule
  add_managed_rule-Mirrors m entry h = elim (Result-cases (prepare_rule_entry env entry)) [
    | inr (e, failed) ↦ rw (failed, add_managed_rule) h
    | inl (p, made) ↦
        rw (made, add_managed_rule)
          (elim (Bool-cases (has_entry p.0 m.rules)) [
            | inl old ↦ rw old h
            | inr new ↦ rw new (
                finish_add-Mirrors m p (r.insert m.store p.0).0 (r.insert m.store p.0).1 h
                  (laws.rows-insert m.store p.0) (laws.entry-insert m.store p.0))
          ])
  ]

  finish_import-Mirrors :
      (m : RuleManager r) (p : List (RuleEntry × Rule)) (result : Result String (List StoredRule))
      (store : r.State)
      → Mirrors m
      → laws.rows store ≡ appended (laws.rows m.store) result
      → ((l : List StoredRule)
          → result ≡ ok l
          → All (λ row. Memᴰ row.entry (new_entries p m.rules)) l)
      → Mirrors (finish_import env r m p (result, store)).1
  unfolding finish_import
  finish_import-Mirrors m p (err e) store h rows within = rw rows h
  finish_import-Mirrors m p (ok l) store h rows within =
      rw (rows, ← h) (push_inserted-learned p m.rules l m.rules (within l refl))

  -- So does importing a batch.
  pub import_managed_rules-Mirrors :
      (m : RuleManager r) (entries : List RuleEntry)
      → Mirrors m
      → Mirrors (import_managed_rules env r m entries).1
  unfolding import_managed_rules
  import_managed_rules-Mirrors m entries h =
      elim (Result-cases (collect (prepare_rule_entry env) entries)) [
        | inr (e, failed) ↦ rw (failed, import_managed_rules) h
        | inl (p, made) ↦
            let es = new_entries p m.rules in
            rw (made, import_managed_rules)
              (finish_import-Mirrors m p (r.insert_many m.store es).0 (r.insert_many m.store es).1 h
                (laws.rows-insert_many m.store es) (laws.entries-insert_many m.store es))
      ]

  finish_edit-Mirrors :
      (m : RuleManager r) (id : ℕ) (p : RuleEntry × Rule) (result : Result String (Unit {0}))
      (store : r.State)
      → Mirrors m
      → laws.rows store
        ≡ if_done result (replace_row id p.0 (laws.rows m.store)) (laws.rows m.store)
      → Mirrors (finish_edit env r m id p (result, store)).1
  unfolding finish_edit
  finish_edit-Mirrors m id p (err e) store h rows = rw rows h
  finish_edit-Mirrors m id p (ok u) store h rows =
      rw (rows, ← h) (learned-replace_learned id p.0 p.1 m.rules)

  edit_prepared-Mirrors :
      (m : RuleManager r) (id : ℕ) (p : RuleEntry × Rule)
      → Mirrors m
      → Mirrors (edit_prepared env r m id p).1
  unfolding edit_prepared
  edit_prepared-Mirrors m id p h =
      elim (Bool-cases (any (λ active. not (has_id id active) && active.entry == p.0) m.rules)) [
        | inl twin ↦ rw twin h
        | inr alone ↦ rw alone (
            finish_edit-Mirrors m id p (r.replace m.store id p.0).0 (r.replace m.store id p.0).1 h
              (laws.rows-replace m.store id p.0))
      ]

  -- So does an edit.
  pub edit_managed_rule-Mirrors :
      (m : RuleManager r) (id : ℕ) (action : Option RuleAction) (access : Option Access)
      (pin : RulePinUpdate)
      → Mirrors m
      → Mirrors (edit_managed_rule env r m id action access pin).1
  unfolding edit_managed_rule
  edit_managed_rule-Mirrors m id action access pin h =
      elim (Option-cases (find_learned id m.rules)) [
        | inl missing ↦ rw (missing, edit_managed_rule) h
        | inr (rule, found) ↦
            elim (Result-cases
              (prepare_rule_entry env (apply_rule_edit rule.entry action access pin))) [
                | inr (e, failed) ↦ rw (found, failed, edit_managed_rule) h
                | inl (p, made) ↦
                    rw (found, made, edit_managed_rule) (edit_prepared-Mirrors m id p h)
              ]
      ]

  finish_remove-Mirrors :
      (m : RuleManager r) (id : ℕ) (entry : RuleEntry) (result : Result String (Unit {0}))
      (store : r.State)
      → Mirrors m
      → laws.rows store ≡ if_done result (remove_row id (laws.rows m.store)) (laws.rows m.store)
      → Mirrors (finish_remove env r m id entry (result, store)).1
  unfolding finish_remove
  finish_remove-Mirrors m id entry (err e) store h rows = rw rows h
  finish_remove-Mirrors m id entry (ok u) store h rows =
      rw (rows, ← h) (learned-remove_learned id m.rules)

  -- So does a removal.
  pub remove_managed_rule-Mirrors :
      (m : RuleManager r) (id : ℕ) → Mirrors m → Mirrors (remove_managed_rule env r m id).1
  unfolding remove_managed_rule
  remove_managed_rule-Mirrors m id h = elim (Option-cases (find_learned id m.rules)) [
    | inl missing ↦ rw (missing, remove_managed_rule) h
    | inr (rule, found) ↦
        rw (found, remove_managed_rule)
          (finish_remove-Mirrors m id rule.entry (r.remove m.store id).0 (r.remove m.store id).1 h
            (laws.rows-remove m.store id))
  ]

  -- For a repository that keeps its laws, any sequence of calls, whatever each returns, takes a
  -- manager whose learned rules are the repository's rows, in order, to one of which this holds.
  pub serve_calls-Mirrors :
      (calls : List RuleCall) (m : RuleManager r) → Mirrors m → Mirrors (serve_calls env r m calls)
  unfolding serve_calls
  serve_calls-Mirrors [] m h = h
  serve_calls-Mirrors (add entry ∷ calls) m h =
      serve_calls-Mirrors calls (add_managed_rule env r m entry).1
        (add_managed_rule-Mirrors m entry h)
  serve_calls-Mirrors (import_rules entries ∷ calls) m h =
      serve_calls-Mirrors calls (import_managed_rules env r m entries).1
        (import_managed_rules-Mirrors m entries h)
  serve_calls-Mirrors (edit id action access pin ∷ calls) m h =
      serve_calls-Mirrors calls (edit_managed_rule env r m id action access pin).1
        (edit_managed_rule-Mirrors m id action access pin h)
  serve_calls-Mirrors (remove id ∷ calls) m h =
      serve_calls-Mirrors calls (remove_managed_rule env r m id).1
        (remove_managed_rule-Mirrors m id h)

-- ===== src/Policy/Engine/Persist.antt =====
-- A permanent answer takes effect: the rule that it adds matches the process that was asked for.
use mathlib.Core.List.{Memᴰ}
use mathlib.Core.Path.{subst}
use file_guard.Prelude.{
  ℕ, String, ◌≡◌, refl, sym, ap, ◌∙◌, ◌⊎◌, inl, inr, Bool, true, false, Option, none, some, List,
  [], ◌∷◌, ◌++◌, arith, Bool-cases, ◌==◌, ℕ_eq, Bytes_eq, Option_Bytes_eq, Bool_eq, All, Result, ok,
  err,
}
use file_guard.Policy.Rule.{Access_eq, Rule}
use file_guard.Policy.Entry.{RuleEntry, RuleEntry_eq, Environment, prepare_rule_entry}
use file_guard.Policy.Repository.{StoredRule, RuleRepository, IsRepository}
use file_guard.Policy.Manager.{
  ActiveRule, has_entry, RuleManager, active_rule, new, finish_add, add_prepared, add_managed_rule,
}
use file_guard.Policy.Entry.Normal.{prepare_rule_entry_idem}
use file_guard.Policy.Manager.Rows.{learned}
use file_guard.Policy.Manager.Compiled.{IsCompiled, AllCompiled}
use file_guard.Policy.Manager.Mirror.{Mirrors}

active_has_entry :
    (e : RuleEntry) (rules : List ActiveRule)
    → has_entry e rules ≡ true
    → (rule : ActiveRule) × Memᴰ rule rules × (rule.entry ≡ e)
unfolding has_entry
active_has_entry e [] h = cc
active_has_entry e (x ∷ xs) h = elim (Bool-cases (x.entry == e)) [
  | inl same ↦ (x, Memᴰ.head refl, (RuleEntry_eq.same_iff x.entry e).0 same)
  | inr other ↦
      let (rule, m, same) = active_has_entry e xs (rw other at h) in (rule, Memᴰ.tail m, same)
]

mem-last : (rules : List ActiveRule) (x : ActiveRule) → Memᴰ x (rules ++ (x ∷ []))
mem-last [] x = Memᴰ.head refl
mem-last (y ∷ rules) x = Memᴰ.tail (mem-last rules x)

All-mem :
    (P : ActiveRule → Type 0) (rules : List ActiveRule) (x : ActiveRule)
    → All P rules
    → Memᴰ x rules
    → P x
All-mem P [] x h m = elim m [ ]
All-mem P (y ∷ rules) x h (Memᴰ.head e) = rw e h.0
All-mem P (y ∷ rules) x h (Memᴰ.tail m) = All-mem P rules x h.1 m

true-ne-false : ¬ (true ≡ false)
true-ne-false e = cc

mem_row :
    (id : Option ℕ) (e : RuleEntry) (rest : List StoredRule) (row : StoredRule)
    → Memᴰ row (elim id [ none ↦ rest | some n ↦ record { id = n; entry = e } ∷ rest ])
    → (row.entry ≡ e) ⊎ Memᴰ row rest
mem_row none e rest row m = inr m
mem_row (some n) e rest row (Memᴰ.head same) = inl (ap (λ (x : StoredRule). x.entry) same)
mem_row (some n) e rest row (Memᴰ.tail m) = inr m

learned-mem :
    (rules : List ActiveRule) (row : StoredRule)
    → Memᴰ row (learned rules)
    → has_entry row.entry rules ≡ true
unfolding has_entry
learned-mem [] row m = elim m [ ]
learned-mem (x ∷ xs) row m = elim (mem_row x.learned_id x.entry (learned xs) row m) [
  | inl same ↦ rw ((RuleEntry_eq.same_iff x.entry row.entry).1 (sym same)) refl
  | inr rest ↦ ground (arith, learned-mem xs row rest)
]

module _ (env : Environment) (r : RuleRepository) (laws : IsRepository r) where
  finish_add-active :
      (m : RuleManager r) (p : RuleEntry × Rule) (result : Result String (Option StoredRule))
      (store : r.State) (b : Bool)
      → (finish_add env r m p (result, store)).0 ≡ ok b
      → ¬ (result ≡ ok none)
      → (rule : ActiveRule) × Memᴰ rule (finish_add env r m p (result, store)).1.rules
        × (rule.compiled ≡ p.1)
  unfolding finish_add
  finish_add-active m p (err e) store b h n = absurd (ground arith)
  finish_add-active m p (ok none) store b h n = absurd (n refl)
  finish_add-active m p (ok (some row)) store b h n =
      (active_rule p row.id, mem-last m.rules (active_rule p row.id), refl)

  -- The repository does not have an entry that memory lacks.
  known_to_both :
      (m : RuleManager r) (p : RuleEntry × Rule)
      → Mirrors env r laws m
      → has_entry p.0 m.rules ≡ false
      → ¬ ((r.insert m.store p.0).0 ≡ ok none)
  known_to_both m p mirror new refused =
      let (row, member, same) = laws.row-insert_none m.store p.0 refused in
      let known = learned-mem m.rules row (subst (λ rows. Memᴰ row rows) (sym mirror) member) in
      true-ne-false (sym (subst (λ e. has_entry e m.rules ≡ true) same known) ∙ new)

  -- When a manager that mirrors its repository and has compiled its rules adds an entry without an
  -- error, whether the entry is new or was there, a rule compiled from the prepared entry is
  -- active.
  pub added_is_active :
      (m : RuleManager r) (entry : RuleEntry) (p : RuleEntry × Rule) (b : Bool)
      → Mirrors env r laws m
      → AllCompiled env r m
      → prepare_rule_entry env entry ≡ ok p
      → (add_managed_rule env r m entry).0 ≡ ok b
      → (rule : ActiveRule) × Memᴰ rule (add_managed_rule env r m entry).1.rules
        × (rule.compiled ≡ p.1)
  unfolding add_managed_rule
  added_is_active m entry p b mirror compiled made h =
      let added : (add_prepared env r m p).0 ≡ ok b = rw (made, add_managed_rule) at h in
      rw (made, add_managed_rule)
        (elim (Bool-cases (has_entry p.0 m.rules)) [
          | inl old ↦
              let (rule, member, same) = active_has_entry p.0 m.rules old in
              let of_rule = All-mem (IsCompiled env) m.rules rule compiled member in
              let of_entry = prepare_rule_entry_idem env entry p.0 p.1 made in
              rw old (rule, member, ground (arith, of_rule, of_entry, same))
          | inr new ↦ rw new (
              finish_add-active m p (r.insert m.store p.0).0 (r.insert m.store p.0).1 b
                (rw new at added) (known_to_both m p mirror new))
        ])

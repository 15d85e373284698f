-- ===== src/Policy/Manager/Rows.antt =====
-- Lemmas on the rows that the active rules stand for.
use mathlib.Core.List.{append_assoc, append-nil, Memᴰ}
use file_guard.Prelude.{
  ℕ, ◌≡◌, refl, sym, ◌∙◌, ◌⊎◌, inl, inr, Bool, true, false, none, some, List, [], ◌∷◌, ◌++◌, arith,
  if◌then◌else◌, Bool-cases, ◌==◌, ℕ_eq, Bytes_eq, Option_Bytes_eq, Bool_eq, All,
}
use file_guard.Policy.Rule.{Access_eq, Rule}
use file_guard.Policy.Entry.{RuleEntry, RuleEntry_eq}
use file_guard.Policy.Repository.{StoredRule, replace_row, remove_row}
use file_guard.Policy.Manager.{
  ActiveRule, has_entry, replace_learned, remove_learned, active_rule, find_compiled, new_entries,
  push_inserted,
}

-- The rows that the learned rules stand for.
abbrev pub learned : List ActiveRule → List StoredRule
learned [] = []
learned (rule ∷ rules) = elim rule.learned_id [
  | none ↦ learned rules
  | some id ↦ record { id = id; entry = rule.entry } ∷ learned rules
]

pub learned-append : (xs ys : List ActiveRule) → learned (xs ++ ys) ≡ learned xs ++ learned ys
learned-append [] ys = refl
learned-append (x ∷ xs) ys = ground (arith, learned-append xs ys)

pub learned-replace_learned :
    (id : ℕ) (e : RuleEntry) (c : Rule) (rules : List ActiveRule)
    → learned (replace_learned id e c rules) ≡ replace_row id e (learned rules)
unfolding replace_learned
learned-replace_learned id e c [] = refl
learned-replace_learned id e c (x ∷ xs) = ground (arith, learned-replace_learned id e c xs)

pub learned-remove_learned :
    (id : ℕ) (rules : List ActiveRule)
    → learned (remove_learned id rules) ≡ remove_row id (learned rules)
unfolding remove_learned
learned-remove_learned id [] = refl
learned-remove_learned id (x ∷ xs) = ground (arith, learned-remove_learned id xs)

true-ne-false : ¬ (true ≡ false)
true-ne-false e = cc

mem_if :
    {e x : RuleEntry} {l : List RuleEntry} (b : Bool)
    → Memᴰ e (if b then l else x ∷ l)
    → (e ≡ x) ⊎ Memᴰ e l
mem_if true m = inr m
mem_if false (Memᴰ.head p) = inl p
mem_if false (Memᴰ.tail m) = inr m

-- A new entry is one of the prepared entries.
find_compiled-mem :
    (prepared : List (RuleEntry × Rule)) (rules : List ActiveRule) (e : RuleEntry)
    → Memᴰ e (new_entries prepared rules)
    → (c : Rule) × (find_compiled e prepared ≡ some c)
unfolding new_entries find_compiled
find_compiled-mem [] rules e m = elim m [ ]
find_compiled-mem ((x, c) ∷ prepared) rules e m = elim (Bool-cases (x == e)) [
  | inl same ↦ (c, rw same)
  | inr other ↦ elim (mem_if (has_entry x rules) m) [
    | inl same ↦ absurd (true-ne-false (sym ((RuleEntry_eq.same_iff x e).1 (sym same)) ∙ other))
    | inr rest ↦ let (d, found) = find_compiled-mem prepared rules e rest in (d, rw other found)
  ]
]

pub push_inserted-learned :
    (prepared : List (RuleEntry × Rule)) (old : List ActiveRule) (rows : List StoredRule)
    (rules : List ActiveRule)
    → All (λ row. Memᴰ row.entry (new_entries prepared old)) rows
    → learned (push_inserted prepared rows rules).1 ≡ learned rules ++ rows
unfolding push_inserted
push_inserted-learned prepared old [] rules h = sym (append-nil (learned rules))
push_inserted-learned prepared old (row ∷ rows) rules h =
    let (c, found) = find_compiled-mem prepared old row.entry h.0 in
    let pushed = active_rule (row.entry, c) row.id in
    rw (found, push_inserted)
      (push_inserted-learned prepared old rows (rules ++ (pushed ∷ [])) h.1
        ∙ rw (learned-append rules (pushed ∷ [])) (append_assoc (learned rules) (row ∷ []) rows))

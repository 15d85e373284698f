-- ===== src/Policy/Repository/Memory.antt =====
-- `MemoryRuleStore` of src/rule_store.rs, and that it is a repository.
use mathlib.Core.Path.{subst}
use file_guard.Prelude.{
  ℕ, ◌+◌, String, ◌≡◌, refl, sym, inl, inr, Bool, true, false, ◌&&◌, Option, none, some, List, [],
  ◌∷◌, ◌++◌, arith, if◌then◌else◌, Bool-cases, ◌==◌, ◌!=◌, ℕ_eq, Bytes_eq, Option_Bytes_eq, Bool_eq,
  any, All, All-append, Result, ok, err, ok_inj,
}
use file_guard.Policy.Entry.{RuleEntry, RuleEntry_eq}
use file_guard.Policy.Repository.{
  StoredRule, RuleRepository, replace_row, remove_row, one_inserted, if_done, IsRepository,
}
use mathlib.Core.List.{append-nil, append_assoc, Memᴰ}

pub record MemoryRuleState : Type 0 where
  pub rules : List StoredRule
  pub next_id : ℕ

-- The loop of `insert_many`.
unfoldable pub insert_loop :
    List RuleEntry → MemoryRuleState → List StoredRule → List StoredRule × MemoryRuleState
insert_loop [] state inserted = (inserted, state)
insert_loop (entry ∷ entries) state inserted =
    let stored : StoredRule = record { id = state.next_id; entry = entry } in
    elim (any (λ row. row.entry == entry) state.rules) [
      | true ↦ insert_loop entries state inserted
      | false ↦
          insert_loop entries
            (record { rules = state.rules ++ (stored ∷ []); next_id = state.next_id + 1 })
            (inserted ++ (stored ∷ []))
    ]

unfoldable pub insert_many : MemoryRuleState → List RuleEntry → List StoredRule × MemoryRuleState
unfolding insert_loop
insert_many state entries = insert_loop entries state []

-- `Vec::pop`, its value.
unfoldable pub last : List StoredRule → Option StoredRule
last [] = none
last (row ∷ []) = some row
last (row ∷ next ∷ rows) = last (next ∷ rows)

unfoldable pub insert : MemoryRuleState → RuleEntry → Option StoredRule × MemoryRuleState
unfolding insert_many last
insert state entry = let (inserted, s) = insert_many state (entry ∷ []) in (last inserted, s)

unfoldable pub has_row : ℕ → List StoredRule → Bool
has_row id rows = any (λ row. row.id == id) rows

unfoldable pub replace :
    MemoryRuleState → ℕ → RuleEntry → Result String (Unit {0}) × MemoryRuleState
unfolding has_row
replace state id entry =
    if any (λ row. row.id != id && row.entry == entry) state.rules
    then (err "an identical rule already exists", state)
    else if has_row id state.rules
    then (ok tt, record state { rules = replace_row id entry state.rules })
    else (err "learned rule does not exist", state)

unfoldable pub remove : MemoryRuleState → ℕ → Result String (Unit {0}) × MemoryRuleState
unfolding has_row
remove state id =
    if has_row id state.rules
    then (ok tt, record state { rules = remove_row id state.rules })
    else (err "learned rule does not exist", state)

unfoldable pub memory : RuleRepository
unfolding insert insert_many replace remove
memory = record {
  State = MemoryRuleState;
  list = λ s. ok s.rules;
  insert = λ s e. let (row, s') = insert s e in (ok row, s');
  insert_many = λ s es. let (rows, s') = insert_many s es in (ok rows, s');
  replace = replace;
  remove = remove;
}

unfoldable pub new_memory : MemoryRuleState
new_memory = record { rules = []; next_id = 1 }

-- What the loop has inserted stands behind the rows that were there.
insert_loop-rows :
    (es : List RuleEntry) (s : MemoryRuleState) (before done : List StoredRule)
    → s.rules ≡ before ++ done
    → (insert_loop es s done).1.rules ≡ before ++ (insert_loop es s done).0
unfolding insert_loop
insert_loop-rows [] s before done h = h
insert_loop-rows (e ∷ es) s before done h =
    elim (Bool-cases (any (λ row. row.entry == e) s.rules)) [
      | inl old ↦ rw (old, insert_loop) (insert_loop-rows es s before done h)
      | inr new ↦
          rw (new, insert_loop)
            (insert_loop-rows es
              (record { rules = s.rules ++ (stored ∷ []); next_id = s.next_id + 1 }) before
              (done ++ (stored ∷ [])) (rw h (append_assoc before done (stored ∷ []))))
    ]
  where
    stored : StoredRule
    stored = record { id = s.next_id; entry = e }

-- What the loop inserts are given entries.
insert_loop-entries :
    (all_es es : List RuleEntry) (s : MemoryRuleState) (done : List StoredRule)
    → ((e : RuleEntry) → Memᴰ e es → Memᴰ e all_es)
    → All (λ row. Memᴰ row.entry all_es) done
    → All (λ row. Memᴰ row.entry all_es) (insert_loop es s done).0
unfolding insert_loop
insert_loop-entries all_es [] s done within h = h
insert_loop-entries all_es (e ∷ es) s done within h =
    elim (Bool-cases (any (λ row. row.entry == e) s.rules)) [
      | inl old ↦ rw (old, insert_loop) (insert_loop-entries all_es es s done later h)
      | inr new ↦
          rw (new, insert_loop)
            (insert_loop-entries all_es es
              (record { rules = s.rules ++ (stored ∷ []); next_id = s.next_id + 1 })
              (done ++ (stored ∷ [])) later
              (All-append (λ row. Memᴰ row.entry all_es) done (stored ∷ []) h
                (within e (Memᴰ.head refl), tt)))
    ]
  where
    stored : StoredRule
    stored = record { id = s.next_id; entry = e }

    later : (x : RuleEntry) → Memᴰ x es → Memᴰ x all_es
    later x m = within x (Memᴰ.tail m)

insert_rows :
    (s : MemoryRuleState) (e : RuleEntry)
    → (insert s e).1.rules ≡ s.rules ++ one_inserted (ok (insert s e).0)
unfolding insert
insert_rows s e = ground (arith, append-nil s.rules)

insert_entry :
    (s : MemoryRuleState) (e : RuleEntry) (row : StoredRule)
    → (insert s e).0 ≡ some row
    → row.entry ≡ e
unfolding insert
insert_entry s e row h = ground arith

row_of_any :
    (rows : List StoredRule) (e : RuleEntry)
    → any (λ row. row.entry == e) rows ≡ true
    → (row : StoredRule) × Memᴰ row rows × (row.entry ≡ e)
row_of_any [] e h = cc
row_of_any (x ∷ xs) e h = elim (Bool-cases (x.entry == e)) [
  | inl same ↦ (x, Memᴰ.head refl, (RuleEntry_eq.same_iff x.entry e).0 same)
  | inr other ↦ let (row, m, same) = row_of_any xs e (rw other at h) in (row, Memᴰ.tail m, same)
]

insert_none :
    (s : MemoryRuleState) (e : RuleEntry)
    → (insert s e).0 ≡ none
    → (row : StoredRule) × Memᴰ row s.rules × (row.entry ≡ e)
unfolding insert
insert_none s e h = row_of_any s.rules e (ground arith)

replace_rows :
    (s : MemoryRuleState) (id : ℕ) (e : RuleEntry)
    → (replace s id e).1.rules ≡ if_done (replace s id e).0 (replace_row id e s.rules) s.rules
unfolding replace
replace_rows s id e = ground arith

remove_rows :
    (s : MemoryRuleState) (id : ℕ)
    → (remove s id).1.rules ≡ if_done (remove s id).0 (remove_row id s.rules) s.rules
unfolding remove
remove_rows s id = ground arith

-- The in-memory store keeps every law of a repository that the rule manager relies on.
pub memory-IsRepository : IsRepository memory
unfolding memory
memory-IsRepository = record {
  rows = λ s. s.rules;
  rows-list = λ s l h. cc;
  rows-insert = insert_rows;
  entry-insert = λ s e row h. insert_entry s e row (ok_inj h);
  row-insert_none = λ s e h. insert_none s e (ok_inj h);
  rows-insert_many = λ s es. insert_loop-rows es s s.rules [] (sym (append-nil s.rules));
  entries-insert_many = λ s es l h.
      subst (All (λ row. Memᴰ row.entry es)) (ok_inj h)
        (insert_loop-entries es es s [] (λ e m. m) tt);
  rows-replace = replace_rows;
  rows-remove = remove_rows;
}

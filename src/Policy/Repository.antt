-- ===== src/Policy/Repository.antt =====
-- `RuleRepository` of src/rule_store.rs: the trait as an interface, what the rule manager relies
-- on as laws, and the in-memory implementation of that file.
pub mod Memory
use mathlib.Core.List.{Memᴰ}
use file_guard.Prelude.{
  ℕ, ◌+◌, ◌-◌, String, ◌≡◌, Option, none, some, List, [], ◌∷◌, ◌++◌, if◌then◌else◌, ◌==◌, ℕ_eq,
  discrete_eq, Bytes_eq, Option_Bytes_eq, Bool_eq, All, Result, ok, err,
}
use file_guard.Policy.Entry.{RuleEntry, RuleEntry_eq}

pub record StoredRule : Type 0 where
  pub id : ℕ
  pub entry : RuleEntry

pub record RuleRepository : Type 1 where
  pub State : Type 0
  pub list : State → Result String (List StoredRule)
  pub insert : State → RuleEntry → Result String (Option StoredRule) × State
  pub insert_many : State → List RuleEntry → Result String (List StoredRule) × State
  pub replace : State → ℕ → RuleEntry → Result String (Unit {0}) × State
  pub remove : State → ℕ → Result String (Unit {0}) × State

-- The first row with an id, given another entry.
abbrev pub replace_row : ℕ → RuleEntry → List StoredRule → List StoredRule
replace_row id entry [] = []
replace_row id entry (row ∷ rows) =
    if row.id == id then record row { entry = entry } ∷ rows else row ∷ replace_row id entry rows

-- The rows without the first that has an id.
abbrev pub remove_row : ℕ → List StoredRule → List StoredRule
remove_row id [] = []
remove_row id (row ∷ rows) = if row.id == id then rows else row ∷ remove_row id rows

-- The rows after an insertion that returned `inserted`, or failed.
abbrev pub appended : List StoredRule → Result String (List StoredRule) → List StoredRule
appended rows (ok inserted) = rows ++ inserted
appended rows (err e) = rows

abbrev pub one_inserted : Result String (Option StoredRule) → List StoredRule
one_inserted (ok (some row)) = row ∷ []
one_inserted _ = []

abbrev pub if_done : Result String (Unit {0}) → List StoredRule → List StoredRule → List StoredRule
if_done (ok _) new old = new
if_done (err _) new old = old

-- The rows behind a state, and what each operation does to them; a failed one does nothing.
pub record IsRepository (r : RuleRepository) : Type 1 where
  pub rows : r.State → List StoredRule
  pub rows-list : (s : r.State) (l : List StoredRule) → r.list s ≡ ok l → l ≡ rows s
  pub rows-insert :
      (s : r.State) (e : RuleEntry)
      → rows (r.insert s e).1 ≡ rows s ++ one_inserted (r.insert s e).0
  pub entry-insert :
      (s : r.State) (e : RuleEntry) (row : StoredRule)
      → (r.insert s e).0 ≡ ok (some row)
      → row.entry ≡ e
  pub row-insert_none :
      (s : r.State) (e : RuleEntry)
      → (r.insert s e).0 ≡ ok none
      → (row : StoredRule) × Memᴰ row (rows s) × (row.entry ≡ e)
  pub rows-insert_many :
      (s : r.State) (es : List RuleEntry)
      → rows (r.insert_many s es).1 ≡ appended (rows s) (r.insert_many s es).0
  pub entries-insert_many :
      (s : r.State) (es : List RuleEntry) (l : List StoredRule)
      → (r.insert_many s es).0 ≡ ok l
      → All (λ row. Memᴰ row.entry es) l
  pub rows-replace :
      (s : r.State) (id : ℕ) (e : RuleEntry)
      → rows (r.replace s id e).1
        ≡ if_done (r.replace s id e).0 (replace_row id e (rows s)) (rows s)
  pub rows-remove :
      (s : r.State) (id : ℕ)
      → rows (r.remove s id).1 ≡ if_done (r.remove s id).0 (remove_row id (rows s)) (rows s)

-- ===== src/Transaction/Safety/Loading.antt =====
-- What the operations of src/transaction.rs start from, and an invariant of the store.
use file_guard.Prelude.{
  ◌≡◌, refl, ap, ◌∙◌, Option, none, some, ℕ_eq, Bytes_eq, Option_Bytes_eq, Bool_eq, ok,
}
use file_guard.Files.FilePath.{FilePath}
use file_guard.Record.{
  ObjectIdentity, UnmountNext, Lifecycle, captured, mount_intent, unmount_intent, SnapshotRecord,
  Entry, missing, present_entry, finalizing, Codec, Timestamp_eq, Option_ObjectIdentity_eq,
  ObjectIdentity_eq, RestoreOrigin_eq, Lifecycle_eq, OriginalState_eq, RecordVersion_eq,
  SnapshotRecord_eq, UnmountNext_eq,
}
use file_guard.Record.Edges.{Edge}
use file_guard.Transaction.System.{Effect, System, World, ◌>>=◌, ◌>>◌, give, stored_call}
use file_guard.Transaction.Commits.{transition, require_unblocked}
use file_guard.Transaction.Validation.{Xattrs_eq, require_installed_layout}
use file_guard.Transaction.Operations.{or_again, normalize_path, load_entry, present_record}
use file_guard.Transaction.Safety.Logic.{
  Invariant, Keeps, Anything, chain, give-Keeps, fail-Keeps, weaken, disk-Keeps,
}
use file_guard.Transaction.Safety.Commits.{Unblocked}
use file_guard.Transaction.Safety.Calls.{from_store-ok, transition-Keeps, require_unblocked-Keeps}
use file_guard.Transaction.Safety.Validation.{require_installed_layout-Keeps}
use file_guard.Transaction.Safety.Phases.{InPhase, moved-InPhase}
use file_guard.Transaction.Safety.Restore.{some_inj}

-- A snapshot in its capture phase has no placeholder.
unfoldable pub Loaded : Entry → Type 0
Loaded entry =
    (r : SnapshotRecord)
    → entry ≡ present_entry r
    → r.header.lifecycle ≡ captured
    → r.header.placeholder ≡ none

-- The same, of a record.
abbrev pub Sound : SnapshotRecord → Type 0
Sound r = r.header.lifecycle ≡ captured → r.header.placeholder ≡ none

abbrev pub Mounted : SnapshotRecord → Type 0
Mounted r = (detached : Option ObjectIdentity) × InPhase (mount_intent detached) r

abbrev pub Unmounting : UnmountNext → SnapshotRecord → Type 0
Unmounting next r = (detached : Option ObjectIdentity) × InPhase (unmount_intent next detached) r

-- What a round of a loop returns, when it returns something.
abbrev pub When {ℓ κ} : {A : Type ℓ} → (A → Type κ) → Option A → Type (ℓ ⊔ κ)
When {A = A} Q o = (a : A) → o ≡ some a → Q a

module _ {codec : Codec} {s : System} (inv : Invariant codec s) where
  pub normalize_path-Keeps : (given : FilePath) → Keeps inv (normalize_path codec s given) Anything
  unfolding normalize_path
  normalize_path-Keeps given = chain inv (disk-Keeps inv _) (λ resolved k. give-Keeps inv _ tt)

  pub load_entry-Keeps : (path : FilePath) → Keeps inv (load_entry codec s path) Loaded
  unfolding load_entry stored_call Loaded
  load_entry-Keeps path = record {
    run = λ w h. (
      inv.loads w.0 path h,
      λ entry k r e phase. inv.loads_bare w.0 path r h (from_store-ok _ k ∙ ap ok e) phase,
    );
  }

  pub again-Keeps :
      {A : Type 0} {Q : A → Type 0} {next : Effect (World s) A} (o : Option A)
      → When Q o
      → Keeps inv next Q
      → Keeps inv (or_again next o) Q
  unfolding or_again
  again-Keeps none q next = next
  again-Keeps (some a) q next = give-Keeps inv a (q a refl)

  pub none-Keeps : {A : Type 0} {Q : A → Type 0} → Keeps inv (give {A = Option A} none) (When Q)
  none-Keeps = give-Keeps inv none (λ a e. cc)

  pub some-Keeps : {A : Type 0} {Q : A → Type 0} (a : A) → Q a → Keeps inv (give (some a)) (When Q)
  some-Keeps {Q = Q} a q = give-Keeps inv (some a) (λ b e. rw (some_inj e) at q)

  pub present_record-Keeps :
      (entry : Entry) → Loaded entry → Keeps inv (present_record codec s entry) Sound
  unfolding present_record Loaded
  present_record-Keeps missing loaded = fail-Keeps inv _
  present_record-Keeps (finalizing marker) loaded = fail-Keeps inv _
  present_record-Keeps (present_entry r) loaded = give-Keeps inv r (loaded r refl)

  -- The operations on the loaded record start alike.
  pub on_record-Keeps :
      {A : Type 0} {Q : A → Type 0} (next : SnapshotRecord → Effect (World s) A) (path : FilePath)
      → ((r : SnapshotRecord) → Unblocked r → Keeps inv (next r) Q)
      → Keeps inv
          (load_entry codec s path >>= λ entry.
            present_record codec s entry >>= λ r. require_unblocked codec s r >> next r)
          Q
  on_record-Keeps next path next_Keeps = chain inv (load_entry-Keeps path) (λ entry loaded.
      chain inv (present_record-Keeps entry loaded)
        (λ r sound. chain inv (require_unblocked-Keeps inv r) (λ done free. next_Keeps r free)))

  pub moves-Keeps :
      (path : FilePath) (first : SnapshotRecord) (detached : Option ObjectIdentity)
      (lifecycle : Lifecycle)
      → Unblocked first
      → Edge first.header.lifecycle lifecycle
      → Keeps inv
          (require_installed_layout codec s path first detached >>= λ r.
            transition codec s r lifecycle)
          (InPhase lifecycle)
  moves-Keeps path first detached lifecycle free edge =
      chain inv (require_installed_layout-Keeps inv path first detached free) (λ r same.
        let free2 : Unblocked r = rw same free in
        weaken inv (transition-Keeps inv r lifecycle free2 (rw same edge))
          (λ next e. moved-InPhase codec r next lifecycle free2 e))

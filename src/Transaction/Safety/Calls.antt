-- ===== src/Transaction/Safety/Calls.antt =====
-- The calls of src/transaction.rs that commit, refuse or observe, and an invariant of the store.
use file_guard.Prelude.{
  String, ◌≡◌, refl, ap, Bool, true, false, not, some, ℕ_eq, Bytes, Bytes_eq, Option_Bytes_eq,
  Bool_eq, ok, err, ok_inj,
}
use file_guard.Process.{ascii}
use file_guard.Files.FilePath.{FilePath}
use file_guard.Record.{
  Lifecycle, SnapshotRecord, StoreResult, Codec, version, successor, Timestamp_eq,
  Option_ObjectIdentity_eq, ObjectIdentity_eq, RestoreOrigin_eq, Lifecycle_eq, OriginalState_eq,
  RecordVersion_eq, SnapshotRecord_eq, UnmountNext_eq,
}
use file_guard.Record.Structure.{is_some}
use file_guard.Record.Snapshot.{path_from_hex}
use file_guard.Record.Edges.{Edge}
use file_guard.Record.Successor.{eq_false_of_not}
use file_guard.Fuse.Commit.{Outcome, from_store}
use file_guard.Transaction.System.{Effect, System, World}
use file_guard.Transaction.Commits.{
  Layout, blocked, record_path, commit_successor, transition, conflict, agree, or_conflict,
  require_unblocked, resolve_bound_path, open_staging, look, settle_rename, rename,
}
use file_guard.Transaction.Safety.Logic.{
  Follows, Invariant, Keeps, Anything, chain, give-Keeps, fail-Keeps, weaken, attempt-Keeps,
  disk-Keeps, lift-Keeps, require-Keeps, stored-Keeps,
}
use file_guard.Transaction.Safety.Commits.{Unblocked, successor-Follows, blocked-Follows}

pub from_store-ok {ℓ} : {A : Type ℓ} (m : StoreResult A) {a : A} → from_store m ≡ ok a → m ≡ ok a
unfolding from_store
from_store-ok (ok x) h = ap ok (ok_inj h)
from_store-ok (err e) h = cc

module _ {codec : Codec} {s : System} (inv : Invariant codec s) where
  pub record_path-Keeps :
      (r : SnapshotRecord)
      → Keeps inv (record_path codec s r) (λ path. path_from_hex codec r.header.path_hex ≡ ok path)
  unfolding record_path
  record_path-Keeps r = weaken inv (lift-Keeps inv) (λ path h. from_store-ok _ h)

  pub commit_successor-Keeps :
      (current next : SnapshotRecord)
      → Follows current next
      → Keeps inv (commit_successor codec s current next) Anything
  unfolding commit_successor
  commit_successor-Keeps current next follows = chain inv (record_path-Keeps current) (λ path found.
      chain inv
        (stored-Keeps inv (λ kept. s.store.commit kept path (some (version current)) next)
          (λ kept h. inv.commits kept path current next found follows h))
        (λ committed done. give-Keeps inv _ tt))

  pub transition-Keeps :
      (r : SnapshotRecord) (lifecycle : Lifecycle)
      → Unblocked r
      → Edge r.header.lifecycle lifecycle
      → Keeps inv
          (transition codec s r lifecycle)
          (λ next. next ≡ successor codec r lifecycle r.contents)
  unfolding transition
  transition-Keeps r lifecycle unblocked edge = chain inv (record_path-Keeps r) (λ path found.
      chain inv
        (commit_successor-Keeps r (successor codec r lifecycle r.contents)
          (successor-Follows codec r unblocked lifecycle edge))
        (λ done k. give-Keeps inv _ refl))

  pub conflict-Keeps :
      {A : Type 0} {Q : A → Type 0} (r : SnapshotRecord) (reason : Bytes)
      → Unblocked r
      → Keeps inv (conflict codec s r reason) Q
  unfolding conflict
  conflict-Keeps r reason unblocked = chain inv (record_path-Keeps r) (λ path found.
      chain inv
        (attempt-Keeps inv (
          stored-Keeps inv
            (λ kept. s.store.commit kept path (some (version r)) (blocked codec r reason))
            (λ kept h.
              inv.commits kept path r (blocked codec r reason) found
                (blocked-Follows codec r unblocked reason) h)))
        (λ done k. fail-Keeps inv _))

  pub agree-Keeps :
      (b : Bool) (r : SnapshotRecord) (reason : String)
      → Unblocked r
      → Keeps inv (agree codec s b r reason) (λ done. b ≡ true)
  unfolding agree
  agree-Keeps true r reason unblocked = give-Keeps inv _ refl
  agree-Keeps false r reason unblocked = conflict-Keeps r (ascii reason) unblocked

  pub or_conflict-Keeps :
      {A : Type 0} (o : Outcome A) (r : SnapshotRecord) (reason : String)
      → Unblocked r
      → Keeps inv (or_conflict codec s o r reason) (λ a. o ≡ ok a)
  unfolding or_conflict
  or_conflict-Keeps (ok a) r reason unblocked = give-Keeps inv _ refl
  or_conflict-Keeps (err e) r reason unblocked = conflict-Keeps r _ unblocked

  pub require_unblocked-Keeps :
      (r : SnapshotRecord) → Keeps inv (require_unblocked codec s r) (λ done. Unblocked r)
  unfolding require_unblocked
  require_unblocked-Keeps r =
      weaken inv (require-Keeps inv (not (is_some r.header.blocked_reason)) _)
        (λ done h. eq_false_of_not (is_some r.header.blocked_reason) h)

  pub resolve_bound_path-Keeps :
      (path : FilePath) (r : SnapshotRecord)
      → Keeps inv (resolve_bound_path codec s path r) Anything
  unfolding resolve_bound_path
  resolve_bound_path-Keeps path r = chain inv (disk-Keeps inv (s.open_path path)) (λ resolved k.
      chain inv (disk-Keeps inv (s.parent_identity resolved))
        (λ parent k2. chain inv (require-Keeps inv _ _) (λ done k3. give-Keeps inv _ tt)))

  pub open_staging-Keeps : (r : SnapshotRecord) → Keeps inv (open_staging codec s r) Anything
  unfolding open_staging
  open_staging-Keeps r = chain inv (lift-Keeps inv) (λ path k. disk-Keeps inv _)

  pub look-Keeps :
      (resolved : s.ResolvedPath) (staging : s.StagingArea) (name : Bytes)
      → Keeps inv (look codec s resolved staging name) Anything
  unfolding look
  look-Keeps resolved staging name =
      chain inv (disk-Keeps inv _)
        (λ target k. chain inv (disk-Keeps inv _) (λ staged k2. give-Keeps inv _ tt))

  settle_rename-Keeps :
      (done : Outcome (Unit {0})) (settled : Bool) (observed : Layout)
      → Keeps inv (settle_rename codec s done settled observed) Anything
  unfolding settle_rename
  settle_rename-Keeps (err e) false observed = fail-Keeps inv _
  settle_rename-Keeps (err e) true observed = give-Keeps inv _ tt
  settle_rename-Keeps (ok done) settled observed = give-Keeps inv _ tt

  pub rename-Keeps :
      (operation : Effect s.Disk (Unit {0})) (again : Effect (World s) Layout)
      (settled : Layout → Bool)
      → Keeps inv again Anything
      → Keeps inv (rename codec s operation again settled) Anything
  unfolding rename
  rename-Keeps operation again settled looks =
      chain inv (attempt-Keeps inv (disk-Keeps inv operation)) (λ done k.
        chain inv looks (λ observed k2. settle_rename-Keeps done (settled observed) observed))

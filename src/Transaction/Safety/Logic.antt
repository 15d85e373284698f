-- ===== src/Transaction/Safety/Logic.antt =====
-- Invariants of the backing store, and the calls of src/transaction.rs that keep one.
use file_guard.Prelude.{
  String, ◌≡◌, refl, ◌∙◌, Bool, true, false, Option, none, some, if◌then◌else◌, ℕ_eq, Bytes_eq,
  Option_Bytes_eq, Bool_eq, length, ok, err, ok_inj,
}
use file_guard.Files.FilePath.{FilePath}
use file_guard.Record.{
  Lifecycle, captured, delete_intent, SnapshotRecord, FinalizationRecord, present_entry,
  StoreResult, Codec, next_revision, version, marker_version, Timestamp_eq,
  Option_ObjectIdentity_eq, ObjectIdentity_eq, RestoreOrigin_eq, Lifecycle_eq, OriginalState_eq,
  RecordVersion_eq, SnapshotRecord_eq, UnmountNext_eq,
}
use file_guard.Record.Snapshot.{path_from_hex}
use file_guard.Record.Structure.{is_some}
use file_guard.Record.Transition.{placeholder_kept, is_first_capture}
use file_guard.Record.Successor.{Accepted}
use file_guard.Fuse.Commit.{TransactionError, refused, Outcome}
use file_guard.Transaction.System.{
  Effect, System, World, onward, ◌>>=◌, give, fail, lift, attempt, require, expect, disk,
  stored_call,
}

-- A successor as `validate_successor` asks for one, the checks on its own fields aside.
pub record Follows (current next : SnapshotRecord) : Type 0 where
  pub accepted : Accepted (version current) current next
  pub placeholder : placeholder_kept current.header next.header ≡ true

unfoldable pub is_delete_intent : Lifecycle → Bool
is_delete_intent (delete_intent result) = true
is_delete_intent _ = false

-- A marker that takes the place of a snapshot.
pub record Finalizes (snapshot : SnapshotRecord) (marker : FinalizationRecord) : Type 0 where
  pub deleting : is_delete_intent snapshot.header.lifecycle ≡ true
  pub not_blocked : is_some snapshot.header.blocked_reason ≡ false
  pub same_path : marker.path_hex ≡ snapshot.header.path_hex
  pub same_generation : marker.generation ≡ snapshot.header.generation
  pub revision_step : marker.revision ≡ next_revision snapshot.header.revision
  pub same_presence : marker.logical_present ≡ snapshot.header.logical_present
  pub same_parent : marker.parent ≡ snapshot.header.parent
  pub same_staging : marker.staging_path_hex ≡ snapshot.header.staging_path_hex
  pub same_length : marker.content_length ≡ length snapshot.contents
  pub same_digest : marker.content_sha256 ≡ snapshot.header.content_sha256

-- What a store keeps through every call with a proper argument. A snapshot that it returns in the
-- capture phase has no placeholder, which its own checks on a row see to.
pub record Invariant (codec : Codec) (s : System) : Type 1 where
  pub holds : s.store.Contents → Type 0
  pub loads :
      (kept : s.store.Contents) (path : FilePath) → holds kept → holds (s.store.load kept path).1
  pub loads_bare :
      (kept : s.store.Contents) (path : FilePath) (r : SnapshotRecord)
      → holds kept
      → (s.store.load kept path).0 ≡ ok (present_entry r)
      → r.header.lifecycle ≡ captured
      → r.header.placeholder ≡ none
  pub captures :
      (kept : s.store.Contents) (path : FilePath) (first : SnapshotRecord)
      → is_first_capture first.header ≡ true
      → first.header.content_sha256 ≡ codec.sha256 first.contents
      → holds kept
      → holds (s.store.commit kept path none first).1
  pub commits :
      (kept : s.store.Contents) (path : FilePath) (current next : SnapshotRecord)
      → path_from_hex codec current.header.path_hex ≡ ok path
      → Follows current next
      → holds kept
      → holds (s.store.commit kept path (some (version current)) next).1
  pub marks :
      (kept : s.store.Contents) (path : FilePath) (snapshot : SnapshotRecord)
      (marker : FinalizationRecord)
      → path_from_hex codec snapshot.header.path_hex ≡ ok path
      → Finalizes snapshot marker
      → holds kept
      → holds (s.begin_finalization kept path (version snapshot) marker).1
  pub unmarks :
      (kept : s.store.Contents) (path : FilePath) (marker : FinalizationRecord)
      → holds kept
      → holds (s.finish_finalization kept path (marker_version marker)).1

-- Calls from a store where the invariant holds leave one where it does, and a result they return
-- is as described.
pub record Keeps {codec : Codec} {s : System} {A : Type 0} (inv : Invariant codec s)
    (m : Effect (World s) A) (Q : A → Type 0) : Type 0 where
  pub run : (w : World s) → inv.holds w.0 → inv.holds (m w).1.0 × ((a : A) → (m w).0 ≡ ok a → Q a)

abbrev pub Anything : {A : Type 0} → A → Type 0
Anything a = Unit {0}

module _ {codec : Codec} {s : System} (inv : Invariant codec s) where
  module _ {A B : Type 0} {Q : A → Type 0} {R : B → Type 0} where
    onward-Keeps :
        (f : A → Effect (World s) B) (r : Outcome A × World s)
        → inv.holds r.1.0
        → ((a : A) → r.0 ≡ ok a → Q a)
        → ((a : A) → Q a → Keeps inv (f a) R)
        → inv.holds (onward f r).1.0 × ((b : B) → (onward f r).0 ≡ ok b → R b)
    unfolding onward
    onward-Keeps f (ok a, w) h q next = (next a (q a refl)).run w h
    onward-Keeps f (err e, w) h q next = (h, λ b k. cc)

    pub chain :
        {m : Effect (World s) A} {f : A → Effect (World s) B}
        → Keeps inv m Q
        → ((a : A) → Q a → Keeps inv (f a) R)
        → Keeps inv (m >>= f) R
    unfolding ◌>>=◌
    chain {m} {f} first next = record {
      run = λ w h. let r = first.run w h in onward-Keeps f (m w) r.0 r.1 next;
    }

  module _ {A : Type 0} {Q : A → Type 0} where
    pub give-Keeps : (a : A) → Q a → Keeps inv (give a) Q
    unfolding give
    give-Keeps a q = record { run = λ w h. (h, λ b k. rw (ok_inj k) at q) }

    pub fail-Keeps : (e : TransactionError) → Keeps inv (fail e) Q
    unfolding fail
    fail-Keeps e = record { run = λ w h. (h, λ b k. cc) }

    pub weaken :
        {R : A → Type 0} {m : Effect (World s) A}
        → Keeps inv m Q
        → ((a : A) → Q a → R a)
        → Keeps inv m R
    weaken first then_r = record {
      run = λ w h. let r = first.run w h in (r.0, λ a k. then_r a (r.1 a k));
    }

    pub attempt-Keeps :
        {m : Effect (World s) A}
        → Keeps inv m Q
        → Keeps inv (attempt m) (λ o. (a : A) → o ≡ ok a → Q a)
    unfolding attempt
    attempt-Keeps first = record {
      run = λ w h. let r = first.run w h in (r.0, λ o k a e. r.1 a (ok_inj k ∙ e));
    }

    pub if-Keeps :
        (b : Bool) {m n : Effect (World s) A}
        → (b ≡ true → Keeps inv m Q)
        → (b ≡ false → Keeps inv n Q)
        → Keeps inv (if b then m else n) Q
    if-Keeps true yes_case no_case = yes_case refl
    if-Keeps false yes_case no_case = no_case refl

  module _ {A : Type 0} where
    pub disk-Keeps : (call : Effect s.Disk A) → Keeps inv (disk s call) Anything
    unfolding disk
    disk-Keeps call = record { run = λ w h. (h, λ a k. tt) }

    pub lift-Keeps : {m : Outcome A} → Keeps inv (lift m) (λ a. m ≡ ok a)
    unfolding lift
    lift-Keeps = record { run = λ w h. (h, λ a k. k) }

    pub expect-Keeps :
        (o : Option A) (reason : String) → Keeps inv (expect o reason) (λ a. o ≡ some a)
    unfolding expect
    expect-Keeps none reason = fail-Keeps (refused reason)
    expect-Keeps (some a) reason = give-Keeps a refl

  pub require-Keeps : (b : Bool) (reason : String) → Keeps inv (require b reason) (λ done. b ≡ true)
  unfolding require
  require-Keeps true reason = give-Keeps tt refl
  require-Keeps false reason = fail-Keeps (refused reason)

  pub stored-Keeps :
      {A : Type 0} (call : s.store.Contents → StoreResult A × s.store.Contents)
      → ((kept : s.store.Contents) → inv.holds kept → inv.holds (call kept).1)
      → Keeps inv (stored_call s call) Anything
  unfolding stored_call
  stored-Keeps call keeps = record { run = λ w h. (keeps w.0 h, λ a k. tt) }

-- ===== src/Record/Successor.antt =====
-- What an accepted successor of a snapshot keeps: `validate_successor` of src/store/record.rs.
use file_guard.Prelude.{
  ◌≡◌, refl, ◌⊎◌, inl, inr, Bool, true, false, not, ◌&&◌, ◌||◌, some, if◌then◌else◌, Bool-cases,
  ◌==◌, ℕ_eq, eq_of_==, Bytes, Bytes_eq, Option_Bytes_eq, Bool_eq, ok, ensure, >>=-eq-ok,
  ensure-eq-ok,
}
use file_guard.Files.FilePath.{FilePath}
use file_guard.Record.{
  SnapshotRecord, RecordVersion, present_entry, StoreError, StoreResult, Codec, next_revision,
  version, Timestamp_eq, Option_ObjectIdentity_eq, ObjectIdentity_eq, RestoreOrigin_eq,
  Lifecycle_eq, OriginalState_eq, RecordVersion_eq, SnapshotRecord_eq,
}
use file_guard.Record.Structure.{is_some}
use file_guard.Record.Snapshot.{validate_snapshot}
use file_guard.Record.Transition.{
  lifecycle_transition_is_valid, same_capture, mounted_update, blocking, validate_progress,
  validate_successor_fields, validate_against, validate_successor,
}
use file_guard.Record.Edges.{
  SameCapture, and_split, same_capture-SameCapture, Edge, transition-Edge,
}

-- A step of the state machine.
pub record Progress (current next : SnapshotRecord) : Type 0 where
  pub unblocked : is_some next.header.blocked_reason ≡ false
  pub edge : Edge current.header.lifecycle next.header.lifecycle
  pub contents_kept :
      (current.contents ≡ next.contents)
      ⊎ (mounted_update current.header.lifecycle next.header.lifecycle ≡ true)
  pub presence_kept :
      (current.header.logical_present ≡ next.header.logical_present)
      ⊎ ((mounted_update current.header.lifecycle next.header.lifecycle ≡ true)
          × (current.header.logical_present ≡ false)
          × (next.header.logical_present ≡ true))

-- A step that only marks the record for manual recovery.
pub record Blocks (current next : SnapshotRecord) : Type 0 where
  pub blocked : is_some next.header.blocked_reason ≡ true
  pub same_lifecycle : current.header.lifecycle ≡ next.header.lifecycle
  pub same_presence : current.header.logical_present ≡ next.header.logical_present
  pub same_contents : current.contents ≡ next.contents

or_split : (a b : Bool) → (a || b) ≡ true → (a ≡ true) ⊎ (b ≡ true)
or_split true b h = inl refl
or_split false b h = inr h

pub eq_false_of_not : (a : Bool) → not a ≡ true → a ≡ false
eq_false_of_not true h = cc
eq_false_of_not false h = refl

blocking-Blocks :
    (current next : SnapshotRecord) → blocking current next ≡ true → Blocks current next
unfolding blocking
blocking-Blocks current next h =
    let s4 = and_split _ (current.contents == next.contents) h in
    let s3 = and_split _ (current.header.logical_present == next.header.logical_present) s4.0 in
    let s2 = and_split _ (current.header.lifecycle == next.header.lifecycle) s3.0 in
    let s1 =
      and_split (is_some next.header.blocked_reason) (not (is_some current.header.blocked_reason))
        s2.0 in
    record {
      blocked = s1.0;
      same_lifecycle = eq_of_== current.header.lifecycle next.header.lifecycle s2.1;
      same_presence = eq_of_== current.header.logical_present next.header.logical_present s3.1;
      same_contents = eq_of_== current.contents next.contents s4.1;
    }

contents_lem :
    (a b : Bytes) (updates : Bool) → (a == b || updates) ≡ true → (a ≡ b) ⊎ (updates ≡ true)
contents_lem a b updates h = elim (or_split (a == b) updates h) [
  | inl e ↦ inl (eq_of_== a b e)
  | inr e ↦ inr e
]

presence_lem :
    (a b updates : Bool)
    → (a == b || (updates && not a && b)) ≡ true
    → (a ≡ b) ⊎ ((updates ≡ true) × (a ≡ false) × (b ≡ true))
presence_lem a b updates h = elim (or_split (a == b) (updates && not a && b) h) [
  | inl e ↦ inl (eq_of_== a b e)
  | inr e ↦
      let s2 = and_split (updates && not a) b e in
      let s1 = and_split updates (not a) s2.0 in inr (s1.0, eq_false_of_not a s1.1, s2.1)
]

validate_progress-Progress :
    (current next : SnapshotRecord) → validate_progress current next ≡ ok tt → Progress current next
unfolding validate_progress lifecycle_transition_is_valid
validate_progress-Progress current next h =
    let s1 = ensure-eq-ok (not (is_some next.header.blocked_reason)) _ _ h in
    let s2 = ensure-eq-ok _ _ _ s1.1 in
    let s3 = ensure-eq-ok _ _ _ s2.1 in
    let s4 = ensure-is_true _ _ s3.1 in
    record {
      unblocked = eq_false_of_not (is_some next.header.blocked_reason) s1.0;
      edge =
          transition-Edge current.header next.header current.header.lifecycle next.header.lifecycle
            s4;
      contents_kept = contents_lem current.contents next.contents _ s2.0;
      presence_kept =
          presence_lem current.header.logical_present next.header.logical_present _ s3.0;
    }
  where
    ensure-is_true : (b : Bool) (e : StoreError) → ensure b e ≡ ok tt → b ≡ true
    ensure-is_true true e k = refl
    ensure-is_true false e k = cc

-- What an accepted update of a present record keeps and changes.
pub record Accepted (expected : RecordVersion) (current next : SnapshotRecord) : Type 0 where
  pub same_version : version current ≡ expected
  pub revision_step : next.header.revision ≡ next_revision expected.revision
  pub not_blocked : is_some current.header.blocked_reason ≡ false
  pub same_capture_fields : SameCapture current.header next.header
  pub what : Blocks current next ⊎ Progress current next

-- An update that `validate_successor` accepts names the version of the current record, increments
-- the revision once, keeps every field fixed at capture, starts from a record that is not blocked,
-- and either only blocks it (same phase, presence and contents) or follows an edge of the state
-- machine, changing contents only in a mounted update, and presence only from absent to present in
-- one.
pub validate_successor-Accepted :
    (codec : Codec) (current_dir : StoreResult FilePath) (file_id : FilePath)
    (expected : RecordVersion) (current next : SnapshotRecord)
    → validate_successor codec current_dir file_id (some expected) (present_entry current) next
      ≡ ok tt
    → Accepted expected current next
unfolding validate_successor validate_against validate_successor_fields
validate_successor-Accepted codec current_dir file_id expected current next h =
    let s1 = >>=-eq-ok (validate_snapshot codec current_dir next) _ h in
    let s2 = ensure-eq-ok _ _ _ s1.2 in
    let s3 = ensure-eq-ok (version current == expected) _ _ s2.1 in
    let s4 = ensure-eq-ok _ _ _ s3.1 in
    let s5 = ensure-eq-ok (same_capture current.header next.header) _ _ s4.1 in
    let s6 = ensure-eq-ok _ _ _ s5.1 in
    let s7 = ensure-eq-ok (not (is_some current.header.blocked_reason)) _ _ s6.1 in
    let v =
      and_split (next.header.generation == expected.generation)
        (next.header.revision == next_revision expected.revision) s4.0 in
    record {
      same_version = eq_of_== (version current) expected s3.0;
      revision_step = eq_of_== next.header.revision (next_revision expected.revision) v.1;
      not_blocked = eq_false_of_not (is_some current.header.blocked_reason) s7.0;
      same_capture_fields = same_capture-SameCapture current.header next.header s5.0;
      what = kind (Bool-cases (blocking current next)) s7.1;
    }
  where
    kind :
        (blocking current next ≡ true) ⊎ (blocking current next ≡ false)
        → (if blocking current next then ok tt else validate_progress current next) ≡ ok tt
        → Blocks current next ⊎ Progress current next
    kind (inl e) k = inl (blocking-Blocks current next e)
    kind (inr e) k = inr (validate_progress-Progress current next (rw e at k))

-- ===== src/Transaction/Safety/Phases.antt =====
-- The phases that the operations of src/transaction.rs expect of a record.
use file_guard.Prelude.{
  ◌≡◌, sym, ap, ◌∙◌, true, Option, none, some, ℕ_eq, Bytes_eq, Option_Bytes_eq, Bool_eq,
}
use file_guard.Record.{
  ObjectIdentity, OriginalState, present, absent, Lifecycle, captured, installed, SnapshotRecord,
  Codec, successor, Timestamp_eq, Option_ObjectIdentity_eq, ObjectIdentity_eq, RestoreOrigin_eq,
  Lifecycle_eq, OriginalState_eq, RecordVersion_eq, SnapshotRecord_eq, UnmountNext_eq,
}
use file_guard.Record.Checks.{identities_match_after_rename}
use file_guard.Record.Structure.{is_some}
use file_guard.Record.Edges.{and_split}
use file_guard.Transaction.Commits.{Layout, object_matches, layout_matches}
use file_guard.Transaction.Validation.{Xattrs_eq}
use file_guard.Transaction.Install.{install_after}
use file_guard.Transaction.Safety.Commits.{Unblocked, object_matches_eq}

-- A record in a phase, that the manager may still move on.
pub record InPhase (lifecycle : Lifecycle) (r : SnapshotRecord) : Type 0 where
  pub phase : r.header.lifecycle ≡ lifecycle
  pub unblocked : Unblocked r

-- A capture to install: no placeholder is bound.
pub record Bare (r : SnapshotRecord) : Type 0 where
  pub in_phase : InPhase captured r
  pub bare : r.header.placeholder ≡ none

abbrev pub Installed : SnapshotRecord → Type 0
Installed r = (detached : Option ObjectIdentity) × InPhase (installed detached) r

pub moved-InPhase :
    (codec : Codec) (r next : SnapshotRecord) (lifecycle : Lifecycle)
    → Unblocked r
    → next ≡ successor codec r lifecycle r.contents
    → InPhase lifecycle next
unfolding successor
moved-InPhase codec r next lifecycle unblocked e = record {
  phase = ap (λ n. n.header.lifecycle) e;
  unblocked = ap (λ n. is_some n.header.blocked_reason) e ∙ unblocked;
}

pub same-InPhase :
    {r next : SnapshotRecord} {lifecycle : Lifecycle}
    → InPhase lifecycle r
    → next ≡ r
    → InPhase lifecycle next
same-InPhase h e = rw e h

-- An observed layout after an installation shows the placeholder at the target.
pub install_after-matches :
    (original : OriginalState) (placeholder : ObjectIdentity) (observed : Layout)
    → layout_matches observed (install_after original placeholder) true ≡ true
    → identities_match_after_rename (some placeholder) observed.0 ≡ true
unfolding layout_matches install_after
install_after-matches (present identity m) placeholder observed h =
    sym (object_matches_eq observed.0 (some placeholder))
    ∙ (and_split (object_matches observed.0 (some placeholder) true) _ h).0
install_after-matches (absent presentation) placeholder observed h =
    sym (object_matches_eq observed.0 (some placeholder))
    ∙ (and_split (object_matches observed.0 (some placeholder) true) _ h).0

-- ===== src/Transaction/Safety/Commits.antt =====
-- The commits of src/transaction.rs: each follows the record that it names.
use file_guard.Prelude.{
  bit_and, ◌≡◌, refl, inl, inr, Bool, true, false, not, ◌&&◌, ◌||◌, Option, none, some, ◌==◌, ℕ_eq,
  ==_refl, eq_of_==, Bytes, Bytes_eq, Option_Bytes_eq, Bool_eq,
}
use file_guard.Record.{
  ObjectIdentity, Lifecycle, captured, install_intent, installed, SnapshotRecord, Codec, version,
  successor, Timestamp_eq, Option_ObjectIdentity_eq, ObjectIdentity_eq, RestoreOrigin_eq,
  Lifecycle_eq, OriginalState_eq, RecordVersion_eq, SnapshotRecord_eq, UnmountNext_eq,
}
use file_guard.Record.Checks.{s_ifmt, identities_match_after_rename}
use file_guard.Record.Structure.{is_some}
use file_guard.Record.Transition.{installs, plans_install, placeholder_kept}
use file_guard.Record.Edges.{Edge, plan_install, install}
use file_guard.Transaction.Commits.{
  same_object, same_file_after_rename, Layout, object_matches, blocked,
}
use file_guard.Transaction.Install.{installing_record, installed_record}
use file_guard.Transaction.Safety.Logic.{Follows}

-- A record that the manager may still move on.
abbrev pub Unblocked : SnapshotRecord → Type 0
Unblocked r = is_some r.header.blocked_reason ≡ false

pub or_left : (a b : Bool) → a ≡ true → (a || b) ≡ true
or_left true b h = refl
or_left false b h = cc

or_right : (a b : Bool) → b ≡ true → (a || b) ≡ true
or_right true b h = refl
or_right false b h = h

module _ (codec : Codec) (r : SnapshotRecord) (unblocked : Unblocked r) where
  -- A successor in another phase, with a placeholder.
  placed-Follows :
      (lifecycle : Lifecycle) (placeholder : Option ObjectIdentity)
      → Edge r.header.lifecycle lifecycle
      → placeholder_kept r.header
          (record r.header { lifecycle = lifecycle; placeholder = placeholder })
        ≡ true
      → Follows r (
          let next = successor codec r lifecycle r.contents in
          record next { header = record next.header { placeholder = placeholder } })
  unfolding successor version placeholder_kept
  placed-Follows lifecycle placeholder edge kept = record {
    accepted = record {
      same_version = refl;
      revision_step = refl;
      not_blocked = unblocked;
      same_capture_fields = record {
        same_path = refl;
        same_generation = refl;
        same_original = refl;
        same_parent = refl;
        same_staging = refl;
        same_swap = refl;
        same_stored = refl;
        same_token = refl;
      };
      what = inr (record {
        unblocked = unblocked;
        edge = edge;
        contents_kept = inl refl;
        presence_kept = inl refl;
      });
    };
    placeholder = kept;
  }

  pub successor-Follows :
      (lifecycle : Lifecycle)
      → Edge r.header.lifecycle lifecycle
      → Follows r (successor codec r lifecycle r.contents)
  unfolding successor placeholder_kept
  successor-Follows lifecycle edge =
      placed-Follows lifecycle r.header.placeholder edge
        (or_left _ _ (or_left _ _ (==_refl r.header.placeholder)))

  pub blocked-Follows : (reason : Bytes) → Follows r (blocked codec r reason)
  unfolding blocked successor version placeholder_kept is_some
  blocked-Follows reason = record {
    accepted = record {
      same_version = refl;
      revision_step = refl;
      not_blocked = unblocked;
      same_capture_fields = record {
        same_path = refl;
        same_generation = refl;
        same_original = refl;
        same_parent = refl;
        same_staging = refl;
        same_swap = refl;
        same_stored = refl;
        same_token = refl;
      };
      what = inl (record {
        blocked = refl;
        same_lifecycle = refl;
        same_presence = refl;
        same_contents = refl;
      });
    };
    placeholder = or_left _ _ (or_left _ _ (==_refl r.header.placeholder));
  }

  pub installing-Follows :
      (placeholder : ObjectIdentity)
      → r.header.lifecycle ≡ captured
      → r.header.placeholder ≡ none
      → Follows r (installing_record codec r placeholder)
  unfolding installing_record successor placeholder_kept plans_install is_some
  installing-Follows placeholder phase bare =
      placed-Follows install_intent (some placeholder) (rw phase plan_install) (
        let planned : (plans_install r.header.lifecycle install_intent
              && not (is_some r.header.placeholder)
              && true)
            ≡ true =
          rw (phase, bare) in
        or_right _ _ planned)

  pub installed-Follows :
      (observed : Layout)
      → r.header.lifecycle ≡ install_intent
      → identities_match_after_rename r.header.placeholder observed.0 ≡ true
      → Follows r (installed_record codec r observed)
  unfolding installed_record successor placeholder_kept installs
  installed-Follows observed phase same =
      placed-Follows (installed observed.1) observed.0 (rw phase (install observed.1)) (
        let bound : (installs r.header.lifecycle (installed observed.1)
              && identities_match_after_rename r.header.placeholder observed.0)
            ≡ true =
          rw phase same in
        or_left _ _ (or_right _ _ bound))

pub false_ne : ¬ (false ≡ true)
false_ne e = cc

-- The file type is part of the mode.
kind_is_implied :
    (d i kind m s l mode u g : Bool)
    → (mode ≡ true → kind ≡ true)
    → (d && i && kind && m && s && l && mode && u && g) ≡ (d && i && m && s && l && mode && u && g)
kind_is_implied false i kind m s l mode u g h = refl
kind_is_implied true false kind m s l mode u g h = refl
kind_is_implied true true true m s l mode u g h = refl
kind_is_implied true true false false s l mode u g h = refl
kind_is_implied true true false true false l mode u g h = refl
kind_is_implied true true false true true false mode u g h = refl
kind_is_implied true true false true true true false u g h = refl
kind_is_implied true true false true true true true u g h = absurd (false_ne (h refl))

-- The manager's test for the same file past a rename, which compares the file types too, is the
-- test that the store's records use, which does not: the modes are equal.
pub same_file_after_rename_eq :
    (left right : ObjectIdentity)
    → same_file_after_rename left right ≡ identities_match_after_rename (some left) (some right)
unfolding same_file_after_rename same_object identities_match_after_rename
same_file_after_rename_eq left right =
    kind_is_implied (left.device == right.device) (left.inode == right.inode) _
      (left.mtime == right.mtime) (left.size == right.size) (left.links == right.links)
      (left.mode == right.mode) (left.uid == right.uid) (left.gid == right.gid)
      (λ same.
        let e = eq_of_== left.mode right.mode same in rw e (==_refl (bit_and right.mode s_ifmt)))

-- An observed object that matches past a rename is the expected one for the store's records.
pub object_matches_eq :
    (actual expected : Option ObjectIdentity)
    → object_matches actual expected true ≡ identities_match_after_rename expected actual
unfolding object_matches identities_match_after_rename
object_matches_eq none none = refl
object_matches_eq (some a) (some e) = same_file_after_rename_eq e a
object_matches_eq none (some e) = refl
object_matches_eq (some a) none = refl

-- ===== src/Record/History.antt =====
-- The accepted revisions of a snapshot, one after another: src/store/record.rs.
use file_guard.Prelude.{
  ℕ, ◌+◌, ◌<◌, ◌≡◌, refl, sym, ap, ◌∙◌, ◌⊎◌, inl, inr, Bool, true, false, not, none, some, arith,
  ◌==◌, ℕ_eq, eq_of_==, Bytes_eq, Option_Bytes_eq, Bool_eq, ok, ensure, >>=-eq-ok, ensure-eq-ok,
}
use file_guard.Files.FilePath.{FilePath}
use file_guard.Record.{
  existed, Lifecycle, captured, install_intent, installed, mount_intent, unmount_intent,
  restore_intent, restored, delete_intent, store_intent, stored, RecordHeader, SnapshotRecord,
  missing, present_entry, StoreError, StoreResult, Codec, u64_mod, next_revision, version,
  Timestamp_eq, Option_ObjectIdentity_eq, ObjectIdentity_eq, RestoreOrigin_eq, Lifecycle_eq,
  OriginalState_eq, RecordVersion_eq, SnapshotRecord_eq,
}
use file_guard.Record.Structure.{is_some, is_installed_origin}
use file_guard.Record.Snapshot.{validate_snapshot}
use file_guard.Record.Transition.{
  mounted_update, is_first_capture, validate_against, validate_successor,
}
use file_guard.Record.Edges.{
  SameCapture, and_split, Edge, plan_install, plan_store, install, mount, give_up, update, unmount,
  leave, restore_idle, restore_unmounted, store, restore_stored, bind, complete, delete,
}
use file_guard.Record.Successor.{Progress, Blocks, validate_successor-Accepted}

module _ (codec : Codec) (current_dir : StoreResult FilePath) (file_id : FilePath) where
  -- The revisions that the store accepts for a path, from its first capture.
  pub data History : SnapshotRecord → SnapshotRecord → Type 0 where
    begun :
        (first : SnapshotRecord)
        → validate_successor codec current_dir file_id none missing first ≡ ok tt
        → History first first
    continued :
        (first current next : SnapshotRecord)
        → History first current
        → validate_successor codec current_dir file_id
            (some (version current))
            (present_entry current)
            next
          ≡ ok tt
        → History first next

  unfoldable pub updates_made : {first last : SnapshotRecord} → History first last → ℕ
  updates_made (begun first accepted) = 0
  updates_made (continued first current next history accepted) = updates_made history + 1

-- The phases in which the file is installed behind a mount or is restored from there.
unfoldable pub is_live : Lifecycle → Bool
is_live captured = false
is_live install_intent = false
is_live (installed detached) = true
is_live (mount_intent detached) = true
is_live (unmount_intent next detached) = true
is_live (store_intent name) = false
is_live (stored name detached) = false
is_live (restore_intent plan) = is_installed_origin plan.origin
is_live (restored result) = is_installed_origin result.origin
is_live (delete_intent result) = is_installed_origin result.origin

-- Nothing returns from a live phase to one that is not.
Edge-is_live : {a b : Lifecycle} → Edge a b → is_live b ≡ false → is_live a ≡ false
unfolding is_live is_installed_origin
Edge-is_live plan_install h = refl
Edge-is_live (plan_store name) h = refl
Edge-is_live (install d) h = refl
Edge-is_live (mount d e same) h = h
Edge-is_live (give_up d e same) h = h
Edge-is_live (update d e same) h = h
Edge-is_live (unmount next d e same) h = h
Edge-is_live (leave d e same) h = h
Edge-is_live (restore_idle d p origin same) h = ap is_installed_origin (sym origin) ∙ h
Edge-is_live (restore_unmounted d p origin same) h = ap is_installed_origin (sym origin) ∙ h
Edge-is_live (store m n d same) h = refl
Edge-is_live (restore_stored name d p origin same) h = refl
Edge-is_live (bind p q origin same) h = ap is_installed_origin origin ∙ h
Edge-is_live (complete p q origin same) h = ap is_installed_origin origin ∙ h
Edge-is_live (delete p q origin same) h = ap is_installed_origin origin ∙ h

mounted_update-is_live : (a b : Lifecycle) → mounted_update a b ≡ true → is_live b ≡ true
unfolding mounted_update is_live
mounted_update-is_live (mount_intent d) (mount_intent e) h = refl
mounted_update-is_live _ _ h = cc

SameCapture-refl : (h : RecordHeader) → SameCapture h h
SameCapture-refl h = record {
  same_path = refl;
  same_generation = refl;
  same_original = refl;
  same_parent = refl;
  same_staging = refl;
  same_swap = refl;
  same_stored = refl;
  same_token = refl;
}

SameCapture-trans : {a b c : RecordHeader} → SameCapture a b → SameCapture b c → SameCapture a c
SameCapture-trans p q = record {
  same_path = p.same_path ∙ q.same_path;
  same_generation = p.same_generation ∙ q.same_generation;
  same_original = p.same_original ∙ q.same_original;
  same_parent = p.same_parent ∙ q.same_parent;
  same_staging = p.same_staging ∙ q.same_staging;
  same_swap = p.same_swap ∙ q.same_swap;
  same_stored = p.same_stored ∙ q.same_stored;
  same_token = p.same_token ∙ q.same_token;
}

-- The contents and the presence of two records agree.
pub record SameFile (first last : SnapshotRecord) : Type 0 where
  pub contents_agree : first.contents ≡ last.contents
  pub presence_agree : first.header.logical_present ≡ last.header.logical_present

step_offline :
    (current next : SnapshotRecord)
    → Blocks current next ⊎ Progress current next
    → is_live next.header.lifecycle ≡ false
    → (is_live current.header.lifecycle ≡ false) × SameFile current next
step_offline current next (inl b) off = (
  ap is_live b.same_lifecycle ∙ off,
  record { contents_agree = b.same_contents; presence_agree = b.same_presence },
)
step_offline current next (inr p) off = (
  Edge-is_live p.edge off,
  record {
    contents_agree = elim p.contents_kept [
      | inl e ↦ e
      | inr m ↦ absurd (live_off (mounted_update-is_live _ _ m))
    ];
    presence_agree = elim p.presence_kept [
      | inl e ↦ e
      | inr m ↦ absurd (live_off (mounted_update-is_live _ _ m.0))
    ];
  },
)
  where
    live_off : ¬ (is_live next.header.lifecycle ≡ true)
    live_off on = cc

module _ (codec : Codec) (current_dir : StoreResult FilePath) (file_id : FilePath) where
  -- Along every history of accepted revisions, the path, the generation, the original, the parent,
  -- the staging path, the entry names and the mount token stay those of the first capture.
  pub History-SameCapture :
      (first last : SnapshotRecord)
      → History codec current_dir file_id first last
      → SameCapture first.header last.header
  History-SameCapture first last (begun r accepted) = SameCapture-refl r.header
  History-SameCapture first last (continued f current next history accepted) =
      let a =
        validate_successor-Accepted codec current_dir file_id (version current) current next
          accepted in
      SameCapture-trans (History-SameCapture f current history) a.same_capture_fields

  -- In a history of accepted revisions, a record that is captured, being installed, stored offline
  -- or being restored from there has the contents and the presence it was captured with.
  pub History-SameFile :
      (first last : SnapshotRecord)
      → History codec current_dir file_id first last
      → is_live last.header.lifecycle ≡ false
      → SameFile first last
  History-SameFile first last (begun r accepted) off = record {
    contents_agree = refl;
    presence_agree = refl;
  }
  History-SameFile first last (continued f current next history accepted) off =
      let a =
        validate_successor-Accepted codec current_dir file_id (version current) current next
          accepted in
      let s = step_offline current next a.what off in
      let before = History-SameFile f current history s.0 in
      record {
        contents_agree = before.contents_agree ∙ s.1.contents_agree;
        presence_agree = before.presence_agree ∙ s.1.presence_agree;
      }

  next_revision_small : (n : ℕ) → n + 1 < u64_mod → next_revision n ≡ n + 1
  unfolding next_revision
  next_revision_small n small = omega arith

  first_revision :
      (r : SnapshotRecord)
      → validate_successor codec current_dir file_id none missing r ≡ ok tt
      → r.header.revision ≡ 1
  unfolding validate_successor validate_against is_first_capture
  first_revision r h =
      let s1 = >>=-eq-ok (validate_snapshot codec current_dir r) _ h in
      let s2 = ensure-eq-ok _ _ _ s1.2 in
      let c5 = and_split _ (not (is_some r.header.blocked_reason)) (ensure_true _ _ s2.1) in
      let c4 = and_split _ (not (is_some r.header.placeholder)) c5.0 in
      let c3 = and_split _ (r.header.logical_present == existed r.header.original) c4.0 in
      let c2 = and_split (r.header.revision == 1) (r.header.lifecycle == captured) c3.0 in
      eq_of_== r.header.revision 1 c2.0
    where
      ensure_true : (b : Bool) (e : StoreError) → ensure b e ≡ ok tt → b ≡ true
      ensure_true true e k = refl
      ensure_true false e k = cc

  -- After `n` accepted updates of a first capture, with `n + 1` below 2 ^ 64, the revision is `n +
  -- 1`.
  pub History-revision :
      (first last : SnapshotRecord) (history : History codec current_dir file_id first last)
      → updates_made codec current_dir file_id history + 1 < u64_mod
      → last.header.revision ≡ updates_made codec current_dir file_id history + 1
  unfolding updates_made next_revision version
  History-revision first last (begun r accepted) small = first_revision r accepted
  History-revision first last (continued f current next history accepted) small =
      let a =
        validate_successor-Accepted codec current_dir file_id (version current) current next
          accepted in
      let before = History-revision f current history (omega arith) in
      a.revision_step ∙ ap next_revision before ∙ next_revision_small _ small

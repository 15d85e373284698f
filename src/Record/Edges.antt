-- ===== src/Record/Edges.antt =====
-- The transition table of src/store/record.rs as a relation.
use file_guard.Prelude.{
  ◌≡◌, refl, sym, Bool, true, false, ◌&&◌, Option, some, ◌==◌, ℕ_eq, eq_of_==, Bytes, Bytes_eq,
  Option_Bytes_eq, Bool_eq,
}
use file_guard.Record.{
  ObjectIdentity, from_installed, from_stored, UnmountNext, then_restore, leave_installed,
  RestorePlan, RestoreResult, Lifecycle, captured, install_intent, installed, mount_intent,
  unmount_intent, restore_intent, restored, delete_intent, store_intent, stored, RecordHeader,
  Timestamp_eq, Option_ObjectIdentity_eq, ObjectIdentity_eq, RestoreOrigin_eq, Lifecycle_eq,
  OriginalState_eq, RecordVersion_eq, SnapshotRecord_eq,
}
use file_guard.Record.Checks.{identities_match_after_rename}
use file_guard.Record.Structure.{restore_intent_matches_header}
use file_guard.Record.Transition.{
  binds_restoration, displaced_as_planned, completes_restoration, starts_restoration,
  starts_offline_restoration, same_result, transition, same_capture,
}

-- What is fixed at capture.
pub record SameCapture (current next : RecordHeader) : Type 0 where
  pub same_path : current.path_hex ≡ next.path_hex
  pub same_generation : current.generation ≡ next.generation
  pub same_original : current.original ≡ next.original
  pub same_parent : current.parent ≡ next.parent
  pub same_staging : current.staging_path_hex ≡ next.staging_path_hex
  pub same_swap : current.swap_name ≡ next.swap_name
  pub same_stored : current.stored_name ≡ next.stored_name
  pub same_token : current.mount_token ≡ next.mount_token

pub and_split : (a b : Bool) → (a && b) ≡ true → (a ≡ true) × (b ≡ true)
and_split true b h = (refl, h)
and_split false b h = cc

pub same_capture-SameCapture :
    (current next : RecordHeader) → same_capture current next ≡ true → SameCapture current next
unfolding same_capture
same_capture-SameCapture current next h =
    let p7 = and_split _ (current.mount_token == next.mount_token) h in
    let p6 = and_split _ (current.stored_name == next.stored_name) p7.0 in
    let p5 = and_split _ (current.swap_name == next.swap_name) p6.0 in
    let p4 = and_split _ (current.staging_path_hex == next.staging_path_hex) p5.0 in
    let p3 = and_split _ (current.parent == next.parent) p4.0 in
    let p2 = and_split _ (current.original == next.original) p3.0 in
    let p1 =
      and_split (current.path_hex == next.path_hex) (current.generation == next.generation) p2.0 in
    record {
      same_path = eq_of_== current.path_hex next.path_hex p1.0;
      same_generation = eq_of_== current.generation next.generation p1.1;
      same_original = eq_of_== current.original next.original p2.1;
      same_parent = eq_of_== current.parent next.parent p3.1;
      same_staging = eq_of_== current.staging_path_hex next.staging_path_hex p4.1;
      same_swap = eq_of_== current.swap_name next.swap_name p5.1;
      same_stored = eq_of_== current.stored_name next.stored_name p6.1;
      same_token = eq_of_== current.mount_token next.mount_token p7.1;
    }

-- The edges of the state machine.
pub data Edge : Lifecycle → Lifecycle → Type 0 where
  plan_install : Edge captured install_intent
  plan_store : (name : Bytes) → Edge captured (store_intent name)
  install : (d : Option ObjectIdentity) → Edge install_intent (installed d)
  mount : (d e : Option ObjectIdentity) → d ≡ e → Edge (installed d) (mount_intent e)
  give_up : (d e : Option ObjectIdentity) → d ≡ e → Edge (mount_intent d) (installed e)
  update : (d e : Option ObjectIdentity) → d ≡ e → Edge (mount_intent d) (mount_intent e)
  unmount :
      (next : UnmountNext) (d e : Option ObjectIdentity)
      → d ≡ e
      → Edge (mount_intent d) (unmount_intent next e)
  leave :
      (d e : Option ObjectIdentity) → d ≡ e → Edge (unmount_intent leave_installed d) (installed e)
  restore_idle :
      (d : Option ObjectIdentity) (p : RestorePlan)
      → p.origin ≡ from_installed
      → d ≡ p.detached_identity
      → Edge (installed d) (restore_intent p)
  restore_unmounted :
      (d : Option ObjectIdentity) (p : RestorePlan)
      → p.origin ≡ from_installed
      → d ≡ p.detached_identity
      → Edge (unmount_intent then_restore d) (restore_intent p)
  store : (m n : Bytes) (d : ObjectIdentity) → m ≡ n → Edge (store_intent m) (stored n d)
  restore_stored :
      (name : Bytes) (d : ObjectIdentity) (p : RestorePlan)
      → p.origin ≡ from_stored
      → p.detached_identity ≡ some d
      → Edge (stored name d) (restore_intent p)
  bind :
      (p q : RestorePlan)
      → p.origin ≡ q.origin
      → p.detached_identity ≡ q.detached_identity
      → Edge (restore_intent p) (restore_intent q)
  complete :
      (p : RestorePlan) (q : RestoreResult)
      → p.origin ≡ q.origin
      → p.detached_identity ≡ q.detached_identity
      → Edge (restore_intent p) (restored q)
  delete :
      (p q : RestoreResult)
      → p.origin ≡ q.origin
      → p.detached_identity ≡ q.detached_identity
      → Edge (restored p) (delete_intent q)

true-ne-false : ¬ (true ≡ false)
true-ne-false e = cc

starts_restoration_lem :
    (next : RecordHeader) (d : Option ObjectIdentity) (p : RestorePlan)
    → starts_restoration next d p ≡ true
    → (p.origin ≡ from_installed) × (d ≡ p.detached_identity)
unfolding starts_restoration
starts_restoration_lem next d p h =
    let s2 = and_split _ (restore_intent_matches_header next) h in
    let s1 = and_split (p.origin == from_installed) (d == p.detached_identity) s2.0 in
    (eq_of_== p.origin from_installed s1.0, eq_of_== d p.detached_identity s1.1)

starts_offline_restoration_lem :
    (next : RecordHeader) (n : Bytes) (d : ObjectIdentity) (p : RestorePlan)
    → starts_offline_restoration next n d p ≡ true
    → (p.origin ≡ from_stored) × (p.detached_identity ≡ some d)
unfolding starts_offline_restoration
starts_offline_restoration_lem next n d p h =
    let s3 = and_split _ (restore_intent_matches_header next) h in
    let s2 = and_split _ (p.detached_identity == some d) s3.0 in
    let s1 = and_split (p.origin == from_stored) (p.detached_name == some n) s2.0 in
    (eq_of_== p.origin from_stored s1.0, eq_of_== p.detached_identity (some d) s2.1)

binds_restoration_lem :
    (on : Bool) (p q : RestorePlan)
    → binds_restoration on p q ≡ true
    → (p.origin ≡ q.origin) × (p.detached_identity ≡ q.detached_identity)
unfolding binds_restoration
binds_restoration_lem on p q h =
    let s4 = and_split _ (p.detached_identity == q.detached_identity) h in
    let s3 = and_split _ (p.detached_name == q.detached_name) s4.0 in
    let s2 = and_split _ (p.restore_name == q.restore_name) s3.0 in
    let s1 = and_split _ (p.origin == q.origin) s2.0 in
    (eq_of_== p.origin q.origin s1.1, eq_of_== p.detached_identity q.detached_identity s4.1)

completes_restoration_lem :
    (p : RestorePlan) (q : RestoreResult)
    → completes_restoration p q ≡ true
    → (p.origin ≡ q.origin) × (p.detached_identity ≡ q.detached_identity)
unfolding completes_restoration
completes_restoration_lem p q h =
    let s4 = and_split _ (displaced_as_planned p.origin q.displaced_name p.restore_name) h in
    let s3 = and_split _ (p.detached_identity == q.detached_identity) s4.0 in
    let s2 = and_split _ (p.detached_name == q.detached_name) s3.0 in
    let s1 =
      and_split (p.origin == q.origin)
        (identities_match_after_rename p.restore_identity q.restored_identity) s2.0 in
    (eq_of_== p.origin q.origin s1.0, eq_of_== p.detached_identity q.detached_identity s3.1)

same_result_lem :
    (p q : RestoreResult)
    → same_result p q ≡ true
    → (p.origin ≡ q.origin) × (p.detached_identity ≡ q.detached_identity)
unfolding same_result
same_result_lem p q h =
    let s5 = and_split _ (p.detached_identity == q.detached_identity) h in
    let s4 = and_split _ (p.detached_name == q.detached_name) s5.0 in
    let s3 = and_split _ (p.displaced_identity == q.displaced_identity) s4.0 in
    let s2 = and_split _ (p.displaced_name == q.displaced_name) s3.0 in
    let s1 = and_split (p.origin == q.origin) (p.restored_identity == q.restored_identity) s2.0 in
    (eq_of_== p.origin q.origin s1.0, eq_of_== p.detached_identity q.detached_identity s5.1)

pub transition-Edge :
    (current next : RecordHeader) (a b : Lifecycle) → transition current next a b ≡ true → Edge a b
unfolding transition
transition-Edge current next captured install_intent h = plan_install
transition-Edge current next captured (store_intent name) h = plan_store name
transition-Edge current next install_intent (installed d) h = install d
transition-Edge current next (installed d) (mount_intent e) h = mount d e (eq_of_== d e h)
transition-Edge current next (mount_intent d) (installed e) h = give_up d e (eq_of_== d e h)
transition-Edge current next (mount_intent d) (mount_intent e) h = update d e (eq_of_== d e h)
transition-Edge current next (mount_intent d) (unmount_intent what e) h =
    unmount what d e (eq_of_== d e h)
transition-Edge current next (unmount_intent leave_installed d) (installed e) h =
    leave d e (eq_of_== d e h)
transition-Edge current next (installed d) (restore_intent p) h =
    let s = starts_restoration_lem next d p h in restore_idle d p s.0 s.1
transition-Edge current next (unmount_intent then_restore d) (restore_intent p) h =
    let s = starts_restoration_lem next d p h in restore_unmounted d p s.0 s.1
transition-Edge current next (store_intent m) (stored n d) h = store m n d (eq_of_== m n h)
transition-Edge current next (stored n d) (restore_intent p) h =
    let s = starts_offline_restoration_lem next n d p h in restore_stored n d p s.0 s.1
transition-Edge current next (restore_intent p) (restore_intent q) h =
    let s = binds_restoration_lem current.logical_present p q h in bind p q s.0 s.1
transition-Edge current next (restore_intent p) (restored q) h =
    let s = completes_restoration_lem p q h in complete p q s.0 s.1
transition-Edge current next (restored p) (delete_intent q) h =
    let s = same_result_lem p q h in delete p q s.0 s.1
transition-Edge current next _ _ h = absurd (true-ne-false (sym h))

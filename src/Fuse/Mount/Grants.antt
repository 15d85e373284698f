-- ===== src/Fuse/Mount/Grants.antt =====
-- Every handle of a mount was granted by the policy: src/fuse_fs/credential_fs.rs.
use file_guard.Prelude.{
  ℕ, ◌≡◌, refl, sym, ap, ◌∙◌, inl, inr, Bool, true, false, not, Option, none, some, List, [], ◌∷◌,
  arith, if◌then◌else◌, Bool-cases, Option-cases, ◌==◌, ◌!=◌, ℕ_eq, eq_of_==, Bytes, Bytes_eq,
  Option_Bytes_eq, Bool_eq, Result, ok, err, >>=-eq-ok, ensure-eq-ok, ok_inj,
}
use mathlib.Core.Path.{subst, subst⁻¹}
use file_guard.Files.FilePath.{FilePath}
use file_guard.Process.{ProcessInfo}
use file_guard.Policy.Rule.{read, write, Access_eq}
use file_guard.Policy.Entry.{RuleEntry_eq, Environment}
use file_guard.Policy.Repository.{RuleRepository}
use file_guard.Policy.Engine.{PolicyEngine, Wait}
use file_guard.Record.{
  Entry, missing, present_entry, finalizing, Codec, Timestamp_eq, Option_ObjectIdentity_eq,
  ObjectIdentity_eq, RestoreOrigin_eq, Lifecycle_eq, OriginalState_eq, RecordVersion_eq,
  SnapshotRecord_eq,
}
use file_guard.Record.Structure.{is_some}
use file_guard.Fuse.Content.{eacces}
use file_guard.Fuse.Commit.{BackingStore, Outcome, from_store, is_mount_intent}
use file_guard.Fuse.Shared.{
  OpenHandle, MutationError, find_handle, insert_handle, remove_handle, register_handle, may_write,
  may_read, apply_write, apply_truncate, truncate_on_open,
}
use file_guard.Fuse.Shared.Updates.{apply_write-ok, apply_write-Effect, apply_truncate-Effect}
use file_guard.Fuse.Mount.{
  Reply, Caller, decide_open, root_ino, error, bytes_read, Mount, mount_entry, new_mount, release,
  read_file, write_file, truncate_file, truncate_handle, finish_setattr, grant_handle,
  grant_truncated, finish_open,
}
use file_guard.Fuse.Mount.Runs.{
  Opening, Event, did_open, did_release, last_open, after_open, after_release, Run, mounted,
  elsewhere, wrote, closed, truncated, truncated_path, opens, Granted, HandleGranted,
  decide_open-Granted,
}

some_inj : {a b : OpenHandle} → ◌≡◌ {A = Option OpenHandle} (some a) (some b) → a ≡ b
some_inj k = cc

find_handle-insert_handle :
    (fh known : ℕ) (handle : OpenHandle) (handles : List (ℕ × OpenHandle))
    → find_handle fh (insert_handle known handle handles)
      ≡ (if known == fh then some handle else find_handle fh handles)
unfolding find_handle insert_handle
find_handle-insert_handle fh known handle [] = refl
find_handle-insert_handle fh known handle ((first, old) ∷ rest) =
    let later = find_handle-insert_handle fh known handle rest in
    elim (Bool-cases (first == known)) [
      | inl same ↦ let e = eq_of_== first known same in rw (same, ← e) (taken (first == fh))
      | inr other ↦ elim (Bool-cases (first == fh)) [
        | inr differs ↦ rw (other, differs) later
        | inl here ↦
            let e = eq_of_== first fh here in
            let elsewhere : (known == fh) ≡ false = ground arith in rw (other, here, elsewhere) refl
      ]
    ]
  where
    taken :
        (c : Bool)
        → (if c then some handle else find_handle fh rest)
          ≡ (if c then some handle else (if c then some old else find_handle fh rest))
    taken true = refl
    taken false = refl

find_handle-remove_handle :
    (fh known : ℕ) (handles : List (ℕ × OpenHandle))
    → find_handle fh (remove_handle known handles)
      ≡ (if known == fh then none else find_handle fh handles)
unfolding find_handle remove_handle
find_handle-remove_handle fh known [] = neither (known == fh)
  where
    neither : (c : Bool) → ◌≡◌ {A = Option OpenHandle} none (if c then none else none)
    neither true = refl
    neither false = refl
find_handle-remove_handle fh known ((first, old) ∷ rest) =
    let later = find_handle-remove_handle fh known rest in
    elim (Bool-cases (first == known)) [
      | inl same ↦
          let e = eq_of_== first known same in
          rw same (later ∙ gone (known == fh) (first == fh) (ap (λ x. x == fh) (sym e)))
      | inr other ↦ elim (Bool-cases (first == fh)) [
        | inr differs ↦ rw (other, differs) later
        | inl here ↦
            let e = eq_of_== first fh here in
            let elsewhere : (known == fh) ≡ false = ground arith in rw (other, here, elsewhere) refl
      ]
    ]
  where
    gone :
        (c d : Bool)
        → c ≡ d
        → (if c then none else find_handle fh rest)
          ≡ (if c then none else (if d then some old else find_handle fh rest))
    gone true d e = refl
    gone false false e = refl
    gone false true e = cc

module _ (r : RuleRepository) (watched : FilePath) (owner : ℕ) where
  -- Every handle of the table was granted to the open that it comes from.
  abbrev pub AllGranted : List (Event r) → List (ℕ × OpenHandle) → Type 0
  AllGranted log handles =
      (fh : ℕ) (handle : OpenHandle)
      → find_handle fh handles ≡ some handle
      → HandleGranted r watched owner log fh handle

  AllGranted-insert_handle :
      (opening : Opening r) (handle : OpenHandle) (log : List (Event r))
      (handles : List (ℕ × OpenHandle))
      → (handle.can_read ≡ true → Granted r watched owner opening read)
      → (handle.access ≡ write → Granted r watched owner opening write)
      → AllGranted log handles
      → AllGranted (did_open opening ∷ log) (insert_handle opening.fh handle handles)
  unfolding last_open
  AllGranted-insert_handle opening handle log handles reads writes all fh found h =
      let looked = sym (find_handle-insert_handle fh opening.fh handle handles) ∙ h in
      elim (Bool-cases (opening.fh == fh)) [
        | inl here ↦
            let same : handle ≡ found = some_inj (rw here at looked) in
            record {
              opening = opening;
              opened_last = rw here refl;
              reads_granted = λ k. reads (ap (λ x. x.can_read) same ∙ k);
              writes_granted = λ k. writes (ap (λ x. x.access) same ∙ k);
            }
        | inr other ↦
            let before = all fh found (rw other at looked) in
            record {
              opening = before.opening;
              opened_last = rw other before.opened_last;
              reads_granted = before.reads_granted;
              writes_granted = before.writes_granted;
            }
      ]

  AllGranted-remove_handle :
      (known : ℕ) (log : List (Event r)) (handles : List (ℕ × OpenHandle))
      → AllGranted log handles
      → AllGranted (did_release known ∷ log) (remove_handle known handles)
  unfolding last_open
  AllGranted-remove_handle known log handles all fh found h =
      let looked = sym (find_handle-remove_handle fh known handles) ∙ h in
      elim (Bool-cases (known == fh)) [
        | inl here ↦ absurd (none_some (rw here at looked))
        | inr other ↦
            let before = all fh found (rw other at looked) in
            record {
              opening = before.opening;
              opened_last = rw other before.opened_last;
              reads_granted = before.reads_granted;
              writes_granted = before.writes_granted;
            }
      ]
    where
      none_some : ¬ (◌≡◌ {A = Option OpenHandle} none (some found))
      none_some k = cc

module _ (codec : Codec) (r : RuleRepository) (b : BackingStore) (watched : FilePath)
    (owner : ℕ) where
  -- The handles of a mount were granted, for its file and its owner, as its log has them.
  pub record Sound (log : List (Event r)) (m : Mount r b) : Type 0 where
    pub same_path : m.watched_path ≡ watched
    pub same_owner : m.owner_uid ≡ owner
    pub granted : AllGranted r watched owner log m.shared.handles

  -- A step that keeps the path and the owner, and whose handles are granted.
  kept_by :
      {log log' : List (Event r)} (m m' : Mount r b)
      → m'.watched_path ≡ m.watched_path
      → m'.owner_uid ≡ m.owner_uid
      → AllGranted r watched owner log' m'.shared.handles
      → Sound log m
      → Sound log' m'
  kept_by m m' path uid handles s = record {
    same_path = path ∙ s.same_path;
    same_owner = uid ∙ s.same_owner;
    granted = handles;
  }

  same_handles_granted :
      {log : List (Event r)} (m : Mount r b) (handles : List (ℕ × OpenHandle))
      → handles ≡ m.shared.handles
      → Sound log m
      → AllGranted r watched owner log handles
  same_handles_granted {log = log} m handles e s =
      subst⁻¹ (AllGranted r watched owner log) e s.granted

  nothing : (fh : ℕ) (handle : OpenHandle) → ¬ (find_handle fh [] ≡ some handle)
  unfolding find_handle
  nothing fh handle k = cc

  mount_entry-Sound :
      (kept : b.Contents) (engine : PolicyEngine r) (entry : Entry) (m : Mount r b)
      → mount_entry r b watched kept engine entry ≡ ok m
      → m.owner_uid ≡ owner
      → Sound [] m
  unfolding mount_entry
  mount_entry-Sound kept engine missing m h uid = cc
  mount_entry-Sound kept engine (finalizing marker) m h uid = cc
  mount_entry-Sound kept engine (present_entry stored_record) m h uid =
      let s1 = ensure-eq-ok (not (is_some stored_record.header.blocked_reason)) _ _ h in
      let s2 = ensure-eq-ok (is_mount_intent stored_record.header.lifecycle) _ _ s1.1 in
      let e = ok_inj s2.1 in
      record {
        same_path = sym (ap (λ x. x.watched_path) e);
        same_owner = uid;
        granted =
            subst (λ x. AllGranted r watched owner [] x.shared.handles) e
              (λ fh handle found. absurd (nothing fh handle found));
      }

  new_mount-Sound :
      (resolved : Outcome FilePath) (kept : b.Contents) (engine : PolicyEngine r) (m : Mount r b)
      → new_mount r b watched resolved kept engine ≡ ok m
      → m.owner_uid ≡ owner
      → Sound [] m
  unfolding new_mount
  new_mount-Sound resolved kept engine m h uid =
      let s1 = >>=-eq-ok resolved _ h in
      let s2 = >>=-eq-ok (from_store (b.load kept s1.0).0) _ s1.2 in
      mount_entry-Sound (b.load kept s1.0).1 engine s2.0 m s2.2 uid

  write_file-Sound :
      {log : List (Event r)} (m : Mount r b) (ino fh offset : ℕ) (input : Bytes)
      → Sound log m
      → Sound log (write_file r b codec m ino fh offset input).0
  unfolding write_file
  write_file-Sound m ino fh offset input s = elim (Bool-cases (ino != root_ino)) [
    | inl other ↦
        let e : (write_file r b codec m ino fh offset input).0 ≡ m = rw other refl in
        subst⁻¹ (Sound _) e s
    | inr root ↦
        let a = apply_write codec b m.shared m.kept fh offset input in
        let e : (write_file r b codec m ino fh offset input).0
            ≡ record m { shared = a.1; kept = a.2 } =
          rw root refl in
        let effect = apply_write-Effect codec b m.shared m.kept fh offset input in
        subst⁻¹ (Sound _) e (
          kept_by m (record m { shared = a.1; kept = a.2 }) refl refl
            (same_handles_granted m a.1.handles effect.same_handles s) s)
  ]

  truncate_file-Sound :
      {log : List (Event r)} (m : Mount r b) (size : ℕ)
      → Sound log m
      → Sound log (truncate_file r b codec m size).0
  unfolding truncate_file
  truncate_file-Sound m size s =
      let a = apply_truncate codec b m.shared m.kept size in
      let effect = apply_truncate-Effect codec b m.shared m.kept size in
      kept_by m (record m { shared = a.1; kept = a.2 }) refl refl
        (same_handles_granted m a.1.handles effect.same_handles s) s

  truncate_handle-Sound :
      {log : List (Event r)} (m : Mount r b) (fh size : ℕ)
      → Sound log m
      → Sound log (truncate_handle r b codec m fh size).0
  unfolding truncate_handle
  truncate_handle-Sound m fh size s =
      elim (Bool-cases (may_write (find_handle fh m.shared.handles))) [
        | inl authorised ↦
            let e : truncate_handle r b codec m fh size ≡ truncate_file r b codec m size =
              rw authorised refl in
            subst⁻¹ (Sound _) (ap (λ x. x.0) e) (truncate_file-Sound m size s)
        | inr denied ↦
            let e : truncate_handle r b codec m fh size ≡ (m, error eacces) = rw denied refl in
            subst⁻¹ (Sound _) (ap (λ x. x.0) e) s
      ]

  finish_setattr-Sound :
      {log : List (Event r)} (m : Mount r b) (decided : Option ProcessInfo) (size : ℕ)
      → Sound log m
      → Sound log (finish_setattr r b codec m decided size).0
  unfolding finish_setattr
  finish_setattr-Sound m none size s = s
  finish_setattr-Sound m (some info) size s = truncate_file-Sound m size s

  release-Sound :
      {log : List (Event r)} (m : Mount r b) (ino fh : ℕ)
      → Sound log m
      → Sound (after_release r ino fh log) (release r b m ino fh).0
  unfolding release after_release
  release-Sound {log = log} m ino fh s = elim (Bool-cases (ino != root_ino)) [
    | inl other ↦ rw (other) s
    | inr root ↦ rw (root) (
        kept_by m
          (record m { shared = record m.shared { handles = remove_handle fh m.shared.handles } })
          refl refl (AllGranted-remove_handle r watched owner fh log m.shared.handles s.granted) s)
  ]

  -- An open that asked the policy, whatever handle it is given.
  module _ (env : Environment) (wait : Wait env r) (engine : PolicyEngine r) (caller : Caller)
      (nr nw : Bool) where
    abbrev at_handle : ℕ → Opening r
    at_handle fh = record {
      fh = fh;
      env = env;
      wait = wait;
      engine = engine;
      caller = caller;
      needs_read = nr;
      needs_write = nw;
    }

    -- The policy let it pass, for each direction that it needs.
    record Passed : Type 0 where
      pub reads : (fh : ℕ) → nr ≡ true → Granted r watched owner (at_handle fh) read
      pub writes : (fh : ℕ) → nw ≡ true → Granted r watched owner (at_handle fh) write

    SoundAfter : List (Event r) → Mount r b × Reply → Type 0
    SoundAfter log answer = Sound (after_open r answer.1 env wait engine caller nr nw log) answer.0

    writing : (w : Bool) → (if w then write else read) ≡ write → w ≡ true
    writing true e = refl
    writing false e = cc

    grant_handle-Sound :
        {log : List (Event r)} (m : Mount r b)
        → Passed
        → Sound log m
        → SoundAfter log (grant_handle r b codec m nr nw)
    unfolding grant_handle register_handle after_open SoundAfter
    grant_handle-Sound {log = log} m passed s =
        kept_by m (grant_handle r b codec m nr nw).0 refl refl
          (AllGranted-insert_handle r watched owner (at_handle m.shared.next_fh)
            (record { access = if nw then write else read; can_read = nr }) log m.shared.handles
            (passed.reads _) (λ w. passed.writes _ (writing nw w)) s.granted)
          s

    grant_truncated-Sound :
        {log : List (Event r)} (m : Mount r b) (result : Result MutationError (Unit {0}))
        → Passed
        → Sound log m
        → SoundAfter log (grant_truncated r b codec m result nr nw)
    unfolding grant_truncated after_open SoundAfter
    grant_truncated-Sound m (ok cut) passed s = grant_handle-Sound m passed s
    grant_truncated-Sound m (err e) passed s = s

    finish_open-Sound :
        {log : List (Event r)} (m : Mount r b) (decided : Option ProcessInfo) (truncates : Bool)
        → ((info : ProcessInfo) → decided ≡ some info → Passed)
        → Sound log m
        → SoundAfter log (finish_open r b codec m decided nr nw truncates)
    unfolding finish_open truncate_on_open after_open SoundAfter
    finish_open-Sound m none truncates passed s = s
    finish_open-Sound m (some info) false passed s = grant_handle-Sound m (passed info refl) s
    finish_open-Sound m (some info) true passed s =
        let a = truncate_on_open codec b m.shared m.kept in
        let effect = apply_truncate-Effect codec b m.shared m.kept 0 in
        grant_truncated-Sound (record m { shared = a.1; kept = a.2 }) a.0 (passed info refl)
          (kept_by m (record m { shared = a.1; kept = a.2 }) refl refl
            (same_handles_granted m a.1.handles effect.same_handles s) s)

    decided_passed :
        (info : ProcessInfo)
        → (decide_open r b env wait engine watched owner caller nr nw).0 ≡ some info
        → Passed
    decided_passed info e = record {
      reads = λ fh n.
          decide_open-Granted codec r b env wait engine watched owner caller nr nw info read fh e n;
      writes = λ fh n.
          decide_open-Granted codec r b env wait engine watched owner caller nr nw info write fh e
            n;
    }

  Run-Sound :
      (log : List (Event r)) (m : Mount r b) → Run codec r b watched owner log m → Sound log m
  unfolding SoundAfter
  Run-Sound _ _ (mounted resolved kept engine m h uid) =
      new_mount-Sound resolved kept engine m h uid
  Run-Sound _ _ (elsewhere log m kept engine run) =
      let s = Run-Sound log m run in
      kept_by m (record m { kept = kept; engine = engine }) refl refl s.granted s
  Run-Sound _ _ (wrote log m ino fh offset input run) =
      write_file-Sound m ino fh offset input (Run-Sound log m run)
  Run-Sound _ _ (closed log m ino fh run) = release-Sound m ino fh (Run-Sound log m run)
  Run-Sound _ _ (truncated log m fh size run) =
      truncate_handle-Sound m fh size (Run-Sound log m run)
  Run-Sound _ _ (truncated_path log m answer size run) =
      finish_setattr-Sound m answer size (Run-Sound log m run)
  Run-Sound _ _
        (opens log m env wait engine caller ino flags nr nw truncates answer run checked e) =
      subst (SoundAfter env wait engine caller nr nw log) e (
        finish_open-Sound env wait engine caller nr nw m _ truncates
          (decided_passed env wait engine caller nr nw) (Run-Sound log m run))

  -- In every state that a mount reaches, however its requests and decisions interleave, a read
  -- through a handle that returns bytes is one of a handle that the run opened and has not released
  -- since: the open that returned the handle last needed reading, and the policy, as that open asked
  -- it, allowed it to the owner or root, as an identified process.
  pub read_file-Granted :
      (log : List (Event r)) (m : Mount r b) (ino fh offset size : ℕ) (bytes : Bytes)
      → Run codec r b watched owner log m
      → read_file r b m ino fh offset size ≡ bytes_read bytes
      → (opening : Opening r) × (last_open r fh log ≡ some opening)
        × Granted r watched owner opening read
  unfolding read_file may_read
  read_file-Granted log m ino fh offset size bytes run h =
      elim (Option-cases (find_handle fh m.shared.handles)) [
        | inl unknown ↦ absurd (ground arith)
        | inr (handle, found) ↦
            let g = (Run-Sound log m run).granted fh handle found in
            (g.opening, g.opened_last, g.reads_granted (ground arith))
      ]

  -- In every state that a mount reaches, a write through a handle that is accepted is one of a handle
  -- that the run opened and has not released since: the open that returned the handle last needed
  -- writing, and the policy, as that open asked it, allowed it to the owner or root, as an
  -- identified process.
  pub apply_write-Granted :
      (log : List (Event r)) (m : Mount r b) (fh offset : ℕ) (input : Bytes) (n : ℕ)
      → Run codec r b watched owner log m
      → (apply_write codec b m.shared m.kept fh offset input).0 ≡ ok n
      → (opening : Opening r) × (last_open r fh log ≡ some opening)
        × Granted r watched owner opening write
  unfolding may_write
  apply_write-Granted log m fh offset input n run h =
      let a = apply_write-ok codec b m.shared m.kept fh offset input n h in
      elim (Option-cases (find_handle fh m.shared.handles)) [
        | inl unknown ↦ absurd (false_may (sym (ap may_write unknown) ∙ a.0))
        | inr (handle, found) ↦
            let g = (Run-Sound log m run).granted fh handle found in
            let writes = eq_of_== handle.access write (sym (ap may_write found) ∙ a.0) in
            (g.opening, g.opened_last, g.writes_granted writes)
      ]
    where
      false_may : ¬ (false ≡ true)
      false_may e = cc

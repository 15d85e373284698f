-- ===== src/Fuse/Commit.antt =====
-- `TransactionManager::update_contents` of src/transaction.rs, over the backing store that
-- src/store/mod.rs declares.
use file_guard.Prelude.{
  ◌+◌, ◌%◌, String, ◌≡◌, refl, sym, ap, ◌∙◌, inl, inr, Bool, true, false, not, Option, some, arith,
  if◌then◌else◌, Bool-cases, ◌==◌, ℕ_eq, eq_of_==, Bytes, Bytes_eq, Option_Bytes_eq, Bool_eq,
  Result, ok, err, Result-cases, ok_inj,
}
use mathlib.Core.Path.{subst⁻¹}
use file_guard.Files.FilePath.{FilePath}
use file_guard.Record.{
  Lifecycle, mount_intent, SnapshotRecord, RecordVersion, Entry, missing, present_entry, finalizing,
  StoreError, conflict, indeterminate, StoreResult, Codec, u64_mod, next_revision, version,
  successor, Timestamp_eq, Option_ObjectIdentity_eq, ObjectIdentity_eq, RestoreOrigin_eq,
  Lifecycle_eq, OriginalState_eq, RecordVersion_eq, SnapshotRecord_eq,
}
use file_guard.Record.Structure.{is_some}
use file_guard.Record.Snapshot.{path_from_hex}

-- The operations of `BackingStore` that a mounted file uses. The state is what the store keeps.
pub record BackingStore : Type 1 where
  pub Contents : Type 0
  pub load : Contents → FilePath → StoreResult Entry × Contents
  pub commit :
      Contents
      → FilePath
      → Option RecordVersion
      → SnapshotRecord
      → StoreResult RecordVersion × Contents

-- The errors that `anyhow` carries here.
pub data TransactionError : Type 0 where
  store_error : StoreError → TransactionError
  refused : String → TransactionError

abbrev pub Outcome {ℓ} : Type ℓ → Type ℓ
Outcome A = Result TransactionError A

unfoldable pub from_store {ℓ} : {A : Type ℓ} → StoreResult A → Outcome A
from_store (ok a) = ok a
from_store (err e) = err (store_error e)

unfoldable pub is_mount_intent : Lifecycle → Bool
is_mount_intent (mount_intent detached) = true
is_mount_intent _ = false

-- The record that replaces the current one.
unfoldable pub next_contents : Codec → SnapshotRecord → Bytes → SnapshotRecord
unfolding successor
next_contents codec current contents =
    let next = successor codec current current.header.lifecycle contents in
    record next { header = record next.header { logical_present = true } }

-- What a reload after an indeterminate commit shows.
unfoldable pub observe : SnapshotRecord → StoreResult Entry → Outcome SnapshotRecord
observe next (ok (present_entry observed)) =
    if observed == next
    then ok observed
    else err (store_error (indeterminate "reload did not observe the candidate revision"))
observe next (ok missing) =
    err (store_error (indeterminate "reload did not observe the candidate revision"))
observe next (ok (finalizing marker)) =
    err (store_error (indeterminate "reload did not observe the candidate revision"))
observe next (err e) = err (store_error (indeterminate "reload failed"))

module _ (codec : Codec) (b : BackingStore) where
  -- The `match` on the result of the commit.
  unfoldable pub settle_commit :
      FilePath
      → SnapshotRecord
      → StoreResult RecordVersion × b.Contents
      → Outcome SnapshotRecord × b.Contents
  unfolding observe
  settle_commit path next (ok committed, kept) = (
    if committed == version next
        then ok next
        else err (store_error (conflict "backing store returned the wrong committed revision")),
    kept,
  )
  settle_commit path next (err (indeterminate reason), kept) =
      let reload = b.load kept path in (observe next reload.0, reload.1)
  settle_commit path next (err e, kept) = (err (store_error e), kept)

  unfoldable pub update_contents :
      b.Contents → SnapshotRecord → Bytes → Outcome SnapshotRecord × b.Contents
  unfolding is_mount_intent next_contents settle_commit from_store
  update_contents kept current contents = elim (path_from_hex codec current.header.path_hex) [
    | err e ↦ (err (store_error e), kept)
    | ok path ↦
        let next = next_contents codec current contents in
        let done = settle_commit path next (b.commit kept path (some (version current)) next) in
        if is_some current.header.blocked_reason
        then (err (refused "transaction requires manual recovery"), kept)
        else if not (is_mount_intent current.header.lifecycle)
        then (err (refused "credential is no longer accepting mounted writes"), kept)
        else done
  ]

  observe-ok :
      (next done : SnapshotRecord) (reload : StoreResult Entry)
      → observe next reload ≡ ok done
      → done ≡ next
  unfolding observe
  observe-ok next done (ok (present_entry observed)) h = elim (Bool-cases (observed == next)) [
    | inl e ↦ sym (ok_inj (rw e at h)) ∙ eq_of_== observed next e
    | inr e ↦ absurd (not_ok (rw e at h))
  ]
    where
      not_ok : ¬ (
          ◌≡◌ {A = Outcome SnapshotRecord}
            (err (store_error (indeterminate "reload did not observe the candidate revision")))
            (ok done))
      not_ok k = cc
  observe-ok next done (ok missing) h = cc
  observe-ok next done (ok (finalizing marker)) h = cc
  observe-ok next done (err e) h = cc

  settle_commit-ok :
      (path : FilePath) (next done : SnapshotRecord)
      (result : StoreResult RecordVersion × b.Contents)
      → (settle_commit path next result).0 ≡ ok done
      → done ≡ next
  unfolding settle_commit
  settle_commit-ok path next done (ok committed, kept) h =
      elim (Bool-cases (committed == version next)) [
        | inl e ↦ sym (ok_inj (rw e at h))
        | inr e ↦ absurd (not_ok (rw e at h))
      ]
    where
      not_ok : ¬ (
          ◌≡◌ {A = Outcome SnapshotRecord}
            (err (store_error (conflict "backing store returned the wrong committed revision")))
            (ok done))
      not_ok k = cc
  settle_commit-ok path next done (err (indeterminate reason), kept) h =
      observe-ok next done (b.load kept path).0 h
  settle_commit-ok path next done (err e, kept) h = cc

  -- The store took the record as the next revision of the path: it committed it, or the outcome of
  -- the commit was uncertain and a reload showed exactly this record.
  pub data Stored (kept : b.Contents) (path : FilePath) (current next : SnapshotRecord)
      : b.Contents → Type 0 where
    commit_done :
        (after : b.Contents)
        → b.commit kept path (some (version current)) next ≡ (ok (version next), after)
        → Stored kept path current next after
    reload_showed :
        (reason : String) (between after : b.Contents)
        → b.commit kept path (some (version current)) next ≡ (err (indeterminate reason), between)
        → b.load between path ≡ (ok (present_entry next), after)
        → Stored kept path current next after

  observe_reload :
      (next done : SnapshotRecord) (reload : StoreResult Entry)
      → observe next reload ≡ ok done
      → reload ≡ ok (present_entry next)
  unfolding observe
  observe_reload next done (ok (present_entry observed)) h = elim (Bool-cases (observed == next)) [
    | inl e ↦ ap (λ x. ok (present_entry x)) (eq_of_== observed next e)
    | inr e ↦ absurd (not_ok (rw e at h))
  ]
    where
      not_ok : ¬ (
          ◌≡◌ {A = Outcome SnapshotRecord}
            (err (store_error (indeterminate "reload did not observe the candidate revision")))
            (ok done))
      not_ok k = cc
  observe_reload next done (ok missing) h = cc
  observe_reload next done (ok (finalizing marker)) h = cc
  observe_reload next done (err e) h = cc

  settle_commit-Stored :
      (kept : b.Contents) (path : FilePath) (current next done : SnapshotRecord)
      (result : StoreResult RecordVersion × b.Contents)
      → b.commit kept path (some (version current)) next ≡ result
      → (settle_commit path next result).0 ≡ ok done
      → Stored kept path current next (settle_commit path next result).1
  unfolding settle_commit
  settle_commit-Stored kept path current next done (ok v, after) e h =
      elim (Bool-cases (v == version next)) [
        | inl same ↦
            commit_done after (e ∙ ap (λ x. (ok x, after)) (eq_of_== v (version next) same))
        | inr other ↦ absurd (not_ok (rw other at h))
      ]
    where
      not_ok : ¬ (
          ◌≡◌ {A = Outcome SnapshotRecord}
            (err (store_error (conflict "backing store returned the wrong committed revision")))
            (ok done))
      not_ok k = cc
  settle_commit-Stored kept path current next done (err (indeterminate reason), between) e h =
      reload_showed reason between (b.load between path).1 e (
        ap (λ x. (x, (b.load between path).1)) (observe_reload next done (b.load between path).0 h))
  settle_commit-Stored kept path current next done (err other, after) e h = cc

  -- The same, by the successor that the source builds.
  pub update_contents-Stored :
      (kept : b.Contents) (current done : SnapshotRecord) (contents : Bytes)
      → (update_contents kept current contents).0 ≡ ok done
      → (done ≡ next_contents codec current contents)
        × (is_some current.header.blocked_reason ≡ false)
        × (is_mount_intent current.header.lifecycle ≡ true)
        × ((path : FilePath) × (path_from_hex codec current.header.path_hex ≡ ok path)
            × Stored kept path current
                (next_contents codec current contents)
                (update_contents kept current contents).1)
  unfolding update_contents
  update_contents-Stored kept current done contents h =
      elim (Result-cases (path_from_hex codec current.header.path_hex)) [
        | inr (e, failed) ↦ absurd (ground arith)
        | inl (path, found) ↦
            let next = next_contents codec current contents in
            let result = b.commit kept path (some (version current)) next in
            elim (Bool-cases (is_some current.header.blocked_reason)) [
              | inl blocked ↦ absurd (ground arith)
              | inr unblocked ↦ elim (Bool-cases (is_mount_intent current.header.lifecycle)) [
                | inr unmounted ↦ absurd (ground arith)
                | inl mounted ↦
                    let runs : update_contents kept current contents
                        ≡ settle_commit path next result =
                      rw (found, update_contents, unblocked, mounted) refl in
                    let ends = sym (ap (λ x. x.0) runs) ∙ h in
                    (
                      settle_commit-ok path next done result ends,
                      unblocked,
                      mounted,
                      (
                        path,
                        found,
                        subst⁻¹ (λ x. Stored kept path current next x.1) runs
                            (settle_commit-Stored kept path current next done result refl ends),
                      ),
                    )
              ]
            ]
      ]

  -- An update of the contents that succeeds returns the record it was given with the new contents
  -- and their digest, the next revision, and logically present; nothing else of the record changes.
  -- The record was not blocked and was mounted. The store, after the call, took the returned record
  -- as the next revision of the record's path: it committed it, or the outcome of the commit was
  -- uncertain and a reload showed exactly the returned record.
  pub update_contents-ok :
      (kept : b.Contents) (current done : SnapshotRecord) (contents : Bytes)
      → (update_contents kept current contents).0 ≡ ok done
      → (done ≡ record {
        header = record current.header {
          revision = (current.header.revision + 1) % u64_mod;
          content_sha256 = codec.sha256 contents;
          logical_present = true;
        };
        contents = contents;
      })
        × (is_some current.header.blocked_reason ≡ false)
        × (is_mount_intent current.header.lifecycle ≡ true)
        × ((path : FilePath) × (path_from_hex codec current.header.path_hex ≡ ok path)
            × Stored kept path current done (update_contents kept current contents).1)
  unfolding next_contents successor next_revision
  update_contents-ok kept current done contents h =
      let (same, unblocked, mounted, (path, found, stored_here)) =
        update_contents-Stored kept current done contents h in
      (
        same,
        unblocked,
        mounted,
        (
          path,
          found,
          subst⁻¹ (λ x. Stored kept path current x (update_contents kept current contents).1) same
              stored_here,
        ),
      )

-- ===== src/Fuse/Shared/Updates.antt =====
-- What a write and a truncation of the shared contents do: src/fuse_fs/credential_fs.rs.
use file_guard.Prelude.{
  ℕ, ◌+◌, ◌%◌, ◌^◌, ◌≤◌, ◌≡◌, refl, sym, ap, ◌∙◌, inl, inr, true, false, arith, ltb, Bool-cases,
  ℕ_eq, Bytes, Bytes_eq, Option_Bytes_eq, Bool_eq, length, ok, err, Result-cases, ok_inj,
}
use mathlib.Core.Path.{subst⁻¹}
use file_guard.Record.{
  SnapshotRecord, Codec, successor, Timestamp_eq, Option_ObjectIdentity_eq, ObjectIdentity_eq,
  RestoreOrigin_eq, Lifecycle_eq, OriginalState_eq, RecordVersion_eq, SnapshotRecord_eq,
}
use file_guard.Policy.Rule.{Access_eq}
use file_guard.Fuse.Content.{
  max_content_len, eacces, efbig, slice_content, checked_write_end, resize, written_contents,
}
use file_guard.Fuse.Content.Ranges.{
  checked_write_end-ok_iff, length-resize, length-written_contents, slice_content-written,
}
use file_guard.Fuse.Commit.{
  BackingStore, Outcome, next_contents, update_contents, update_contents-Stored,
}
use file_guard.Fuse.Shared.{
  Shared, MutationError, invalid, find_handle, may_write, replace_content, apply_write,
  apply_truncate,
}

module _ (codec : Codec) (b : BackingStore) where
  replace_content-ok {ℓ} :
      {A : Type ℓ} (done got : A) (shared : Shared) (o : Outcome SnapshotRecord × b.Contents)
      → (replace_content codec b done shared o).0 ≡ ok got
      → (got ≡ done)
        × (next : SnapshotRecord) × (o.0 ≡ ok next)
        × ((replace_content codec b done shared o).1 ≡ record shared { content = next })
  unfolding replace_content
  replace_content-ok done got shared (ok next, kept) h = (sym (ok_inj h), next, refl, refl)
  replace_content-ok done got shared (err e, kept) h = cc

  replace_content-err {ℓ} :
      {A : Type ℓ} (done : A) (shared : Shared) (o : Outcome SnapshotRecord × b.Contents)
      (e : MutationError)
      → (replace_content codec b done shared o).0 ≡ err e
      → (replace_content codec b done shared o).1 ≡ shared
  unfolding replace_content
  replace_content-err done shared (ok next, kept) e h = cc
  replace_content-err done shared (err f, kept) e h = refl

  whole : (offset n : ℕ) → offset + n ≤ max_content_len → n % 2 ^ 32 ≡ n
  whole offset n h = omega arith

  apply_write-run :
      (shared : Shared) (kept : b.Contents) (fh offset : ℕ) (input : Bytes)
      → may_write (find_handle fh shared.handles) ≡ true
      → offset + length input ≤ max_content_len
      → apply_write codec b shared kept fh offset input
        ≡ replace_content codec b (length input % 2 ^ 32) shared (
            update_contents codec b kept shared.content
              (written_contents offset (offset + length input) input shared.content.contents))
  unfolding apply_write
  apply_write-run shared kept fh offset input authorised fits =
      let given =
        (checked_write_end-ok_iff offset (length input) (offset + length input)).1 (fits, refl) in
      rw (authorised, given) refl

  -- A write that succeeds was made through a handle with write access and ends within 16 MiB. It
  -- reports the whole length of the data and leaves the successor of the current record, whose
  -- contents are the old ones with the data in their place, and the handles as they were.
  pub apply_write-ok :
      (shared : Shared) (kept : b.Contents) (fh offset : ℕ) (input : Bytes) (n : ℕ)
      → (apply_write codec b shared kept fh offset input).0 ≡ ok n
      → (may_write (find_handle fh shared.handles) ≡ true)
        × (offset + length input ≤ max_content_len)
        × (n ≡ length input)
        × ((apply_write codec b shared kept fh offset input).1 ≡ record shared {
          content =
              next_contents codec shared.content
                (written_contents offset (offset + length input) input shared.content.contents);
        })
  unfolding apply_write
  apply_write-ok shared kept fh offset input n h =
      elim (Bool-cases (may_write (find_handle fh shared.handles))) [
        | inr denied ↦ absurd (ground arith)
        | inl authorised ↦ elim (Result-cases (checked_write_end offset (length input))) [
          | inr (e, failed) ↦ absurd (ground arith)
          | inl (end, given) ↦
              let range = (checked_write_end-ok_iff offset (length input) end).0 given in
              let run = apply_write-run shared kept fh offset input authorised range.0 in
              let done =
                replace_content-ok (length input % 2 ^ 32) n shared
                  (update_contents codec b kept shared.content
                    (written_contents offset (offset + length input) input shared.content.contents))
                  (sym (ap (λ r. r.0) run) ∙ h) in
              let updated =
                update_contents-Stored codec b kept shared.content done.1
                  (written_contents offset (offset + length input) input shared.content.contents)
                  done.2 in
              (
                authorised,
                range.0,
                done.0 ∙ whole offset (length input) range.0,
                ap (λ r. r.1) run ∙ done.3 ∙ ap (λ c. record shared { content = c }) updated.0,
              )
        ]
      ]

  replace_content-committed {ℓ} :
      {A : Type ℓ} (done got : A) (shared : Shared) (o : Outcome SnapshotRecord × b.Contents)
      → (replace_content codec b done shared o).0 ≡ ok got
      → (next : SnapshotRecord) × (o ≡ (ok next, (replace_content codec b done shared o).2))
        × ((replace_content codec b done shared o).1 ≡ record shared { content = next })
  unfolding replace_content
  replace_content-committed done got shared (ok next, kept) h = (next, refl, refl)
  replace_content-committed done got shared (err e, kept) h = cc

  -- A write that succeeds is an update of the contents that succeeds, whose record it shares.
  pub apply_write-committed :
      (shared : Shared) (kept : b.Contents) (fh offset : ℕ) (input : Bytes) (n : ℕ)
      → (apply_write codec b shared kept fh offset input).0 ≡ ok n
      → (next : SnapshotRecord) × (update_contents codec b kept shared.content
            (written_contents offset (offset + length input) input shared.content.contents)
          ≡ (ok next, (apply_write codec b shared kept fh offset input).2))
        × ((apply_write codec b shared kept fh offset input).1 ≡ record shared { content = next })
  apply_write-committed shared kept fh offset input n h =
      let a = apply_write-ok shared kept fh offset input n h in
      let run = apply_write-run shared kept fh offset input a.0 a.1 in
      let o =
        update_contents codec b kept shared.content
          (written_contents offset (offset + length input) input shared.content.contents) in
      let (next, updates, shares) =
        replace_content-committed (length input % 2 ^ 32) n shared o
          (sym (ap (λ x. x.0) run) ∙ h) in
      (next, updates ∙ ap (λ x. (ok next, x.2)) (sym run), ap (λ x. x.1) run ∙ shares)

  -- After a write that succeeds, a read of the written range returns the data written.
  pub read_after_write :
      (shared : Shared) (kept : b.Contents) (fh offset : ℕ) (input : Bytes) (n : ℕ)
      → (apply_write codec b shared kept fh offset input).0 ≡ ok n
      → slice_content (apply_write codec b shared kept fh offset input).1.content.contents offset n
        ≡ input
  unfolding next_contents successor
  read_after_write shared kept fh offset input n h =
      let a = apply_write-ok shared kept fh offset input n h in
      ap (λ s. slice_content s.content.contents offset n) a.3
      ∙ ap (slice_content _ offset) a.2
      ∙ slice_content-written offset input shared.content.contents

  -- A truncation that succeeds was to at most 16 MiB, and leaves the successor of the current
  -- record with the contents cut, or filled up with zeros, to that size.
  pub apply_truncate-ok :
      (shared : Shared) (kept : b.Contents) (size : ℕ)
      → (apply_truncate codec b shared kept size).0 ≡ ok tt
      → (size ≤ max_content_len)
        × ((apply_truncate codec b shared kept size).1 ≡ record shared {
          content = next_contents codec shared.content (resize size shared.content.contents);
        })
  unfolding apply_truncate
  apply_truncate-ok shared kept size h = elim (Bool-cases (ltb max_content_len size)) [
    | inl large ↦ absurd (ground arith)
    | inr small ↦
        let o = update_contents codec b kept shared.content (resize size shared.content.contents) in
        let run : apply_truncate codec b shared kept size ≡ replace_content codec b tt shared o =
          rw small refl in
        let done = replace_content-ok tt tt shared o (sym (ap (λ r. r.0) run) ∙ h) in
        let updated =
          update_contents-Stored codec b kept shared.content done.1
            (resize size shared.content.contents) done.2 in
        (
          ground arith,
          ap (λ r. r.1) run ∙ done.3 ∙ ap (λ c. record shared { content = c }) updated.0,
        )
  ]

  -- A write that is refused or does not commit leaves what the handlers share as it was.
  pub apply_write-err :
      (shared : Shared) (kept : b.Contents) (fh offset : ℕ) (input : Bytes) (e : MutationError)
      → (apply_write codec b shared kept fh offset input).0 ≡ err e
      → (apply_write codec b shared kept fh offset input).1 ≡ shared
  unfolding apply_write
  apply_write-err shared kept fh offset input e h =
      elim (Bool-cases (may_write (find_handle fh shared.handles))) [
        | inr denied ↦ ground arith
        | inl authorised ↦ elim (Result-cases (checked_write_end offset (length input))) [
          | inr (f, failed) ↦ ground arith
          | inl (end, given) ↦
              let range = (checked_write_end-ok_iff offset (length input) end).0 given in
              let run = apply_write-run shared kept fh offset input authorised range.0 in
              ap (λ r. r.1) run
              ∙ replace_content-err (length input % 2 ^ 32) shared _ e (sym (ap (λ r. r.0) run) ∙ h)
        ]
      ]

  -- A write through a handle without write access changes neither the shared state nor the store.
  pub apply_write-denied :
      (shared : Shared) (kept : b.Contents) (fh offset : ℕ) (input : Bytes)
      → may_write (find_handle fh shared.handles) ≡ false
      → apply_write codec b shared kept fh offset input ≡ (err (invalid eacces), shared, kept)
  unfolding apply_write
  apply_write-denied shared kept fh offset input denied = rw denied refl

-- A mutation leaves the handles, and contents of at most 16 MiB stay so.
pub record Effect (before after : Shared) : Type 0 where
  pub same_handles : after.handles ≡ before.handles
  pub bounded :
      length before.content.contents ≤ max_content_len
      → length after.content.contents ≤ max_content_len

module _ (codec : Codec) (b : BackingStore) where
  unchanged : (before after : Shared) → after ≡ before → Effect before after
  unchanged before after e = record {
    same_handles = ap (λ s. s.handles) e;
    bounded = λ h. subst⁻¹ (λ s. length s.content.contents ≤ max_content_len) e h;
  }

  pub apply_write-Effect :
      (shared : Shared) (kept : b.Contents) (fh offset : ℕ) (input : Bytes)
      → Effect shared (apply_write codec b shared kept fh offset input).1
  unfolding next_contents successor
  apply_write-Effect shared kept fh offset input =
      elim (Result-cases (apply_write codec b shared kept fh offset input).0) [
        | inl (n, h) ↦
            let a = apply_write-ok codec b shared kept fh offset input n h in
            let size = length-written_contents offset input shared.content.contents in
            let range = a.1 in
            record {
              same_handles = ap (λ s. s.handles) a.3;
              bounded = λ small.
                  subst⁻¹ (λ s. length s.content.contents ≤ max_content_len) a.3 (omega arith);
            }
        | inr (e, h) ↦ unchanged shared _ (apply_write-err codec b shared kept fh offset input e h)
      ]

  apply_truncate-err :
      (shared : Shared) (kept : b.Contents) (size : ℕ) (e : MutationError)
      → (apply_truncate codec b shared kept size).0 ≡ err e
      → (apply_truncate codec b shared kept size).1 ≡ shared
  unfolding apply_truncate
  apply_truncate-err shared kept size e h = elim (Bool-cases (ltb max_content_len size)) [
    | inl large ↦ ap (λ r. r.1) (large_lem large)
    | inr small ↦
        let o = update_contents codec b kept shared.content (resize size shared.content.contents) in
        let run : apply_truncate codec b shared kept size ≡ replace_content codec b tt shared o =
          rw small refl in
        ap (λ r. r.1) run ∙ replace_content-err codec b tt shared o e (sym (ap (λ r. r.0) run) ∙ h)
  ]
    where
      large_lem :
          ltb max_content_len size ≡ true
          → apply_truncate codec b shared kept size ≡ (err (invalid efbig), shared, kept)
      large_lem large = rw large refl

  pub apply_truncate-Effect :
      (shared : Shared) (kept : b.Contents) (size : ℕ)
      → Effect shared (apply_truncate codec b shared kept size).1
  unfolding next_contents successor
  apply_truncate-Effect shared kept size =
      elim (Result-cases (apply_truncate codec b shared kept size).0) [
        | inl (u, h) ↦
            let a = apply_truncate-ok codec b shared kept size h in
            let range = a.0 in
            let cut = length-resize size shared.content.contents in
            record {
              same_handles = ap (λ s. s.handles) a.1;
              bounded = λ small.
                  subst⁻¹ (λ s. length s.content.contents ≤ max_content_len) a.1 (omega arith);
            }
        | inr (e, h) ↦ unchanged shared _ (apply_truncate-err shared kept size e h)
      ]

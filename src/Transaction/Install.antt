-- ===== src/Transaction/Install.antt =====
-- The capture of a file, its installation behind a placeholder and its storage offline:
-- `capture_record`, `begin_install`, `finish_install`, `capture_new`, `prepare_offline_staging` and
-- `finish_store` of src/transaction.rs.
use file_guard.Prelude.{
  Bool, true, false, not, ◌&&◌, Option, none, some, if◌then◌else◌, ℕ_eq, Bytes, Bytes_eq,
  Option_Bytes_eq, Bool_eq, ok, err,
}
use file_guard.Process.{ascii}
use file_guard.Files.FilePath.{FilePath}
use file_guard.Record.{
  format_version, RestoreMetadata, ObjectIdentity, OriginalState, present, absent, metadata,
  existed, Lifecycle, captured, install_intent, installed, store_intent, stored, SnapshotRecord,
  Codec, successor, Timestamp_eq, Option_ObjectIdentity_eq, ObjectIdentity_eq, RestoreOrigin_eq,
  Lifecycle_eq, OriginalState_eq, RecordVersion_eq, SnapshotRecord_eq,
}
use file_guard.Record.Snapshot.{path_from_hex, path_to_hex}
use file_guard.Fuse.Commit.{Outcome, from_store}
use file_guard.Transaction.System.{
  CapturedSource, Effect, System, World, ◌>>=◌, ◌>>◌, give, bail, lift, attempt, require, expect,
  disk, stored_call,
}
use file_guard.Transaction.Commits.{
  same_file_after_rename, Layout, layout_matches, record_path, commit_successor, transition,
  conflict, agree, or_conflict, resolve_bound_path, open_staging, look, rename,
}
use file_guard.Transaction.Validation.{
  Xattrs_eq, validate_captured_source, require_installed, require_stored,
}

-- The record of revision 1 that `capture_record` commits.
unfoldable pub first_record :
    Codec → FilePath → CapturedSource → ObjectIdentity → Bytes → FilePath → Bytes → SnapshotRecord
unfolding path_to_hex existed
first_record codec path source parent generation staging_path mount_token = record {
  header = record {
    format = format_version;
    path_hex = path_to_hex codec path;
    generation = generation;
    revision = 1;
    lifecycle = captured;
    original = source.original;
    logical_present = existed source.original;
    parent = parent;
    staging_path_hex = path_to_hex codec staging_path;
    swap_name = ascii "swap";
    stored_name = ascii "stored";
    placeholder = none;
    mount_token = mount_token;
    content_sha256 = codec.sha256 source.contents;
    blocked_reason = none;
  };
  contents = source.contents;
}

-- The record of `begin_install`.
unfoldable pub installing_record : Codec → SnapshotRecord → ObjectIdentity → SnapshotRecord
unfolding successor
installing_record codec r placeholder =
    let next = successor codec r install_intent r.contents in
    record next { header = record next.header { placeholder = some placeholder } }

-- The record of `finish_install`, from the layout observed last.
unfoldable pub installed_record : Codec → SnapshotRecord → Layout → SnapshotRecord
unfolding successor
installed_record codec r observed =
    let next = successor codec r (installed observed.1) r.contents in
    record next { header = record next.header { placeholder = observed.0 } }

-- The layouts before and after the installation.
unfoldable pub install_before : OriginalState → ObjectIdentity → Layout
install_before (present identity m) placeholder = (some identity, some placeholder)
install_before (absent presentation) placeholder = (none, some placeholder)

unfoldable pub install_after : OriginalState → ObjectIdentity → Layout
install_after (present identity m) placeholder = (some placeholder, some identity)
install_after (absent presentation) placeholder = (some placeholder, none)

module _ (codec : Codec) (s : System) where
  -- The staging root of this manager, fixed in tests only.
  unfoldable pub capture_record : FilePath → Bool → Effect (World s) SnapshotRecord
  unfolding first_record existed
  capture_record path require_present = do
    resolved ← disk s (s.open_path path)
    source ← disk s (s.capture resolved)
    require (not (require_present && not (existed source.original)))
        "the file does not exist and cannot be stored offline"
    parent ← disk s (s.parent_identity resolved)
    generation ← disk s s.random_token
    staging_root ← disk s (s.default_staging_root resolved)
    staging_path ← lift (s.planned_path staging_root generation)
    mount_token ← disk s s.random_token
    let r = first_record codec (s.path resolved) source parent generation staging_path mount_token
    stored_call s (λ kept. s.store.commit kept path none r)
    give r

  -- `StagingArea::create` at the recorded path.
  unfoldable pub create_staging : SnapshotRecord → Effect (World s) s.StagingArea
  create_staging r = do
    staging_path ← lift (from_store (path_from_hex codec r.header.staging_path_hex))
    staging_root ← expect (s.parent staging_path) "staging transaction has no root"
    disk s (s.create_area staging_root r.header.generation r.header.parent.device)

  unfoldable pub keep_placeholder :
      Outcome ObjectIdentity
      → s.StagingArea
      → Bytes
      → RestoreMetadata
      → Effect (World s) ObjectIdentity
  keep_placeholder (ok identity) staging name m = give identity
  keep_placeholder (err e) staging name m = do
    disk s (s.discard_uncommitted staging name)
    disk s (s.create_placeholder staging name m)

  unfoldable pub prepare_placeholder :
      Option ObjectIdentity
      → s.StagingArea
      → Bytes
      → RestoreMetadata
      → Effect (World s) ObjectIdentity
  unfolding keep_placeholder
  prepare_placeholder none staging name m = disk s (s.create_placeholder staging name m)
  prepare_placeholder (some found) staging name m = do
    verified ← attempt (disk s (s.verify_placeholder staging name m))
    keep_placeholder verified staging name m

  unfoldable pub begin_install : SnapshotRecord → Effect (World s) SnapshotRecord
  unfolding record_path resolve_bound_path validate_captured_source or_conflict create_staging
      prepare_placeholder commit_successor installing_record
  begin_install r = do
    path ← record_path codec s r
    resolved ← resolve_bound_path codec s path r
    checked ← attempt (validate_captured_source codec s r resolved)
    or_conflict codec s checked r "captured source changed before placeholder preparation"
    staging ← create_staging r
    disk s (s.discard_construction staging r.header.swap_name)
    found ← disk s (s.observe_staged staging r.header.swap_name)
    placeholder ← prepare_placeholder found staging r.header.swap_name (metadata r.header.original)
    let installing = installing_record codec r placeholder
    commit_successor codec s r installing
    give installing

  unfoldable pub prepare_offline_staging : SnapshotRecord → Effect (World s) SnapshotRecord
  unfolding record_path resolve_bound_path validate_captured_source or_conflict create_staging agree
  prepare_offline_staging r = do
    path ← record_path codec s r
    resolved ← resolve_bound_path codec s path r
    checked ← attempt (validate_captured_source codec s r resolved)
    or_conflict codec s checked r "captured source changed before offline storage"
    staging ← create_staging r
    empty ← disk s (s.is_empty staging)
    agree codec s empty r "offline staging contains unexpected entries"
    give r

  unfoldable pub install_operation :
      OriginalState → s.ResolvedPath → s.StagingArea → Bytes → Effect s.Disk (Unit {0})
  install_operation (present identity m) resolved staging name =
      s.exchange_with resolved staging name
  install_operation (absent presentation) resolved staging name =
      s.install_absent resolved staging name

  unfoldable pub verify_detached :
      OriginalState → s.StagingArea → SnapshotRecord → Effect (World s) (Unit {0})
  verify_detached (present identity m) staging r = do
    disk s (s.verify_snapshot staging r.header.swap_name r.contents m)
    give tt
  verify_detached (absent presentation) staging r = give tt

  unfoldable pub finish_install : SnapshotRecord → Effect (World s) SnapshotRecord
  unfolding record_path resolve_bound_path open_staging install_before install_after look
      layout_matches rename install_operation agree verify_detached or_conflict installed_record
      commit_successor require_installed
  finish_install r = do
    path ← record_path codec s r
    resolved ← resolve_bound_path codec s path r
    staging ← open_staging codec s r
    placeholder ← expect r.header.placeholder "install intent has no placeholder identity"
    let before = install_before r.header.original placeholder
    let after = install_after r.header.original placeholder
    first ← look codec s resolved staging r.header.swap_name
    observed ←
        if layout_matches first before false
        then rename codec s
            (install_operation r.header.original resolved staging r.header.swap_name)
            (look codec s resolved staging r.header.swap_name)
            (λ now. layout_matches now after true)
        else give first
    agree codec s (layout_matches observed after true) r
        "capture/install identities do not match either recoverable layout"
    verified ← attempt (verify_detached r.header.original staging r)
    or_conflict codec s verified r "detached original failed post-install verification"
    disk s (s.sync_with resolved staging)
    let installed_now = installed_record codec r observed
    commit_successor codec s r installed_now
    require_installed codec s path installed_now

  unfoldable pub capture_new : FilePath → Effect (World s) SnapshotRecord
  unfolding capture_record begin_install finish_install
  capture_new path = do
    r ← capture_record path false
    installing ← begin_install r
    finish_install installing

  -- `Ok(actual) if same_file_after_rename(..)`, else a conflict.
  unfoldable pub finish_store_with :
      SnapshotRecord → Bytes → ObjectIdentity → RestoreMetadata → Effect (World s) SnapshotRecord
  unfolding record_path resolve_bound_path open_staging look layout_matches rename agree or_conflict
      same_file_after_rename transition require_stored
  finish_store_with r detached_name identity m = do
    path ← record_path codec s r
    resolved ← resolve_bound_path codec s path r
    staging ← open_staging codec s r
    first ← look codec s resolved staging detached_name
    observed ←
        if layout_matches first (some identity, none) false
        then rename codec s (s.move_to_staging resolved staging detached_name)
            (look codec s resolved staging detached_name)
            (λ now. layout_matches now (none, some identity) true)
        else give first
    agree codec s (layout_matches observed (none, some identity) true) r
        "offline-store identities do not match either recoverable layout"
    verified ← attempt (disk s (s.verify_snapshot staging detached_name r.contents m))
    actual ← or_conflict codec s verified r "offline-store detached original failed verification"
    agree codec s (same_file_after_rename identity actual) r
        "offline-store detached inode changed during verification"
    disk s (s.sync_with resolved staging)
    stored_now ← transition codec s r (stored detached_name actual)
    require_stored codec s path stored_now

  unfoldable pub finish_store_in :
      Lifecycle → OriginalState → SnapshotRecord → Effect (World s) SnapshotRecord
  unfolding finish_store_with conflict
  finish_store_in (store_intent detached_name) (present identity m) r =
      finish_store_with r detached_name identity m
  finish_store_in (store_intent detached_name) (absent presentation) r =
      conflict codec s r (ascii "cannot store an originally absent credential offline")
  finish_store_in _ original r = bail "record is not awaiting offline storage"

  unfoldable pub finish_store : SnapshotRecord → Effect (World s) SnapshotRecord
  unfolding finish_store_in
  finish_store r = finish_store_in r.header.lifecycle r.header.original r

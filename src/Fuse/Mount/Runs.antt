-- ===== src/Fuse/Mount/Runs.antt =====
-- The states that a mount reaches, and what holds in all of them: src/fuse_fs/credential_fs.rs.
use file_guard.Prelude.{
  ℕ, ◌≡◌, inl, inr, Bool, true, ◌||◌, Option, none, some, List, [], ◌∷◌, if◌then◌else◌, ◌!=◌, arith,
  Bool-cases, ◌==◌, ℕ_eq, Bytes, Bytes_eq, Option_Bytes_eq, Bool_eq, ok, Result-cases,
}
use file_guard.Files.FilePath.{FilePath}
use file_guard.Process.{ProcessInfo}
use file_guard.Policy.Rule.{Access, read, write, Access_eq, is_allowed}
use file_guard.Policy.Entry.{RuleEntry_eq, Environment}
use file_guard.Policy.Repository.{RuleRepository}
use file_guard.Policy.Engine.{PolicyEngine, Wait, evaluate_open}
use file_guard.Policy.Engine.Open.{needed}
use file_guard.Record.{
  Codec, Timestamp_eq, Option_ObjectIdentity_eq, ObjectIdentity_eq, RestoreOrigin_eq, Lifecycle_eq,
  OriginalState_eq, RecordVersion_eq, SnapshotRecord_eq,
}
use file_guard.Fuse.Commit.{BackingStore, Outcome}
use file_guard.Fuse.Shared.{OpenHandle}
use file_guard.Fuse.Mount.{
  root_ino, Reply, opened, Mount, needs, Caller, new_mount, decide_open, release, open_checks,
  write_file, truncate_handle, finish_setattr, finish_open,
}

-- An `open` that returned a handle: what it asked of the policy and who asked, with the handle.
pub record Opening (r : RuleRepository) : Type 0 where
  pub fh : ℕ
  pub env : Environment
  pub wait : Wait env r
  pub engine : PolicyEngine r
  pub caller : Caller
  pub needs_read : Bool
  pub needs_write : Bool

-- What a run did to the handles.
pub data Event (r : RuleRepository) : Type 0 where
  did_open : Opening r → Event r
  did_release : ℕ → Event r

module _ (r : RuleRepository) where
  -- The open that a handle comes from, in a log with the latest event first: none if the handle was
  -- released after it.
  unfoldable pub last_open : ℕ → List (Event r) → Option (Opening r)
  last_open fh [] = none
  last_open fh (did_open opening ∷ log) =
      if opening.fh == fh then some opening else last_open fh log
  last_open fh (did_release known ∷ log) = if known == fh then none else last_open fh log

  -- The log after the reply to an `open`.
  unfoldable pub after_open :
      Reply
      → (env : Environment) → Wait env r
      → PolicyEngine r
      → Caller
      → Bool
      → Bool
      → List (Event r)
      → List (Event r)
  after_open (opened fh) env wait engine caller needs_read needs_write log =
      did_open (record {
        fh = fh;
        env = env;
        wait = wait;
        engine = engine;
        caller = caller;
        needs_read = needs_read;
        needs_write = needs_write;
      })
      ∷ log
  after_open _ env wait engine caller needs_read needs_write log = log

  -- The log after a `release`.
  unfoldable pub after_release : ℕ → ℕ → List (Event r) → List (Event r)
  after_release ino fh log = if ino != root_ino then log else did_release fh ∷ log

  -- The policy let an open of the file pass, and it needed this direction: its caller is the owner or
  -- root, its process was identified, and the evaluation that this open asked for allowed it.
  pub record Granted (watched : FilePath) (owner : ℕ) (opening : Opening r) (direction : Access)
      : Type 0 where
    pub info : ProcessInfo
    pub caller_known : opening.caller.identified ≡ ok info
    pub caller_permitted :
        (opening.caller.caller_uid == owner || opening.caller.caller_uid == 0) ≡ true
    pub direction_needed : needed opening.needs_read opening.needs_write direction ≡ true
    pub evaluation_allowed :
        is_allowed
          (evaluate_open opening.env r opening.wait opening.engine info watched opening.needs_read
            opening.needs_write).0
        ≡ true

  -- A handle as the run opened it last, and what it may do was granted to that open.
  pub record HandleGranted (watched : FilePath) (owner : ℕ) (log : List (Event r)) (fh : ℕ)
      (handle : OpenHandle) : Type 0 where
    pub opening : Opening r
    pub opened_last : last_open fh log ≡ some opening
    pub reads_granted : handle.can_read ≡ true → Granted watched owner opening read
    pub writes_granted : handle.access ≡ write → Granted watched owner opening write

module _ (codec : Codec) (r : RuleRepository) (b : BackingStore) where
  -- A mount of the file `watched`, whose owner is `owner`, with the log of what happened to its
  -- handles. Requests are served one at a time, but what a request asked of the policy may come from
  -- any earlier engine, and other tasks may change the engine and the store between two steps.
  pub data Run (watched : FilePath) (owner : ℕ) : List (Event r) → Mount r b → Type 0 where
    mounted :
        (resolved : Outcome FilePath) (kept : b.Contents) (engine : PolicyEngine r) (m : Mount r b)
        → new_mount r b watched resolved kept engine ≡ ok m
        → m.owner_uid ≡ owner
        → Run watched owner [] m
    elsewhere :
        (log : List (Event r)) (m : Mount r b) (kept : b.Contents) (engine : PolicyEngine r)
        → Run watched owner log m
        → Run watched owner log (record m { kept = kept; engine = engine })
    wrote :
        (log : List (Event r)) (m : Mount r b) (ino fh offset : ℕ) (input : Bytes)
        → Run watched owner log m
        → Run watched owner log (write_file r b codec m ino fh offset input).0
    closed :
        (log : List (Event r)) (m : Mount r b) (ino fh : ℕ)
        → Run watched owner log m
        → Run watched owner (after_release r ino fh log) (release r b m ino fh).0
    truncated :
        (log : List (Event r)) (m : Mount r b) (fh size : ℕ)
        → Run watched owner log m
        → Run watched owner log (truncate_handle r b codec m fh size).0
    truncated_path :
        (log : List (Event r)) (m : Mount r b) (decided : Option ProcessInfo) (size : ℕ)
        → Run watched owner log m
        → Run watched owner log (finish_setattr r b codec m decided size).0
    opens :
        (log : List (Event r)) (m : Mount r b) (env : Environment) (wait : Wait env r)
        (engine : PolicyEngine r) (caller : Caller) (ino flags : ℕ)
        (needs_read needs_write truncates : Bool) (answer : Mount r b × Reply)
        → Run watched owner log m
        → open_checks r b ino flags ≡ needs needs_read needs_write truncates
        → finish_open r b codec m
            (decide_open r b env wait engine watched owner caller needs_read needs_write).0
            needs_read
            needs_write
            truncates
          ≡ answer
        → Run watched owner
            (after_open r answer.1 env wait engine caller needs_read needs_write log)
            answer.0

  -- An open passes only for the owner or root, as an identified process that the policy allows.
  pub decide_open-Granted :
      (env : Environment) (wait : Wait env r) (engine : PolicyEngine r) (watched : FilePath)
      (owner : ℕ) (caller : Caller) (nr nw : Bool) (info : ProcessInfo) (direction : Access)
      (fh : ℕ)
      → (decide_open r b env wait engine watched owner caller nr nw).0 ≡ some info
      → needed nr nw direction ≡ true
      → Granted r watched owner
          (record {
            fh = fh;
            env = env;
            wait = wait;
            engine = engine;
            caller = caller;
            needs_read = nr;
            needs_write = nw;
          })
          direction
  unfolding decide_open
  decide_open-Granted env wait engine watched owner caller nr nw info direction fh h needed_here =
      elim (Result-cases caller.identified) [
        | inr (e, failed) ↦ absurd (ground arith)
        | inl (found, known) ↦
            elim (Bool-cases (caller.caller_uid == owner || caller.caller_uid == 0)) [
              | inr foreign ↦ absurd (ground arith)
              | inl permitted ↦
                  elim (Bool-cases
                    (is_allowed (evaluate_open env r wait engine found watched nr nw).0)) [
                      | inr denied ↦ absurd (ground arith)
                      | inl allowed ↦ record {
                        info = found;
                        caller_known = known;
                        caller_permitted = permitted;
                        direction_needed = needed_here;
                        evaluation_allowed = allowed;
                      }
                    ]
            ]
      ]

-- ===== src/Control/Authority.antt =====
-- Who may change the rules over the control socket of src/control_api.rs.
use file_guard.Prelude.{
  ℕ, String, ◌≡◌, refl, ◌≢◌, inl, inr, Bool, true, false, ◌&&◌, List, [], ◌∷◌, arith, Bool-cases,
  ◌!=◌, ℕ_eq, Bytes, Bytes_eq, Option_Bytes_eq, Bool_eq, Result, ok, err, Result-cases,
}
use file_guard.Policy.Rule.{Access_eq}
use file_guard.Policy.Entry.{RuleEntry_eq, Environment}
use file_guard.Policy.Repository.{RuleRepository}
use file_guard.Policy.Manager.{
  RuleManager, RuleCall, add, import_rules, edit, remove, serve_call, serve_calls,
}
use file_guard.Control.Lines.{max_request_bytes, read_line, Coding}
use file_guard.Control.Requests.{
  protocol_version, ControlCommand, list_command, add_command, import_command, edit_command,
  remove_command, mutates, ControlRequest, ControlResponse, error_response, execute, respond,
  handle_connection,
}

-- The calls of the rule manager that a command makes.
unfoldable pub calls_of : ControlCommand → List RuleCall
calls_of list_command = []
calls_of (add_command entry) = add entry ∷ []
calls_of (import_command entries) = import_rules entries ∷ []
calls_of (edit_command id action access pin) = edit id action access pin ∷ []
calls_of (remove_command id) = remove id ∷ []

calls_of-mutates : (command : ControlCommand) → mutates command ≡ false → calls_of command ≡ []
unfolding calls_of mutates
calls_of-mutates list_command h = refl
calls_of-mutates (add_command entry) h = cc
calls_of-mutates (import_command entries) h = cc
calls_of-mutates (edit_command id action access pin) h = cc
calls_of-mutates (remove_command id) h = cc

only_daemon :
    (mutating : Bool) (peer daemon : ℕ)
    → (mutating && peer != daemon) ≡ false
    → peer ≢ daemon
    → mutating ≡ false
only_daemon false peer daemon h other = refl
only_daemon true peer daemon h other = absurd (other (ground arith))

module _ (env : Environment) (r : RuleRepository) where
  execute-calls :
      (m : RuleManager r) (command : ControlCommand)
      → (execute env r m command).1 ≡ serve_calls env r m (calls_of command)
  unfolding execute calls_of serve_calls serve_call
  execute-calls m list_command = refl
  execute-calls m (add_command entry) = refl
  execute-calls m (import_command entries) = refl
  execute-calls m (edit_command id action access pin) = refl
  execute-calls m (remove_command id) = refl

  -- A change of the rules is made of calls of the manager, and by the daemon's own user.
  unfoldable pub Authorised : ℕ → ℕ → RuleManager r → RuleManager r → Type 0
  Authorised peer_uid daemon_uid before after =
      (calls : List RuleCall) × (after ≡ serve_calls env r before calls)
      × (peer_uid ≢ daemon_uid → calls ≡ [])

  unchanged : (peer_uid daemon_uid : ℕ) (m : RuleManager r) → Authorised peer_uid daemon_uid m m
  unfolding Authorised serve_calls
  unchanged peer_uid daemon_uid m = ([], refl, λ other. refl)

  served-Authorised :
      (peer_uid daemon_uid : ℕ) (m : RuleManager r) (command : ControlCommand)
      → (mutates command && peer_uid != daemon_uid) ≡ false
      → Authorised peer_uid daemon_uid m (execute env r m command).1
  unfolding Authorised
  served-Authorised peer_uid daemon_uid m command h = (
    calls_of command,
    execute-calls m command,
    λ other. calls_of-mutates command (only_daemon (mutates command) peer_uid daemon_uid h other),
  )

  respond-Authorised :
      (peer_uid daemon_uid guarded_uid : ℕ) (m : RuleManager r)
      (request : Result String ControlRequest)
      → Authorised peer_uid daemon_uid m (respond env r peer_uid daemon_uid guarded_uid m request).1
  unfolding respond
  respond-Authorised peer_uid daemon_uid guarded_uid m (err e) = unchanged peer_uid daemon_uid m
  respond-Authorised peer_uid daemon_uid guarded_uid m (ok request) =
      elim (Bool-cases (request.version != protocol_version)) [
        | inl h ↦ rw (h, respond) (unchanged peer_uid daemon_uid m)
        | inr h ↦ elim (Bool-cases (peer_uid != daemon_uid && peer_uid != guarded_uid)) [
          | inl k ↦ rw (h, k, respond) (unchanged peer_uid daemon_uid m)
          | inr k ↦ elim (Bool-cases (mutates request.command && peer_uid != daemon_uid)) [
            | inl j ↦ rw (h, k, j, respond) (unchanged peer_uid daemon_uid m)
            | inr j ↦
                rw (h, k, j, respond) (served-Authorised peer_uid daemon_uid m request.command j)
          ]
        ]
      ]

  -- Whatever a connection sends, the rules after it are those that calls of the manager make of the
  -- rules before it; they are the rules before it unless the peer is the daemon's own user.
  pub handle_connection-Authorised :
      (requests : Coding ControlRequest) (responses : Coding ControlResponse)
      (peer_uid daemon_uid guarded_uid : ℕ) (m : RuleManager r) (stream : Bytes)
      → Authorised peer_uid daemon_uid m
          (handle_connection env r requests responses peer_uid daemon_uid guarded_uid m stream).1
  unfolding handle_connection
  handle_connection-Authorised requests responses peer_uid daemon_uid guarded_uid m stream =
      elim (Result-cases (read_line max_request_bytes stream)) [
        | inr (e, h) ↦ rw (h, handle_connection) (unchanged peer_uid daemon_uid m)
        | inl (bytes, h) ↦
            rw (h, handle_connection)
              (respond-Authorised peer_uid daemon_uid guarded_uid m (requests.decode bytes))
      ]

  -- A peer that is neither the daemon's user nor the guarded one gets an error for every request,
  -- and the rules stay as they are.
  pub respond_stranger :
      (peer_uid daemon_uid guarded_uid : ℕ) (m : RuleManager r)
      (request : Result String ControlRequest)
      → peer_uid ≢ daemon_uid
      → peer_uid ≢ guarded_uid
      → (message : String) × (respond env r peer_uid daemon_uid guarded_uid m request
          ≡ (error_response message, m))
  unfolding respond
  respond_stranger peer_uid daemon_uid guarded_uid m (err e) h k = ("invalid control request", refl)
  respond_stranger peer_uid daemon_uid guarded_uid m (ok request) h k =
      elim (Bool-cases (request.version != protocol_version)) [
        | inl j ↦ ("control protocol version is not supported", rw (j, respond))
        | inr j ↦
            let stranger : (peer_uid != daemon_uid && peer_uid != guarded_uid) ≡ true =
              ground arith in
            ("the user may not access file-guard control state", rw (j, stranger, respond))
      ]

-- ===== src/Control/Requests.antt =====
-- The requests of the control socket: `handle_connection` and `execute` of src/control_api.rs. The
-- peer's user is the one that the kernel reports for the socket.
use file_guard.Prelude.{
  ℕ, ◌+◌, String, Bool, true, false, ◌&&◌, Option, List, [], ◌∷◌, ◌++◌, leb, if◌then◌else◌, ◌!=◌,
  ℕ_eq, Bytes, Bytes_eq, Option_Bytes_eq, Bool_eq, length, Result, ok, err, ◌>>=◌,
}
use file_guard.Policy.Rule.{Access, Access_eq}
use file_guard.Policy.Entry.{RuleAction, RuleEntry, RuleEntry_eq, RulePinUpdate, Environment}
use file_guard.Policy.Repository.{RuleRepository}
use file_guard.Policy.Manager.{
  ManagedRule, RuleManager, add_managed_rule, import_managed_rules, edit_managed_rule,
  remove_managed_rule, managed_rules,
}
use file_guard.Control.Lines.{newline, max_request_bytes, read_line, Coding}

abbrev pub protocol_version : ℕ
protocol_version = 1

pub data ControlCommand : Type 0 where
  list_command : ControlCommand
  add_command : RuleEntry → ControlCommand
  import_command : List RuleEntry → ControlCommand
  edit_command : ℕ → Option RuleAction → Option Access → RulePinUpdate → ControlCommand
  remove_command : ℕ → ControlCommand

unfoldable pub mutates : ControlCommand → Bool
mutates list_command = false
mutates _ = true

pub record ControlRequest : Type 0 where
  pub version : ℕ
  pub command : ControlCommand

pub data ControlPayload : Type 0 where
  rules_payload : List ManagedRule → ControlPayload
  added_payload : Bool → ControlPayload
  imported_payload : ℕ → ControlPayload
  replaced_payload : ControlPayload
  removed_payload : RuleEntry → ControlPayload

pub data ControlResponse : Type 0 where
  ok_response : ControlPayload → ControlResponse
  error_response : String → ControlResponse

-- `Result::map`
unfoldable pub map_result {ℓ κ} :
    {A : Type ℓ} {B : Type κ} → (A → B) → Result String A → Result String B
map_result f (ok a) = ok (f a)
map_result f (err e) = err e

unfoldable pub response_of : Result String ControlPayload → ControlResponse
response_of (ok payload) = ok_response payload
response_of (err message) = error_response message

unfoldable pub encode_response : Coding ControlResponse → ControlResponse → Result String Bytes
encode_response json response = do
  bytes ← json.encode response
  shown ←
      if leb (length bytes + 1) max_request_bytes
      then ok bytes
      else json.encode (error_response "control response exceeds the limit; reduce the rule set")
  ok (shown ++ (newline ∷ []))

module _ (env : Environment) (r : RuleRepository) where
  unfoldable pub execute :
      RuleManager r → ControlCommand → Result String ControlPayload × RuleManager r
  unfolding managed_rules add_managed_rule import_managed_rules edit_managed_rule
      remove_managed_rule map_result
  execute m list_command = (ok (rules_payload (managed_rules r m)), m)
  execute m (add_command entry) =
      let done = add_managed_rule env r m entry in (map_result added_payload done.0, done.1)
  execute m (import_command entries) =
      let done = import_managed_rules env r m entries in
      (map_result imported_payload done.0, done.1)
  execute m (edit_command id action access pin) =
      let done = edit_managed_rule env r m id action access pin in
      (map_result (λ stored. replaced_payload) done.0, done.1)
  execute m (remove_command id) =
      let done = remove_managed_rule env r m id in (map_result removed_payload done.0, done.1)

  -- The `match` on the request, with the guards in the order of the source.
  unfoldable pub respond :
      ℕ → ℕ → ℕ → RuleManager r → Result String ControlRequest → ControlResponse × RuleManager r
  unfolding execute mutates response_of
  respond peer_uid daemon_uid guarded_uid m (err e) = (error_response "invalid control request", m)
  respond peer_uid daemon_uid guarded_uid m (ok request) =
      let done = execute m request.command in
      if request.version != protocol_version
      then (error_response "control protocol version is not supported", m)
      else if peer_uid != daemon_uid && peer_uid != guarded_uid
      then (error_response "the user may not access file-guard control state", m)
      else if mutates request.command && peer_uid != daemon_uid
      then (error_response "rule mutations require root; re-run with sudo", m)
      else (response_of done.0, done.1)

  unfoldable pub handle_connection :
      Coding ControlRequest
      → Coding ControlResponse
      → ℕ
      → ℕ
      → ℕ
      → RuleManager r
      → Bytes
      → Result String Bytes × RuleManager r
  unfolding read_line respond encode_response
  handle_connection requests responses peer_uid daemon_uid guarded_uid m stream =
      elim (read_line max_request_bytes stream) [
        | err e ↦ (err e, m)
        | ok bytes ↦
            let answer = respond peer_uid daemon_uid guarded_uid m (requests.decode bytes) in
            (encode_response responses answer.0, answer.1)
      ]

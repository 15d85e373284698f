-- ===== src/Tests/Controls.antt =====
-- The control socket and its lines on small messages: src/control_api.rs, src/prompt/protocol.rs.
use file_guard.Prelude.{
  String, ◌≡◌, refl, [], ◌∷◌, ◌++◌, arith, ℕ_eq, Bytes_eq, Option_Bytes_eq, Bool_eq, ok, err,
  ok_inj,
}
use file_guard.Process.{ascii}
use file_guard.Policy.Rule.{Access_eq}
use file_guard.Policy.Entry.{RuleEntry_eq}
use file_guard.Policy.Repository.Memory.{memory}
use file_guard.Control.Lines.{
  newline, Coding, read_json_line, write_json_line, read_json_line-write_json_line,
}
use file_guard.Control.Requests.{
  list_command, remove_command, ControlRequest, ControlResponse, error_response, respond,
  handle_connection,
}
use file_guard.Control.Authority.{Authorised, handle_connection-Authorised, respond_stranger}
use file_guard.Tests.Policies.{no_files, empty_manager}

-- One message, `{}`.
abbrev braces : Coding (Unit {0})
braces = record { encode = λ message. ok (ascii "{}"); decode = λ bytes. ok tt }

sent_braces : write_json_line braces tt ≡ ok (ascii "{}" ++ (newline ∷ []))
unfolding write_json_line
sent_braces = refl

read_json_line-write_json_line_example :
    read_json_line braces ((ascii "{}" ++ (newline ∷ [])) ++ ascii "more") ≡ ok tt
read_json_line-write_json_line_example =
    read_json_line-write_json_line braces (λ message line h. (rw (← ok_inj h), refl)) tt
      (ascii "{}" ++ (newline ∷ [])) (ascii "more") sent_braces

-- Every request removes the first learned rule.
abbrev removals : Coding ControlRequest
removals = record {
  encode = λ request. ok [];
  decode = λ bytes. ok (record { version = 1; command = remove_command 1 });
}

abbrev silent : Coding ControlResponse
silent = record { encode = λ response. ok []; decode = λ bytes. err "no response" }

handle_connection-Authorised_example :
    Authorised no_files memory 1000 0 empty_manager
      (handle_connection no_files memory removals silent 1000 0 1000 empty_manager
        (ascii "{}" ++ (newline ∷ []))).1
unfolding memory
handle_connection-Authorised_example =
    handle_connection-Authorised no_files memory removals silent 1000 0 1000 empty_manager
      (ascii "{}" ++ (newline ∷ []))

respond_stranger_example :
    (message : String) × (respond no_files memory 1001 0 1000 empty_manager
        (ok (record { version = 1; command = list_command }))
      ≡ (error_response message, empty_manager))
unfolding memory
respond_stranger_example =
    respond_stranger no_files memory 1001 0 1000 empty_manager
      (ok (record { version = 1; command = list_command })) (omega arith) (omega arith)

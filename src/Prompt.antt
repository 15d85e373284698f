-- ===== src/Prompt.antt =====
-- What the daemon takes from the prompt agent: src/prompt/types.rs, and the choice that
-- src/prompt/client.rs makes of the agent's answer. The exchange over the socket is an input.
use file_guard.Prelude.{String, ℕ_eq, Bytes_eq, Option_Bytes_eq, Bool_eq, Result, ok, err}

-- `DefaultAction` of src/config.rs.
pub data DefaultAction : Type 0 where
  allow_default deny_default : DefaultAction

pub data UserChoice : Type 0 where
  allow_once allow_always allow_session deny_once deny_always : UserChoice

-- `PromptOutcome` of src/prompt/protocol.rs.
pub data PromptOutcome : Type 0 where
  decided_by_user : UserChoice → PromptOutcome
  no_response : PromptOutcome

unfoldable pub default_choice : DefaultAction → UserChoice
default_choice allow_default = allow_once
default_choice deny_default = deny_once

-- `PromptClient::prompt`, given the result of `request`.
unfoldable pub prompt : Result String PromptOutcome → DefaultAction → UserChoice
unfolding default_choice
prompt (ok (decided_by_user choice)) default = choice
prompt (ok no_response) default = default_choice default
prompt (err e) default = default_choice default

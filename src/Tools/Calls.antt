-- ===== src/Tools/Calls.antt =====
-- tools.go: the handler that ConvertTool puts around the function of a tool. json.Marshal and
-- json.Unmarshal, which reads the arguments into the tool's parameters, are parameters. The
-- functions of tools/ return a map or an error; the branches for other kinds of value, the tracing
-- and the checks of a function's type by reflection are left out.
pub mod Laws
mod Examples
use Prim.Native.String.{◌++◌}
use mcp_pipedrive.Tools.Common.{Tool, lift, ◌>>=◌, continue_with}
use Prim.Native.Char.{code}
use mcp_pipedrive.Client.Exchange.{World}
use mcp_pipedrive.Prelude.{Option, String, none, some}
use mcp_pipedrive.Prelude.Int.{format_int, pos}
use mcp_pipedrive.Result.{Error, Result, api, err, hard, message, ok, wrapped}
use mcp_pipedrive.Value.{Value}

-- a *CallToolResult: the text of a reply, or of an error
pub data CallResult : Type 0 where
  text_result : String → CallResult
  error_result : String → CallResult

-- Error() of each error
unfoldable pub error_text : Error → String
error_text (message s) = s
error_text (api e) = "pipedrive api error: " ++ e.status
error_text (wrapped code body) = "pipedrive api error " ++ (format_int (pos code) ++ (": " ++ body))
error_text (hard e) = error_text e

-- errors.As for a *HardError
abbrev pub hard_cause : Error → Option Error
hard_cause (hard e) = some e
hard_cause e = none

-- fmt.Errorf with an error behind a text
abbrev pub with_prefix : {A : Type 0} → String → Result A → Result A
unfolding error_text
with_prefix text (err e) = err (message (text ++ error_text e))
with_prefix text (ok a) = ok a

-- the branch on the error of the function
unfoldable pub failed_call : Error → Result CallResult
unfolding error_text
failed_call e = elim (hard_cause e) [
  | some cause ↦ err cause
  | none ↦ ok (error_result (error_text e))
]

module _ {Db Args R : Type 0} (marshal_args : Value → Result String)
    (unmarshal_args : String → Result Args) (marshal : R → Result String) where
  -- what is behind the function
  unfoldable pub finish_call : World Db × Result R → World Db × Result CallResult
  unfolding failed_call
  finish_call (w, err e) = (w, failed_call e)
  finish_call (w, ok r) =
      continue_with (w, with_prefix "failed to marshal return value: " (marshal r))
        (λ s. lift (ok (text_result s)))

  -- the handler
  unfoldable pub call_tool : (Args → Tool Db R) → Value → Tool Db CallResult
  unfolding finish_call
  call_tool tool arguments = do
    bytes ← lift (with_prefix "marshal args: " (marshal_args arguments))
    args ← lift (with_prefix "unmarshal args: " (unmarshal_args bytes))
    (λ w. finish_call (tool args w))

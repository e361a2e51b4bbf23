-- ===== src/Tools/Calls/Laws.antt =====
-- When a call is a protocol error.
use mcp_pipedrive.Tools.Common.{Tool, lift}
use mathlib.Core.Bool.{false≢true}
use mcp_pipedrive.Client.Exchange.{World}
use mcp_pipedrive.Prelude.{Bool, String, ap, false, refl, sym, true, ◌↔◌, ◌∙◌, ◌≡◌, none, none≢some}
use mcp_pipedrive.Result.{Error, Result, api, err, hard, message, ok, wrapped}
use mcp_pipedrive.Tools.Calls.{
  failed_call, finish_call, CallResult, call_tool, error_result, error_text, hard_cause,
  text_result, with_prefix,
}
use mcp_pipedrive.Tools.Steps.{err≢ok, continue_with-runs}
use mcp_pipedrive.Value.{Value}
use mathlib.Core.Path.{subst}

abbrev caught : {A : Type 0} → Result A → Error
caught (err e) = e
caught (ok a) = message ""

abbrev inner : Error → Error
inner (hard e) = e
inner e = e

abbrev is_hard : Error → Bool
is_hard (hard e) = true
is_hard e = false

soft≢hard :
    {A : Type 0} {d e : Error} → is_hard d ≡ false → Path (Result A) (err d) (err (hard e)) → ⊥
soft≢hard soft h = false≢true (sym soft ∙ ap (λ r. is_hard (caught r)) h)

abbrev text_of : Result CallResult → String
text_of (ok (error_result text)) = text
text_of _ = ""

abbrev is_error : Result CallResult → Bool
is_error (ok (error_result text)) = true
is_error _ = false

is_soft : (e : Error) → hard_cause e ≡ none → is_hard e ≡ false
is_soft (message s) h = refl
is_soft (api a) h = refl
is_soft (wrapped status body) h = refl
is_soft (hard e) h = absurd (none≢some (sym h))

module _ {Db Args R : Type 0} (marshal_args : Value → Result String)
    (unmarshal_args : String → Result Args) (marshal : R → Result String)
    (prints : (r : R) → (s : String) × (marshal r ≡ ok s)) where
  abbrev finish : World Db × Result R → World Db × Result CallResult
  finish r = finish_call marshal_args unmarshal_args marshal r

  finish-ok : (w : World Db) (r : R) → finish (w, ok r) ≡ (w, ok (text_result (prints r).0))
  unfolding finish_call
  finish-ok w r =
      continue_with-runs (with_prefix "failed to marshal return value: " (marshal r))
        (λ s. lift (ok (text_result s))) w (prints r).0
        (ap (with_prefix "failed to marshal return value: ") (prints r).1)

  -- what the function of a tool and its call have to do with each other
  abbrev pub Reports : World Db × Result R → World Db × Result CallResult → Type 0
  Reports r call =
      (call.0 ≡ r.0)
      × (((e : Error) → (call.1 ≡ err e) ↔ (r.1 ≡ err (hard e)))
          × ((text : String)
              → (call.1 ≡ ok (error_result text)) ↔ (
                  (e : Error) × ((hard_cause e ≡ none) × ((r.1 ≡ err e) × (error_text e ≡ text))))))

  soft-Reports :
      (w : World Db) (d : Error)
      → hard_cause d ≡ none
      → Reports (w, err d) (w, ok (error_result (error_text d)))
  soft-Reports w d soft = (
    refl,
    (
      λ e. (λ h. absurd (err≢ok (sym h)), λ h. absurd (soft≢hard (is_soft d soft) h)),
      λ text. (
        λ h. (d, (soft, (refl, ap text_of h))),
        λ (e, (also_soft, (h, t))). ap ok (ap error_result (ap (λ r. error_text (caught r)) h ∙ t)),
      ),
    ),
  )

  finish-Reports : (r : World Db × Result R) → Reports r (finish r)
  unfolding finish_call failed_call
  finish-Reports (w, err (hard d)) = (
    refl,
    (
      λ e. (λ h. ap (λ r. err (hard (caught r))) h, λ h. ap (λ r. err (inner (caught r))) h),
      λ text. (
        λ h. absurd (err≢ok h),
        λ (e, (soft, (h, t))). absurd (soft≢hard (is_soft e soft) (sym h)),
      ),
    ),
  )
  finish-Reports (w, err (message s)) = soft-Reports w (message s) refl
  finish-Reports (w, err (api a)) = soft-Reports w (api a) refl
  finish-Reports (w, err (wrapped status body)) = soft-Reports w (wrapped status body) refl
  finish-Reports (w, ok r) = subst (Reports (w, ok r)) (sym (finish-ok w r)) (
    refl,
    (
      λ e. (λ h. absurd (err≢ok (sym h)), λ h. absurd (err≢ok (sym h))),
      λ text. (
        λ h. absurd (false≢true (ap is_error h)),
        λ (e, (soft, (h, t))). absurd (err≢ok (sym h)),
      ),
    ),
  )

  -- A call whose arguments can be read, and any reply to which can be printed, leaves the world as
  -- the tool's function leaves it. It is a protocol error exactly if the function ends in a
  -- HardError, with what that holds, and a result that is flagged as an error exactly if the
  -- function ends in any other error, whose text it then has.
  pub call_tool-Reports :
      (tool : Args → Tool Db R) (arguments : Value) (bytes : String) (args : Args) (w : World Db)
      → marshal_args arguments ≡ ok bytes
      → unmarshal_args bytes ≡ ok args
      → Reports (tool args w) (call_tool marshal_args unmarshal_args marshal tool arguments w)
  unfolding call_tool
  call_tool-Reports tool arguments bytes args w sent read =
      subst (Reports (tool args w))
        (sym (
          continue_with-runs (with_prefix "marshal args: " (marshal_args arguments)) _ w bytes
            (ap (with_prefix "marshal args: ") sent)
          ∙ continue_with-runs (with_prefix "unmarshal args: " (unmarshal_args bytes)) _ w args
              (ap (with_prefix "unmarshal args: ") read)))
        (finish-Reports (tool args w))

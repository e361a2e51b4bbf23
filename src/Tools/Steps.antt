-- ===== src/Tools/Steps.antt =====
-- How a handler that ends in a result has run.
use mcp_pipedrive.Result.{Result, Error, ok, err}
use mcp_pipedrive.Tools.Common.{
  Tool, Reply, continue_with, lift, disabled, on_verdict, reply, Context, gated,
}
use mathlib.Core.Bool.{false≢true}
use mcp_pipedrive.Client.Exchange.{World}
use mcp_pipedrive.Guard.{DisabledResult, GuardKind, ensure_tool_allowed}
use mcp_pipedrive.Prelude.{Bool, Option, ap, false, none, refl, some, true, ◌≡◌, ◌≢◌, String}

abbrev is_ok : {A : Type 0} → Result A → Bool
is_ok (ok a) = true
is_ok (err e) = false

pub err≢ok : {A : Type 0} {e : Error} {a : A} → ¬ (err e ≡ ok a)
err≢ok h = false≢true (ap is_ok h)

abbrev reply_or : {A : Type 0} → A → Result (Reply A) → A
reply_or a (ok (reply b)) = b
reply_or a _ = a

abbrev is_reply : {A : Type 0} → Result (Reply A) → Bool
is_reply (ok (disabled d)) = false
is_reply _ = true

disabled≢reply : {A : Type 0} {d : DisabledResult} {a : A} → ¬ (ok (disabled d) ≡ ok (reply a))
disabled≢reply h = false≢true (ap is_reply h)

pub continue_with-ok :
    {Db A B : Type 0} (r : World Db × Result A) (f : A → Tool Db B) (b : B)
    → (continue_with r f).1 ≡ ok b
    → (a : A) × ((r.1 ≡ ok a) × (continue_with r f ≡ f a r.0))
continue_with-ok (w, ok a) f b h = (a, (refl, refl))
continue_with-ok (w, err e) f b h = absurd (err≢ok h)

-- a handler whose reply is no refusal has run behind its guard
pub on_verdict-reply :
    {Db A : Type 0} (verdict : Result (Option DisabledResult)) (run : Tool Db A) (w : World Db)
    (a : A)
    → (on_verdict verdict run w).1 ≡ ok (reply a)
    → ((run w).1 ≡ ok a) × ((on_verdict verdict run w).0 ≡ (run w).0)
unfolding on_verdict
on_verdict-reply (err e) run w a h = absurd (err≢ok h)
on_verdict-reply (ok (some verdict)) run w a h = absurd (disabled≢reply h)
on_verdict-reply {Db = Db} {A = A} (ok none) run w a h = ran (run w) h
  where
    ran :
        (r : World Db × Result A)
        → (continue_with r (λ a. lift (ok (reply a)))).1 ≡ ok (reply a)
        → (r.1 ≡ ok a) × ((continue_with r (λ a. lift (ok (reply a)))).0 ≡ r.0)
    ran (w', ok a') e = (ap ok (ap (reply_or a) e), refl)
    ran (w', err e') e = absurd (err≢ok e)

-- a handler that its guard refuses leaves the world as it is
pub on_verdict-refused :
    {Db A : Type 0} (verdict : Result (Option DisabledResult)) (run : Tool Db A) (w : World Db)
    → verdict ≢ ok none
    → (on_verdict verdict run w).0 ≡ w
unfolding on_verdict
on_verdict-refused (err e) run w h = refl
on_verdict-refused (ok (some verdict)) run w h = refl
on_verdict-refused (ok none) run w h = absurd (h refl)

-- a handler that passes its guard runs
pub gated-runs :
    {Db A : Type 0} (ctx : Context) (name : String) (kind : GuardKind) (run : Tool Db A)
    (w : World Db)
    → ensure_tool_allowed ctx.config name kind ≡ ok none
    → gated ctx name kind run w ≡ continue_with (run w) (λ a. lift (ok (reply a)))
unfolding gated on_verdict
gated-runs ctx name kind run w passes = ap (λ v. on_verdict v run w) passes

pub continue_with-runs :
    {Db A B : Type 0} (r : Result A) (f : A → Tool Db B) (w : World Db) (a : A)
    → r ≡ ok a
    → continue_with (w, r) f ≡ f a w
continue_with-runs r f w a e = ap (λ r'. continue_with (w, r') f) e

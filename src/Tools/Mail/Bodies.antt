-- ===== src/Tools/Mail/Bodies.antt =====
-- The backfill of bodies in dealsMailList of tools/mailbox.go. Each message without a body has a
-- goroutine that asks for it and then, under the mutex, puts it into the message or reports its
-- error. A run is the goroutines in the order in which they take the mutex.
pub mod Order
pub mod Keeps
use mathlib.Core.List.{List, [], ◌∷◌}
use mcp_pipedrive.Client.Exchange.{World}
use mcp_pipedrive.Prelude.{
  Bool, Option, String, if◌then◌else◌, length, ltb, none, not, some, suc, take, zero, ℕ, ◌&&◌, ◌+◌,
  ◌-◌, ◌||◌,
}
use mcp_pipedrive.Prelude.Int.{int_eq, is_positive, negsuc, pos, ℤ}
use mcp_pipedrive.Prelude.Text.{is_set}
use mcp_pipedrive.Result.{Error, Result, err, ok}
use mcp_pipedrive.Tools.Common.{Tool, extract_item_data}
use mcp_pipedrive.Tools.Mail.{to_int64_raw, to_string_raw}
use mcp_pipedrive.Value.{Fields, Value, get, insert, str}

pub record Need : Type 0 where
  pub idx : ℕ
  pub id : ℤ

-- what the goroutines share; bodyErrors is a map, and how many entries it was given
pub record Backfill : Type 0 where
  pub messages : List Fields
  pub fetched : ℕ
  pub failures : ℕ
  pub errors : ℤ → Option Error

unfoldable pub has_body : Fields → Bool
unfolding to_string_raw
has_body m = is_set (to_string_raw (get m "body")) || is_set (to_string_raw (get m "body_content"))

-- the loop over rawMsgs, from an index on
unfoldable pub needs_from : ℕ → List Fields → List Need
unfolding has_body to_int64_raw
needs_from i [] = []
needs_from i (m ∷ ms) =
    let rest = needs_from (suc i) ms in
    let id = to_int64_raw (get m "id") in
    if not (has_body m) && is_positive id then record { idx = i; id = id } ∷ rest else rest

-- the cap on the needs, and how many it leaves out; 0 is no cap
unfoldable pub cap_needs : ℤ → List Need → List Need × ℕ
cap_needs (pos n) needs =
    if ltb 0 n && ltb n (length needs) then (take n needs, length needs - n) else (needs, 0)
cap_needs (negsuc n) needs = (needs, 0)

-- rawMsgs[idx] is changed
unfoldable pub update_at : ℕ → (Fields → Fields) → List Fields → List Fields
update_at i f [] = []
update_at zero f (m ∷ ms) = f m ∷ ms
update_at (suc i) f (m ∷ ms) = m ∷ update_at i f ms

abbrev set_body : String → String → Fields → Fields
set_body k body m = if is_set body then insert k (str body) m else m

-- the bodies of an answer, put into a message
unfoldable pub fill_body : Value → Fields → Fields
unfolding to_string_raw extract_item_data
fill_body payload m =
    let full = (extract_item_data payload).1 in
    set_body "body_content" (to_string_raw (get full "body_content"))
      (set_body "body" (to_string_raw (get full "body")) m)

-- m[k] = v for bodyErrors
abbrev pub add_error : ℤ → Error → (ℤ → Option Error) → ℤ → Option Error
add_error id e errors k = if int_eq k id then some e else errors k

-- the critical section of a goroutine, with what it was answered
unfoldable pub deliver_body : Need → Result Value → Backfill → Backfill
unfolding update_at fill_body
deliver_body n (err e) b = record b {
  failures = b.failures + 1;
  errors = add_error n.id e b.errors;
}
deliver_body n (ok payload) b = record b {
  messages = update_at n.idx (fill_body payload) b.messages;
  fetched = b.fetched + 1;
}

-- the requests of the goroutines, in order; a failed one ends its goroutine only
unfoldable pub ask_each :
    {Db : Type 0}
    → (Need → Tool Db Value)
    → List Need
    → World Db
    → World Db × List (Need × Result Value)
ask_each ask [] w = (w, [])
ask_each ask (n ∷ ns) w =
    let (w', answer) = ask n w in
    let (w'', answers) = ask_each ask ns w' in (w'', (n, answer) ∷ answers)

-- their critical sections, in order
unfoldable pub deliver_each : List (Need × Result Value) → Backfill → Backfill
unfolding deliver_body
deliver_each [] b = b
deliver_each ((n, answer) ∷ rest) b = deliver_each rest (deliver_body n answer b)

abbrev pub no_backfill : List Fields → Backfill
no_backfill ms = record { messages = ms; fetched = 0; failures = 0; errors = λ k. none }

-- ===== src/Tools/Mail/Bodies/Keeps.antt =====
-- What the backfill of bodies changes, and what it counts.
use mathlib.Core.List.{List, [], ◌∷◌, Permᴰ}
use mcp_pipedrive.Cache.{CacheMode}
use mcp_pipedrive.Client.{Client}
use mcp_pipedrive.Client.Exchange.{Services, World}
use mcp_pipedrive.Prelude.{
  String, ap, arith, length, map, refl, suc, take, true, zero, ℕ, ◌+◌, ◌<◌, ◌∙◌, ◌≡◌, ◌≢◌,
  if◌then◌else◌, Bool, keep, length-perm, ltb, not, ◌&&◌,
}
use mcp_pipedrive.Prelude.Int.{negsuc, pos, ℤ, is_positive}
use mcp_pipedrive.Result.{Result, err, ok}
use mcp_pipedrive.Tools.Common.{Tool}
use mcp_pipedrive.Tools.Mail.Bodies.{
  Backfill, Need, ask_each, cap_needs, deliver_body, deliver_each, fill_body, needs_from, update_at,
  no_backfill, has_body,
}
use mcp_pipedrive.Tools.Mail.DealMail.{backfill_bodies, ask_body}
use mcp_pipedrive.Value.{Fields, Value, get, get-insert, insert, str}
use mcp_pipedrive.Prelude.Text.{is_set}
use text.Mathlib.TextEquality.{eq_iff}
use mcp_pipedrive.Tools.Mail.{to_int64_raw}

abbrev pub at_key : String → List Fields → List Value
at_key k ms = map (λ m. get m k) ms

set_text-other :
    (k key v : String) (m : Fields)
    → k ≢ key
    → get (if is_set v then insert key (str v) m else m) k ≡ get m k
set_text-other k key v m h = ground (arith, get-insert key k (str v) m, eq_iff key k)

fill_body-other :
    (k : String) (payload : Value) (m : Fields)
    → k ≢ "body"
    → k ≢ "body_content"
    → get (fill_body payload m) k ≡ get m k
unfolding fill_body
fill_body-other k payload m h j =
    set_text-other k "body_content" _ _ j ∙ set_text-other k "body" _ m h

update_at-other :
    (k : String) (i : ℕ) (f : Fields → Fields) (ms : List Fields)
    → ((m : Fields) → get (f m) k ≡ get m k)
    → at_key k (update_at i f ms) ≡ at_key k ms
unfolding update_at
update_at-other k i f [] h = refl
update_at-other k zero f (m ∷ ms) h = ap (λ v. v ∷ at_key k ms) (h m)
update_at-other k (suc i) f (m ∷ ms) h = ap (λ l. get m k ∷ l) (update_at-other k i f ms h)

deliver_each-other :
    (k : String) (ds : List (Need × Result Value)) (b : Backfill)
    → k ≢ "body"
    → k ≢ "body_content"
    → at_key k (deliver_each ds b).messages ≡ at_key k b.messages
unfolding deliver_each deliver_body
deliver_each-other k [] b h j = refl
deliver_each-other k ((n, err e) ∷ ds) b h j = deliver_each-other k ds _ h j
deliver_each-other k ((n, ok v) ∷ ds) b h j =
    deliver_each-other k ds _ h j
    ∙ update_at-other k n.idx (fill_body v) b.messages (λ m. fill_body-other k v m h j)

deliver_each-count :
    (ds : List (Need × Result Value)) (b : Backfill)
    → (deliver_each ds b).fetched + (deliver_each ds b).failures
      ≡ b.fetched + b.failures + length ds
unfolding deliver_each deliver_body
deliver_each-count [] b = omega arith
deliver_each-count ((n, err e) ∷ ds) b =
    omega (arith, deliver_each-count ds (deliver_body n (err e) b))
deliver_each-count ((n, ok v) ∷ ds) b =
    omega (arith, deliver_each-count ds (deliver_body n (ok v) b))

ask_each-length :
    {Db : Type 0} (ask : Need → Tool Db Value) (ns : List Need) (w : World Db)
    → length (ask_each ask ns w).1 ≡ length ns
unfolding ask_each
ask_each-length ask [] w = refl
ask_each-length ask (n ∷ ns) w = ap suc (ask_each-length ask ns (ask n w).0)

length-take : {A : Type 0} (n : ℕ) (xs : List A) → n < length xs → length (take n xs) ≡ n
length-take zero xs h = refl
length-take (suc n) [] h = absurd (omega (arith, h))
length-take (suc n) (x ∷ xs) h = ap suc (length-take n xs (omega (arith, h)))

cap_needs-count :
    (cap : ℤ) (ns : List Need) → length (cap_needs cap ns).0 + (cap_needs cap ns).1 ≡ length ns
unfolding cap_needs
cap_needs-count (pos n) ns = ground (arith, length-take n ns)
cap_needs-count (negsuc n) ns = omega arith

-- a message whose body is asked for: it has none, and its id is positive
abbrev pub lacks_body : Fields → Bool
lacks_body m = not (has_body m) && is_positive (to_int64_raw (get m "id"))

abbrev pub count_lacking : List Fields → ℕ
count_lacking ms = length (keep lacks_body ms)

needs_from-count : (i : ℕ) (ms : List Fields) → length (needs_from i ms) ≡ count_lacking ms
unfolding needs_from
needs_from-count i [] = refl
needs_from-count i (m ∷ ms) = ground (arith, needs_from-count (suc i) ms)

-- as many as there are, or the cap if it is positive and less
abbrev pub at_most : ℤ → ℕ → ℕ
at_most (pos cap) n = if ltb 0 cap && ltb cap n then cap else n
at_most (negsuc cap) n = n

cap_needs-at_most :
    (cap : ℤ) (ns : List Need) → length (cap_needs cap ns).0 ≡ at_most cap (length ns)
unfolding cap_needs
cap_needs-at_most (pos n) ns = ground (arith, length-take n ns)
cap_needs-at_most (negsuc n) ns = refl

module _ {Db : Type 0} (services : Services Db) (schedule : List Need → List Need) where
  -- However the goroutines are scheduled and answered, the backfill of bodies leaves the messages
  -- in their order, each with its values under every key but body and body_content. Of the
  -- messages that have no body and a positive id, it fetches or fails to fetch one body each, or
  -- as many as the cap says where there is one and it is less, and counts the others as skipped.
  pub backfill_bodies_lem :
      (c : Client) (mode : CacheMode) (cap : ℤ) (k : String) (ms : List Fields) (w : World Db)
      → ((ns : List Need) → Permᴰ ns (schedule ns))
      → k ≢ "body"
      → k ≢ "body_content"
      → let filled = (backfill_bodies services schedule c mode true cap ms w).1 in
        (at_key k filled.0.messages ≡ at_key k ms)
        × (filled.0.fetched + filled.0.failures ≡ at_most cap (count_lacking ms))
        × (filled.0.fetched + filled.0.failures + filled.1 ≡ count_lacking ms)
  unfolding backfill_bodies
  backfill_bodies_lem c mode cap k ms w fair h j =
      let needs = (cap_needs cap (needs_from 0 ms)).0 in
      let answers = (ask_each (ask_body services c mode) (schedule needs) w).1 in
      let asked : (deliver_each answers (no_backfill ms)).fetched
            + (deliver_each answers (no_backfill ms)).failures
          ≡ length needs =
        omega (
          arith,
          deliver_each-count answers (no_backfill ms),
          ask_each-length (ask_body services c mode) (schedule needs) w,
          length-perm (fair needs),
        ) in
      (
        deliver_each-other k answers (no_backfill ms) h j,
        asked ∙ cap_needs-at_most cap (needs_from 0 ms) ∙ ap (at_most cap) (needs_from-count 0 ms),
        omega (arith, asked, cap_needs-count cap (needs_from 0 ms), needs_from-count 0 ms),
      )

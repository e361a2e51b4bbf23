-- ===== src/Tools/Mail/Bodies/Order.antt =====
-- The backfill of bodies does not depend on the order in which its goroutines take the mutex.
use mathlib.Core.List.{List, [], ◌∷◌, Permᴰ}
use mathlib.Core.Path.{fun_ext, subst}
use mcp_pipedrive.Prelude.{
  Option, ap, arith, refl, suc, zero, ℕ, ◌≡◌, ◌≢◌, All, some, sym, true, ◌+◌, ◌∙◌, take, ◌<◌,
  All-perm,
}
use mcp_pipedrive.Prelude.Int.{ℤ, int_eq, int_eq_lem, negsuc, pos}
use mcp_pipedrive.Result.{Error, Result, err, ok}
use mcp_pipedrive.Tools.Mail.Bodies.{
  Backfill, Need, add_error, deliver_body, update_at, deliver_each, fill_body, ask_each, cap_needs,
  needs_from, no_backfill,
}
use mcp_pipedrive.Value.{Fields, Value}
use mcp_pipedrive.Client.Exchange.{World}
use mcp_pipedrive.Tools.Common.{Tool}

-- messages that differ are changed in either order
update_at-update_at :
    (i j : ℕ) (f g : Fields → Fields) (ms : List Fields)
    → i ≢ j
    → update_at i f (update_at j g ms) ≡ update_at j g (update_at i f ms)
unfolding update_at
update_at-update_at i j f g [] ne = refl
update_at-update_at zero zero f g (m ∷ ms) ne = absurd (ne refl)
update_at-update_at zero (suc j) f g (m ∷ ms) ne = refl
update_at-update_at (suc i) zero f g (m ∷ ms) ne = refl
update_at-update_at (suc i) (suc j) f g (m ∷ ms) ne =
    ap (λ l. m ∷ l) (update_at-update_at i j f g ms (λ e. ne (omega (arith, e))))

add_error-add_error :
    (i j : ℤ) (d e : Error) (errors : ℤ → Option Error)
    → (i ≡ j → d ≡ e)
    → add_error i d (add_error j e errors) ≡ add_error j e (add_error i d errors)
add_error-add_error i j d e errors same = fun_ext λ k. ground (
  arith,
  λ (p : int_eq k i ≡ true) (q : int_eq k j ≡ true).
      ap some (same (sym (int_eq_lem k i p) ∙ int_eq_lem k j q)),
)

error_inj : {d e : Error} → Path (Result Value) (err d) (err e) → d ≡ e
error_inj {d} h = ap (λ r. elim r as (λ _. Error) [ err c ↦ c | ok v ↦ d ]) h

-- two goroutines whose messages differ, and that have the same answer if they ask for the same
deliver_body-deliver_body :
    (m n : Need) (r s : Result Value) (b : Backfill)
    → m.idx ≢ n.idx
    → (m.id ≡ n.id → r ≡ s)
    → deliver_body m r (deliver_body n s b) ≡ deliver_body n s (deliver_body m r b)
unfolding deliver_body
deliver_body-deliver_body m n (err d) (err e) b ne same =
    ap (λ es. record b { failures = b.failures + 1 + 1; errors = es })
      (add_error-add_error m.id n.id d e b.errors (λ q. error_inj (same q)))
deliver_body-deliver_body m n (err d) (ok v) b ne same = refl
deliver_body-deliver_body m n (ok u) (err e) b ne same = refl
deliver_body-deliver_body m n (ok u) (ok v) b ne same =
    ap (λ ms. record b { messages = ms; fetched = b.fetched + 1 + 1 })
      (update_at-update_at m.idx n.idx (fill_body u) (fill_body v) b.messages ne)

-- no two needs are of the same message
abbrev pub IsDistinct : List Need → Type 0
IsDistinct [] = Unit
IsDistinct (n ∷ ns) = All (λ m. n.idx ≢ m.idx) ns × IsDistinct ns

perm-IsDistinct : {ms ns : List Need} → Permᴰ ms ns → IsDistinct ms → IsDistinct ns
perm-IsDistinct Permᴰ.nil h = h
perm-IsDistinct (Permᴰ.cons {a = a} {l₂ = ns} e d) h =
    subst (λ x. IsDistinct (x ∷ ns)) e
      (All-perm (λ (m : Need). a.idx ≢ m.idx) d h.0, perm-IsDistinct d h.1)
perm-IsDistinct (Permᴰ.swap {b = b} {b' = b'} {l = l} d e) h =
    subst (λ x. IsDistinct (x ∷ b' ∷ l)) e
      (subst (λ y. IsDistinct (b ∷ y ∷ l)) d ((λ q. h.0.0 (sym q), h.1.0), (h.0.1, h.1.1)))
perm-IsDistinct (Permᴰ.trans d e) h = perm-IsDistinct e (perm-IsDistinct d h)

-- each need with the answer that its message has
abbrev pub answered : (ℤ → Result Value) → List Need → List (Need × Result Value)
answered answer [] = []
answered answer (n ∷ ns) = (n, answer n.id) ∷ answered answer ns

deliver_each-perm :
    (answer : ℤ → Result Value) {ms ns : List Need} (b : Backfill)
    → Permᴰ ms ns
    → IsDistinct ms
    → deliver_each (answered answer ms) b ≡ deliver_each (answered answer ns) b
unfolding deliver_each
deliver_each-perm answer b Permᴰ.nil h = refl
deliver_each-perm answer b (Permᴰ.cons {a = m} {l₂ = ns} e d) h =
    deliver_each-perm answer (deliver_body m (answer m.id) b) d h.1
    ∙ ap (λ (n : Need). deliver_each (answered answer ns) (deliver_body n (answer n.id) b)) e
deliver_each-perm answer b (Permᴰ.swap {a = m} {b = n} {a' = n'} {l = l} d e) h =
    ap (deliver_each (answered answer l))
      (deliver_body-deliver_body n m (answer n.id) (answer m.id) b (λ q. h.0.0 (sym q)) (ap answer))
    ∙ ap
        (λ (k : Need).
          deliver_each (answered answer l)
            (deliver_body m (answer m.id) (deliver_body k (answer k.id) b)))
        e
    ∙ ap
        (λ (k : Need).
          deliver_each (answered answer l)
            (deliver_body k (answer k.id) (deliver_body n' (answer n'.id) b)))
        d
deliver_each-perm answer b (Permᴰ.trans d e) h =
    deliver_each-perm answer b d h ∙ deliver_each-perm answer b e (perm-IsDistinct d h)

-- the loop over the messages has one need for a message at most
later_needs : (i j : ℕ) (ms : List Fields) → i < j → All (λ (n : Need). i ≢ n.idx) (needs_from j ms)
unfolding needs_from
later_needs i j [] h = tt
later_needs i j (m ∷ ms) h = ground (arith, later_needs i (suc j) ms)

needs_from-IsDistinct : (i : ℕ) (ms : List Fields) → IsDistinct (needs_from i ms)
unfolding needs_from
needs_from-IsDistinct i [] = tt
needs_from-IsDistinct i (m ∷ ms) =
    ground (arith, later_needs i (suc i) ms (omega arith), needs_from-IsDistinct (suc i) ms)

All-take : (P : Need → Type 0) (n : ℕ) (ns : List Need) → All P ns → All P (take n ns)
All-take P zero ns h = tt
All-take P (suc n) [] h = tt
All-take P (suc n) (m ∷ ns) h = (h.0, All-take P n ns h.1)

take-IsDistinct : (n : ℕ) (ns : List Need) → IsDistinct ns → IsDistinct (take n ns)
take-IsDistinct zero ns h = tt
take-IsDistinct (suc n) [] h = tt
take-IsDistinct (suc n) (m ∷ ns) h =
    (All-take (λ k. m.idx ≢ k.idx) n ns h.0, take-IsDistinct n ns h.1)

cap_needs-IsDistinct : (cap : ℤ) (ns : List Need) → IsDistinct ns → IsDistinct (cap_needs cap ns).0
unfolding cap_needs
cap_needs-IsDistinct (pos n) ns h = ground (arith, take-IsDistinct n ns h)
cap_needs-IsDistinct (negsuc n) ns h = h

ask_each-answered :
    {Db : Type 0} (ask : Need → Tool Db Value) (answer : ℤ → Result Value)
    → ((n : Need) (w : World Db) → (ask n w).1 ≡ answer n.id)
    → (ns : List Need) (w : World Db) → (ask_each ask ns w).1 ≡ answered answer ns
unfolding ask_each
ask_each-answered ask answer asks [] w = refl
ask_each-answered ask answer asks (n ∷ ns) w =
    ap (λ r. (n, r) ∷ (ask_each ask ns (ask n w).0).1) (asks n w)
    ∙ ap (λ l. (n, answer n.id) ∷ l) (ask_each-answered ask answer asks ns (ask n w).0)

-- If the answer to a request for a body depends on the message's id alone, then the messages, the
-- counts and the errors behind the backfill are the same in whatever order the goroutines run.
pub backfill-any_order :
    {Db : Type 0} (ask : Need → Tool Db Value) (answer : ℤ → Result Value) (max_bodies : ℤ)
    (ms : List Fields) (ns : List Need) (w : World Db)
    → ((n : Need) (w' : World Db) → (ask n w').1 ≡ answer n.id)
    → Permᴰ (cap_needs max_bodies (needs_from 0 ms)).0 ns
    → deliver_each (ask_each ask ns w).1 (no_backfill ms)
      ≡ deliver_each (ask_each ask (cap_needs max_bodies (needs_from 0 ms)).0 w).1 (no_backfill ms)
backfill-any_order ask answer max_bodies ms ns w asks d =
    let needs = (cap_needs max_bodies (needs_from 0 ms)).0 in
    ap (λ l. deliver_each l (no_backfill ms)) (ask_each-answered ask answer asks ns w)
    ∙ sym (
        deliver_each-perm answer (no_backfill ms) d
          (cap_needs-IsDistinct max_bodies (needs_from 0 ms) (needs_from-IsDistinct 0 ms)))
    ∙ ap (λ l. deliver_each l (no_backfill ms)) (sym (ask_each-answered ask answer asks needs w))

-- ===== src/Tools/Mail/Paging/Laws.antt =====
-- The paging loop collects what passes its filter, in the mailbox's order, up to its cap.
use mathlib.Core.List.{List}
use mcp_pipedrive.Tools.Common.{Tool}
use mcp_pipedrive.Client.Exchange.{World}
use mcp_pipedrive.Prelude.{
  Bool, Option, arith, false, length, refl, some, suc, true, zero, ℕ, ◌<◌, ◌≡◌, Bool-cases, ap, inl,
  inr, sym, ◌∙◌, none, All, [], ◌≤◌,
}
use mcp_pipedrive.Prelude.Int.{ℤ}
use mcp_pipedrive.Result.{Result, ok}
use mcp_pipedrive.Tools.Mail.Paging.{
  Filter, Paged, Scanned, after_page, ended, iterate_pages, scan, stops, wanted,
}
use mcp_pipedrive.Value.{Value}
use mcp_pipedrive.Tools.Mail.{extract_mail_pagination}
use mcp_pipedrive.Tools.Mail.Paging.Scanning.{scan-room, scan-bounded, scan-wanted}
use mcp_pipedrive.Tools.Steps.{continue_with-ok}
use mathlib.Core.Bool.{false≢true}
use mathlib.Core.Path.{subst}

pub ended-collected :
    {A : Type 0} (f : Filter A) (s : Scanned A) (page : Bool × ℤ)
    → (ended f s page).collected ≡ s.collected
ended-collected f s page = ground arith

abbrev paged_or : {A : Type 0} → Paged A → Result (Option (Paged A)) → Paged A
paged_or p (ok (some q)) = q
paged_or p _ = p

abbrev pub has_ended : {A : Type 0} → Result (Option (Paged A)) → Bool
has_ended (ok none) = false
has_ended _ = true

module _ {Db A : Type 0} (f : Filter A) where
  -- a loop that has ended with some items
  abbrev pub Collects : World Db × Result (Option (Paged A)) → List A → Type 0
  Collects r target = (p : Paged A) × ((r.1 ≡ ok (some p)) × (p.collected ≡ target))

  pub stopped :
      (next_round : ℤ → List A → Tool Db (Option (Paged A))) (s : Scanned A) (page : Bool × ℤ)
      (w : World Db)
      → stops f s page ≡ true
      → after_page f next_round s page w ≡ (w, ok (some (ended f s page)))
  unfolding after_page
  stopped next_round s page w e = rw (e, after_page) refl

  pub onward :
      (next_round : ℤ → List A → Tool Db (Option (Paged A))) (s : Scanned A) (page : Bool × ℤ)
      (w : World Db)
      → stops f s page ≡ false
      → after_page f next_round s page w ≡ next_round page.1 s.collected w
  unfolding after_page
  onward next_round s page w e = rw (e, after_page) refl

  after_page-keeps :
      (P : List A → Type 0) (next_round : ℤ → List A → Tool Db (Option (Paged A))) (p : Paged A)
      → ((cursor : ℤ) (got : List A) (w : World Db)
          → length got < f.hard_cap
          → P got
          → (next_round cursor got w).1 ≡ ok (some p)
          → P p.collected)
      → (s : Scanned A) (page : Bool × ℤ) (w : World Db)
      → (s.full ≡ false → length s.collected < f.hard_cap)
      → P s.collected
      → (after_page f next_round s page w).1 ≡ ok (some p)
      → P p.collected
  after_page-keeps P next_round p later s page w room k e = elim (Bool-cases (stops f s page)) [
    | inl end_here ↦
        let same =
          ap (paged_or p) (sym (ap (λ r. r.1) (stopped next_round s page w end_here)) ∙ e) in
        subst P (sym (ended-collected f s page) ∙ ap (λ q. q.collected) same) k
    | inr go_on ↦
        later page.1 s.collected w (room (ground arith)) k
          (sym (ap (λ r. r.1) (onward next_round s page w go_on)) ∙ e)
  ]

  module _ (fetch : ℤ → Tool Db Value) where
    -- what every page keeps is true of the result
    pub iterate_pages-keeps :
        (P : List A → Type 0)
        → ((xs got : List A) → length got < f.hard_cap → P got → P (scan f xs got false).collected)
        → (fuel : ℕ) (cursor : ℤ) (got : List A) (w : World Db) (p : Paged A)
        → length got < f.hard_cap
        → P got
        → (iterate_pages f fetch fuel cursor got w).1 ≡ ok (some p)
        → P p.collected
    unfolding iterate_pages
    iterate_pages-keeps P keep_page zero cursor got w p h k e = absurd (false≢true (ap has_ended e))
    iterate_pages-keeps P keep_page (suc fuel) cursor got w p h k e =
        let (payload, (e1, e2)) = continue_with-ok (fetch cursor w) _ (some p) e in
        after_page-keeps P (λ next l. iterate_pages f fetch fuel next l) p
          (λ next l w' h' k'. iterate_pages-keeps P keep_page fuel next l w' p h' k')
          (scan f (f.items payload) got false) (extract_mail_pagination payload) (fetch cursor w).0
          (λ room. (scan-room f (f.items payload) got false h room).1)
          (keep_page (f.items payload) got h k) (sym (ap (λ r. r.1) e2) ∙ e)

    -- Whatever the upstream answers, what the paging loop returns passes its filter, and is at most
    -- as much as its cap, where the cap is positive.
    pub iterate_pages-wanted :
        (fuel : ℕ) (cursor : ℤ) (w : World Db) (p : Paged A)
        → 0 < f.hard_cap
        → (iterate_pages f fetch fuel cursor [] w).1 ≡ ok (some p)
        → All (λ x. f.verdict x ≡ wanted) p.collected × (length p.collected ≤ f.hard_cap)
    iterate_pages-wanted fuel cursor w p h e =
        iterate_pages-keeps (λ l. All (λ x. f.verdict x ≡ wanted) l × (length l ≤ f.hard_cap))
          (λ xs got room k. (scan-wanted f xs got false k.0, scan-bounded f xs got false room)) fuel
          cursor [] w p h (tt, omega arith) e

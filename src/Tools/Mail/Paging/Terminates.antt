-- ===== src/Tools/Mail/Paging/Terminates.antt =====
-- The paging loop ends when the upstream's pages move forward to an end.
use mathlib.Core.List.{List, []}
use mcp_pipedrive.Tools.Common.{Tool}
use mathlib.Core.Bool.{false≢true}
use mcp_pipedrive.Client.Exchange.{World}
use mcp_pipedrive.Prelude.{
  Bool, Bool-cases, Option, ap, arith, false, inl, inr, none, suc, sym, zero, ℕ, ◌+◌, ◌<◌, ◌∙◌, ◌≡◌,
  ◌≢◌, ◌≤◌, ◌⊎◌, true,
}
use mcp_pipedrive.Prelude.Int.{pos, ℤ}
use mcp_pipedrive.Result.{Error, err, ok, Result}
use mcp_pipedrive.Tools.Mail.{extract_mail_pagination}
use mcp_pipedrive.Tools.Mail.Paging.{Filter, Paged, Scanned, after_page, iterate_pages, stops, scan}
use mcp_pipedrive.Tools.Mail.Paging.Laws.{onward, stopped, has_ended}
use mcp_pipedrive.Value.{Value}
use mathlib.Core.Path.{subst}
use mcp_pipedrive.Tools.Steps.{continue_with-ok, err≢ok}

-- every page fails, is the last one, or names a later start that is within a total
abbrev pub Advances : {Db : Type 0} → (ℤ → Tool Db Value) → ℕ → Type 0
Advances {Db = Db} fetch total =
    (n : ℕ) (w : World Db)
    → ((e : Error) × ((fetch (pos n) w).1 ≡ err e))
      ⊎ ((page : Value) × ((fetch (pos n) w).1 ≡ ok page)
          × (((extract_mail_pagination page).0 ≡ false)
              ⊎ ((m : ℕ) × ((extract_mail_pagination page).1 ≡ pos m) × (n < m) × (m ≤ total))))

abbrev payload_or : Value → Result Value → Value
payload_or page (ok payload) = payload
payload_or page (err e) = page

module _ {Db A : Type 0} (f : Filter A) (fetch : ℤ → Tool Db Value) where
  stops_at_last : (s : Scanned A) (page : Bool × ℤ) → page.0 ≡ false → stops f s page ≡ true
  stops_at_last s page last = ground arith

  page_ends :
      (next_round : ℤ → List A → Tool Db (Option (Paged A))) (s : Scanned A) (page : Bool × ℤ)
      (w : World Db)
      → ((got : List A) → (next_round page.1 got w).1 ≢ ok none) ⊎ (page.0 ≡ false)
      → (after_page f next_round s page w).1 ≢ ok none
  page_ends next_round s page w later e = elim (Bool-cases (stops f s page)) [
    | inl d ↦ false≢true (ap has_ended (sym e ∙ ap (λ r. r.1) (stopped f next_round s page w d)))
    | inr d ↦ elim later [
      | inl k ↦ k s.collected (sym (ap (λ r. r.1) (onward f next_round s page w d)) ∙ e)
      | inr last ↦ false≢true (sym d ∙ stops_at_last s page last)
    ]
  ]

  rounds_end :
      (total : ℕ)
      → Advances fetch total
      → (fuel n : ℕ) (got : List A) (w : World Db) → 0 < fuel
      → total < n + fuel
      → (iterate_pages f fetch fuel (pos n) got w).1 ≢ ok none
  unfolding iterate_pages
  rounds_end total advances zero n got w some_fuel enough e = absurd (omega (arith, some_fuel))
  rounds_end total advances (suc fuel) n got w some_fuel enough e =
      let (payload, (e1, e2)) = continue_with-ok (fetch (pos n) w) _ none e in
      let next_round = λ (next : ℤ) (l : List A). iterate_pages f fetch fuel next l in
      let later : ((l : List A)
            → (next_round (extract_mail_pagination payload).1 l (fetch (pos n) w).0).1 ≢ ok none)
          ⊎ ((extract_mail_pagination payload).0 ≡ false) =
        elim (advances n w) [
          | inl (failure, e3) ↦ absurd (err≢ok (sym e3 ∙ e1))
          | inr (page, e3, more) ↦
              let same : page ≡ payload = ap (payload_or page) (sym e3 ∙ e1) in
              elim more [
                | inl last ↦ inr (ap (λ q. (extract_mail_pagination q).0) (sym same) ∙ last)
                | inr (m, e4, l, k) ↦ inl (λ got'.
                    subst (λ cursor. (next_round cursor got' (fetch (pos n) w).0).1 ≢ ok none)
                      (sym e4 ∙ ap (λ q. (extract_mail_pagination q).1) same)
                      (rounds_end total advances fuel m got' (fetch (pos n) w).0
                        (omega (arith, enough, l, k)) (omega (arith, enough, l, k))))
              ]
        ] in
      page_ends next_round (scan f (f.items payload) got false) (extract_mail_pagination payload)
        (fetch (pos n) w).0 later (sym (ap (λ r. r.1) e2) ∙ e)

  -- The paging loop ends, whatever its filter, if each page that the upstream answers is the last
  -- one or names a later start within a total: as many rounds as the total and one more are enough.
  pub iterate_pages-ends :
      (total fuel start : ℕ) (w : World Db)
      → Advances fetch total
      → total < fuel
      → (iterate_pages f fetch fuel (pos start) [] w).1 ≢ ok none
  iterate_pages-ends total fuel start w advances enough =
      rounds_end total advances fuel start [] w (omega (arith, enough)) (omega (arith, enough))

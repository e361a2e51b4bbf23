-- ===== src/Tools/Mail/Paging/Refines.antt =====
-- The paging loop against its specification: the first entries of a mailbox that pass the filter.
use mathlib.Core.List.{List, [], ◌∷◌, ◌++◌, append_assoc, append-nil}
use mcp_pipedrive.Tools.Common.{Tool, continue_with}
use mcp_pipedrive.Client.Exchange.{World}
use mcp_pipedrive.Prelude.{
  Bool, Option, ap, drop, false, length, ltb, suc, take, true, zero, ℕ, ◌+◌, ◌<◌, ◌≤◌, ◌∙◌, ◌≡◌,
  Bool-cases, arith, drop-drop, drop_all, inl, inr, keep-append, refl, sym, take-append-drop,
  take_all, ltb→lt,
}
use mcp_pipedrive.Prelude.Int.{pos, ℤ}
use mcp_pipedrive.Result.{ok}
use mcp_pipedrive.Tools.Mail.{extract_mail_pagination}
use mcp_pipedrive.Tools.Mail.Paging.{
  Filter, Paged, Scanned, Verdict, after_page, ended, iterate_pages, scan, stops,
}
use mcp_pipedrive.Tools.Mail.Paging.Laws.{Collects, stopped, ended-collected, onward}
use mcp_pipedrive.Tools.Mail.Paging.Scanning.{
  IsNewestFirst, scan-full, scan-past, scan-room, wanted_of,
}
use mcp_pipedrive.Value.{Value}
use mathlib.Core.Path.{subst}

later-IsNewestFirst :
    {A : Type 0} (v : A → Verdict) (n : ℕ) (xs : List A)
    → IsNewestFirst v xs
    → IsNewestFirst v (drop n xs)
later-IsNewestFirst v zero xs h = h
later-IsNewestFirst v (suc n) [] h = h
later-IsNewestFirst v (suc n) (x ∷ xs) h = later-IsNewestFirst v n xs h.1

-- An upstream that serves a mailbox in pages of a per_page: from a position and in a world in which
-- it is `Ready` it answers with the page there; behind it, it says where the next page begins and is
-- ready for that one, or says that there is none.
abbrev pub Serves :
    {Db A : Type 0}
    → (ℕ → World Db → Type 0)
    → (Value → List A)
    → (ℤ → Tool Db Value)
    → ℕ
    → List A
    → Type 0
Serves {Db = Db} Ready items fetch per_page mailbox =
    (n : ℕ) (w : World Db)
    → Ready n w
    → (page : Value) × (w' : World Db) × (fetch (pos n) w ≡ (w', ok page))
      × (items page ≡ take per_page (drop n mailbox))
      × (n + per_page < length mailbox
          → (extract_mail_pagination page ≡ (true, pos (n + per_page))) × Ready (n + per_page) w')
      × (length mailbox ≤ n + per_page → (extract_mail_pagination page).0 ≡ false)

module _ {A : Type 0} (f : Filter A) where
  module _ (per_page n : ℕ) (mailbox got : List A) where
    abbrev page_items : List A
    page_items = take per_page (drop n mailbox)

    abbrev scanned : Scanned A
    scanned = scan f page_items got false

    abbrev target : List A
    target = take f.hard_cap (got ++ wanted_of f (drop n mailbox))

    cut :
        wanted_of f (drop n mailbox)
        ≡ wanted_of f page_items ++ wanted_of f (drop (n + per_page) mailbox)
    cut =
        ap (wanted_of f) (sym (take-append-drop per_page (drop n mailbox)))
        ∙ keep-append _ page_items (drop per_page (drop n mailbox))
        ∙ ap (λ l. wanted_of f page_items ++ wanted_of f l)
            (drop-drop n per_page (n + per_page) mailbox refl)

    -- the page has filled the cap
    target_full : length got < f.hard_cap → scanned.full ≡ true → scanned.collected ≡ target
    target_full room e =
        scan-full f page_items got (wanted_of f (drop (n + per_page) mailbox)) false room e
        ∙ ap (λ l. take f.hard_cap (got ++ l)) (sym cut)

    -- the page has left room
    so_far :
        length got < f.hard_cap
        → scanned.full ≡ false
        → scanned.collected ++ wanted_of f (drop (n + per_page) mailbox)
          ≡ got ++ wanted_of f (drop n mailbox)
    so_far room e =
        ap (λ l. l ++ wanted_of f (drop (n + per_page) mailbox))
          (scan-room f page_items got false room e).0
        ∙ append_assoc got (wanted_of f page_items) (wanted_of f (drop (n + per_page) mailbox))
        ∙ ap (λ l. got ++ l) (sym cut)

    target_last :
        length got < f.hard_cap
        → scanned.full ≡ false
        → wanted_of f (drop (n + per_page) mailbox) ≡ []
        → scanned.collected ≡ target
    target_last room e nothing =
        let whole : scanned.collected ≡ got ++ wanted_of f (drop n mailbox) =
          sym (append-nil scanned.collected)
          ∙ ap (λ l. scanned.collected ++ l) (sym nothing)
          ∙ so_far room e in
        sym (
          take_all f.hard_cap scanned.collected
            (omega (arith, (scan-room f page_items got false room e).1)))
        ∙ ap (take f.hard_cap) whole

    newest_there :
        IsNewestFirst f.verdict (drop n mailbox)
        → IsNewestFirst f.verdict (page_items ++ drop (n + per_page) mailbox)
    newest_there h =
        subst (IsNewestFirst f.verdict)
          (sym (take-append-drop per_page (drop n mailbox))
            ∙ ap (λ l. page_items ++ l) (drop-drop n per_page (n + per_page) mailbox refl))
          h

module _ {Db A : Type 0} (f : Filter A) where
  finish :
      (next_round : ℤ → List A → Tool Db (Option (Paged A))) (s : Scanned A) (page : Bool × ℤ)
      (w : World Db) (items : List A)
      → stops f s page ≡ true
      → s.collected ≡ items
      → Collects f (after_page f next_round s page w) items
  finish next_round s page w items e k = (
    ended f s page,
    (ap (λ r. r.1) (stopped f next_round s page w e), ended-collected f s page ∙ k),
  )

  module _ (per_page n : ℕ) (mailbox got : List A) where
    -- behind the page, if the later rounds do their part
    round :
        (next_round : ℤ → List A → Tool Db (Option (Paged A))) (page : Bool × ℤ) (w : World Db)
        → f.single_page ≡ false
        → (n + per_page < length mailbox → page ≡ (true, pos (n + per_page)))
        → (length mailbox ≤ n + per_page → page.0 ≡ false)
        → length got < f.hard_cap
        → IsNewestFirst f.verdict (drop n mailbox)
        → (n + per_page < length mailbox
            → length (scanned f per_page n mailbox got).collected < f.hard_cap
            → Collects f
                (next_round (pos (n + per_page)) (scanned f per_page n mailbox got).collected w)
                (take f.hard_cap (
                  (scanned f per_page n mailbox got).collected
                  ++ wanted_of f (drop (n + per_page) mailbox))))
        → Collects f
            (after_page f next_round (scanned f per_page n mailbox got) page w)
            (target f per_page n mailbox got)
    round next_round page w one more last room newest later =
        let s = scanned f per_page n mailbox got in
        elim (Bool-cases s.full) [
          | inl e ↦
              finish next_round s page w _ (ground arith)
                (target_full f per_page n mailbox got room e)
          | inr e ↦ elim (Bool-cases s.past_cutoff) [
            | inl d ↦ finish next_round s page w _ (ground arith) (
                target_last f per_page n mailbox got room e (
                  scan-past f (page_items f per_page n mailbox got) (drop (n + per_page) mailbox)
                    got false (newest_there f per_page n mailbox got newest) (inl refl) d))
            | inr d ↦ elim (Bool-cases (ltb (n + per_page) (length mailbox))) [
              | inr c ↦ finish next_round s page w _ (ground (arith, last (ground arith))) (
                  target_last f per_page n mailbox got room e
                    (ap (wanted_of f) (drop_all (n + per_page) mailbox (ground arith))))
              | inl c ↦
                  subst (λ r. Collects f r (target f per_page n mailbox got))
                    (sym (
                      ap (λ p. after_page f next_round s p w) (more (ltb→lt _ _ c))
                      ∙ onward f next_round s _ w (ground arith)))
                    (subst (λ t. Collects f (next_round (pos (n + per_page)) s.collected w) t)
                      (ap (take f.hard_cap) (so_far f per_page n mailbox got room e))
                      (later (ltb→lt _ _ c)
                        (scan-room f (page_items f per_page n mailbox got) got false room e).1))
            ]
          ]
        ]

  module _ (Ready : ℕ → World Db → Type 0) (fetch : ℤ → Tool Db Value) where
    serve :
        (per_page : ℕ) (mailbox : List A)
        → Serves Ready f.items fetch per_page mailbox
        → 0 < per_page
        → f.single_page ≡ false
        → (fuel n : ℕ) (got : List A) (w : World Db) → Ready n w
        → 0 < fuel
        → length mailbox < n + fuel
        → length got < f.hard_cap
        → IsNewestFirst f.verdict (drop n mailbox)
        → Collects f
            (iterate_pages f fetch fuel (pos n) got w)
            (take f.hard_cap (got ++ wanted_of f (drop n mailbox)))
    unfolding iterate_pages
    serve per_page mailbox served h one zero n got w ready some_fuel enough room newest =
        absurd (omega (arith, some_fuel))
    serve per_page mailbox served h one (suc fuel) n got w ready some_fuel enough room newest =
        let (page, w', e1, e2, more_pages, last) = served n w ready in
        let pg = extract_mail_pagination page in
        let next_round = λ (next : ℤ) (l : List A). iterate_pages f fetch fuel next l in
        subst (λ r. Collects f r (target f per_page n mailbox got))
          (sym (
            ap
              (λ r. continue_with r (λ payload.
                after_page f next_round (scan f (f.items payload) got false)
                  (extract_mail_pagination payload)))
              e1
            ∙ ap (λ l. after_page f next_round (scan f l got false) pg w') e2))
          (round per_page n mailbox got next_round pg w' one (λ m. (more_pages m).0) last room
            newest
            (λ more room'.
              serve per_page mailbox served h one fuel (n + per_page) _ w' (more_pages more).1
                (omega (arith, enough, more, h)) (omega (arith, enough, more, h)) room'
                (subst (IsNewestFirst f.verdict) (drop-drop n per_page (n + per_page) mailbox refl)
                  (later-IsNewestFirst f.verdict per_page (drop n mailbox) newest))))

    -- For a filter that goes on to the next page (dealMailFetch only goes on with a `since`), and
    -- against an upstream that is ready to serve a mailbox in pages from the start on, newest
    -- entries first, the paging loop returns, with as much fuel as the mailbox has entries and one
    -- more, the first entries from the start on that pass the filter, as many as the cap allows,
    -- and no other.
    pub iterate_pages-Refines :
        (per_page : ℕ) (mailbox : List A) (start fuel : ℕ) (w : World Db)
        → Serves Ready f.items fetch per_page mailbox
        → Ready start w
        → 0 < per_page
        → 0 < f.hard_cap
        → f.single_page ≡ false
        → IsNewestFirst f.verdict mailbox
        → length mailbox < fuel
        → Collects f
            (iterate_pages f fetch fuel (pos start) [] w)
            (take f.hard_cap (wanted_of f (drop start mailbox)))
    iterate_pages-Refines per_page mailbox start fuel w served ready h cap one newest enough =
        serve per_page mailbox served h one fuel start [] w ready (omega (arith, enough))
          (omega (arith, enough)) (omega (arith, cap))
          (later-IsNewestFirst f.verdict start mailbox newest)

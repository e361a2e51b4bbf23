-- ===== src/Tools/Batch/Laws.antt =====
-- What a batch reports, and how much it sends.
use mathlib.Core.List.{List, [], ◌∷◌}
use mathlib.Core.Path.{subst}
use mcp_pipedrive.Client.{Client, ApiVersion, Request, new_request}
use mcp_pipedrive.Tools.Common.{Tool, continue_with, lift, request}
use mcp_pipedrive.Tools.Batch.{
  ActivitiesCreateParams, Batch, BatchItemResult, Outcome, batch_loop, after_item, create_unless,
  count_item, created, refused, activity_create_body, no_results, outcome_of,
}
use mathlib.Core.Bool.{false≢true}
use mcp_pipedrive.Client.Exchange.{Services, World, do_json}
use mcp_pipedrive.Prelude.{
  Bool, Option, ap, arith, false, inl, inr, length, refl, suc, sym, true, ℕ, ◌+◌, ◌∙◌, ◌≡◌, ◌≤◌,
  ◌⊎◌, if◌then◌else◌, none, not, some, keep,
}
use mcp_pipedrive.Result.{Error, Result, err, ok, message}
use mcp_pipedrive.Tools.Steps.{continue_with-ok}
use mcp_pipedrive.Prelude.Text.{is_set}
use mcp_pipedrive.Query.{Query, empty}
use mcp_pipedrive.Value.{obj}
use mcp_pipedrive.Client.Requests.{do_json_lem}
use mcp_pipedrive.Tools.Mail.Paging.Laws.{stopped}

-- the results carry their items' positions, from the given one on
abbrev pub AreNumbered : ℕ → List BatchItemResult → Type 0
AreNumbered i [] = Unit
AreNumbered i (r ∷ rs) = (r.index ≡ i) × AreNumbered (suc i) rs

-- how many of the results hold an activity, and how many an error
abbrev pub is_created : BatchItemResult → Bool
is_created r = elim r.outcome [ created a ↦ true | refused e ↦ false ]

abbrev pub count_created : List BatchItemResult → ℕ
count_created rs = length (keep is_created rs)

abbrev pub count_refused : List BatchItemResult → ℕ
count_refused rs = length (keep (λ r. not (is_created r)) rs)

-- a report on so many items
abbrev pub IsReport : ℕ → ℕ → Batch → Type 0
IsReport i items b =
    (b.succeeded ≡ count_created b.results)
    × (b.failed ≡ count_refused b.results)
    × ((length b.results ≤ items) × AreNumbered i b.results)

abbrev batch_or : Batch → Result Batch → Batch
batch_or b (ok b') = b'
batch_or b (err e) = b

count_item-IsReport :
    (i items : ℕ) (o : Outcome) (b : Batch)
    → IsReport (suc i) items b
    → IsReport i (suc items) (count_item i o b)
unfolding count_item
count_item-IsReport i items (created a) b (won, lost, (bound, numbered)) =
    (omega (arith, won), omega (arith, lost), (omega arith, (refl, numbered)))
count_item-IsReport i items (refused e) b (won, lost, (bound, numbered)) =
    (omega (arith, won), omega (arith, lost), (omega arith, (refl, numbered)))

module _ {Db : Type 0} where
  -- behind an item comes the rest, or nothing if the handler stops on errors
  after_item_lem :
      (stop : Bool) (i : ℕ) (rest : Tool Db Batch) (o : Outcome) (w : World Db) (b : Batch)
      → (after_item stop i rest o w).1 ≡ ok b
      → ((b' : Batch) × (((rest w).1 ≡ ok b') × (count_item i o b' ≡ b)))
        ⊎ ((stop ≡ true) × (count_item i o no_results ≡ b))
  unfolding after_item
  after_item_lem stop i rest (created a) w b h =
      let (b', (ran, step)) =
        continue_with-ok (rest w) (λ b. lift (ok (count_item i (created a) b))) b h in
      inl (b', (ran, ap (batch_or b) (sym (ap (λ r. r.1) step) ∙ h)))
  after_item_lem true i rest (refused e) w b h = inr (refl, ap (batch_or b) h)
  after_item_lem false i rest (refused e) w b h =
      let (b', (ran, step)) =
        continue_with-ok (rest w) (λ b. lift (ok (count_item i (refused e) b))) b h in
      inl (b', (ran, ap (batch_or b) (sym (ap (λ r. r.1) step) ∙ h)))

  after_item-sent :
      (stop : Bool) (i n : ℕ) (rest : Tool Db Batch) (o : Outcome) (w : World Db)
      → length (rest w).0.sent ≤ length w.sent + n
      → length (after_item stop i rest o w).0.sent ≤ length w.sent + n
  unfolding after_item
  after_item-sent stop i n rest (created a) w h = through (rest w) h
    where
      through :
          (r : World Db × Result Batch)
          → length r.0.sent ≤ length w.sent + n
          → length (continue_with r (λ b. lift (ok (count_item i (created a) b)))).0.sent
            ≤ length w.sent + n
      through (w', ok b) k = k
      through (w', err e) k = k
  after_item-sent true i n rest (refused e) w h = omega arith
  after_item-sent false i n rest (refused e) w h = through (rest w) h
    where
      through :
          (r : World Db × Result Batch)
          → length r.0.sent ≤ length w.sent + n
          → length (continue_with r (λ b. lift (ok (count_item i (refused e) b)))).0.sent
            ≤ length w.sent + n
      through (w', ok b) k = k
      through (w', err e) k = k

module _ {Db : Type 0} (services : Services Db) (ctx_err : ℕ → Option Error) where
  -- A batch that ends in a report counts as succeeded the results that hold an activity, and as
  -- failed those that hold an error; it has at most one result for each item, and numbers the
  -- results in the items' order from the first on.
  pub batch_loop-IsReport :
      (c : Client) (stop : Bool) (items : List ActivitiesCreateParams) (i : ℕ) (w : World Db)
      (b : Batch)
      → (batch_loop services ctx_err c stop items i w).1 ≡ ok b
      → IsReport i (length items) b
  unfolding batch_loop
  batch_loop-IsReport c stop [] i w b h =
      subst (λ b. IsReport i 0 b) (ap (batch_or b) h) (refl, refl, (omega arith, tt))
  batch_loop-IsReport c stop (item ∷ more) i w b h =
      let rest = λ (w' : World Db). batch_loop services ctx_err c stop more (suc i) w' in
      let r = create_unless services ctx_err c item (ctx_err w.now) w in
      let (o, (made, step)) = continue_with-ok r (after_item stop i rest) b h in
      elim (after_item_lem stop i rest o r.0 b (sym (ap (λ r. r.1) step) ∙ h)) [
        | inl (b', (ran, e)) ↦
            subst (λ b. IsReport i (suc (length more)) b) e
              (count_item-IsReport i (length more) o b'
                (batch_loop-IsReport c stop more (suc i) r.0 b' ran))
        | inr (stopped, e) ↦
            subst (λ b. IsReport i (suc (length more)) b) e
              (count_item-IsReport i (length more) o no_results (refl, refl, (omega arith, tt)))
      ]

  -- Without stop_on_error a batch that ends in a report has a result for every item.
  pub batch_loop-all :
      (c : Client) (items : List ActivitiesCreateParams) (i : ℕ) (w : World Db) (b : Batch)
      → (batch_loop services ctx_err c false items i w).1 ≡ ok b
      → length b.results ≡ length items
  unfolding batch_loop count_item
  batch_loop-all c [] i w b h = ap (λ b. length b.results) (sym (ap (batch_or b) h))
  batch_loop-all c (item ∷ more) i w b h =
      let rest = λ (w' : World Db). batch_loop services ctx_err c false more (suc i) w' in
      let r = create_unless services ctx_err c item (ctx_err w.now) w in
      let (o, (made, step)) = continue_with-ok r (after_item false i rest) b h in
      elim (after_item_lem false i rest o r.0 b (sym (ap (λ r. r.1) step) ∙ h)) [
        | inl (b', (ran, e)) ↦
            sym (ap (λ b. length b.results) e)
            ∙ counted o b'
            ∙ ap suc (batch_loop-all c more (suc i) r.0 b' ran)
        | inr (stopped, e) ↦ absurd (false≢true stopped)
      ]
    where
      counted :
          (o : Outcome) (b' : Batch) → length (count_item i o b').results ≡ suc (length b'.results)
      counted (created a) b' = refl
      counted (refused e) b' = refl

  create_unless-sent :
      (c : Client) (item : ActivitiesCreateParams) (failure : Option Error) (w : World Db)
      → length (create_unless services ctx_err c item failure w).0.sent ≤ suc (length w.sent)
  unfolding create_unless request
  create_unless-sent c item (some e) w = omega arith
  create_unless-sent c item none w = by_subject (is_set item.subject)
    where
      made : Result (Request × Query)
      made =
          new_request services.url_error c ApiVersion.v2 "POST" "/activities" empty
            (some (obj (activity_create_body item)))

      by_request :
          (r : Result (Request × Query))
          → length
              (continue_with
                (w, r)
                (λ req w'.
                  let (w'', r) = do_json services c req.0 true w' in
                  (w'', ok (outcome_of services ctx_err r)))).0.sent
            ≤ suc (length w.sent)
      by_request (ok req) = (do_json_lem services c req.0 true w).1
      by_request (err e) = omega arith

      by_subject :
          (b : Bool)
          → length
              (if not b
                then (w, ok (refused (message "subject is required")))
                else continue_with
                    (w, made)
                    (λ req w'.
                      let (w'', r) = do_json services c req.0 true w' in
                      (w'', ok (outcome_of services ctx_err r)))).0.sent
            ≤ suc (length w.sent)
      by_subject true = by_request made
      by_subject false = omega arith

  -- A batch sends at most one request for each item.
  pub batch_loop-sent :
      (c : Client) (stop : Bool) (items : List ActivitiesCreateParams) (i : ℕ) (w : World Db)
      → length (batch_loop services ctx_err c stop items i w).0.sent ≤ length w.sent + length items
  unfolding batch_loop
  batch_loop-sent c stop [] i w = omega arith
  batch_loop-sent c stop (item ∷ more) i w =
      through (create_unless services ctx_err c item (ctx_err w.now) w)
        (create_unless-sent c item (ctx_err w.now) w) (batch_loop-sent c stop more (suc i))
    where
      rest : World Db → World Db × Result Batch
      rest w' = batch_loop services ctx_err c stop more (suc i) w'

      through :
          (r : World Db × Result Outcome)
          → length r.0.sent ≤ suc (length w.sent)
          → ((w' : World Db) → length (rest w').0.sent ≤ length w'.sent + length more)
          → length (continue_with r (after_item stop i rest)).0.sent
            ≤ length w.sent + suc (length more)
      through (w', ok o) h ih =
          let k = after_item-sent stop i (length more) rest o w' (ih w') in omega arith
      through (w', err e) h ih = omega arith

-- ===== src/Tools/Limits.antt =====
-- The limit that a listing of persons, organizations or activities reports.
mod Examples
use mathlib.Core.List.{List, [], ◌∷◌}
use mcp_pipedrive.Query.{Query, values}
use mcp_pipedrive.Pagination.{effective_limit}
use mcp_pipedrive.Tools.Common.{Tool, lift, ◌>>=◌, extract_list_data}
use mcp_pipedrive.Tools.Steps.{continue_with-ok, err≢ok}
use mcp_pipedrive.Tools.Resource.{ListReply, cached_read, listed}
use mcp_pipedrive.Prelude.{Bool, Option, ap, refl, some, sym, ◌∙◌, ◌≡◌}
use mcp_pipedrive.Prelude.Int.{format_int, ℤ}
use mcp_pipedrive.Client.{ApiVersion, Client}
use mcp_pipedrive.Client.Exchange.{Services, World}
use mcp_pipedrive.Cache.{CacheMeta, CacheMode}
use mcp_pipedrive.Value.{Value}
use mcp_pipedrive.Result.{Result, err, ok}

-- the query of a listing carries the limit that is reported
abbrev HasLimit : ℤ → Result Query → Type 0
HasLimit limit query =
    (q : Query) → query ≡ ok q → values "limit" q ≡ some (format_int (effective_limit limit) ∷ [])

-- the entries of the reply are of an answer to a query whose limit is the reply's
abbrev pub ReadsWithLimit :
    {Db R : Type 0}
    → (Client → Query → CacheMode → Tool Db (Option CacheMeta × Value))
    → (List Value → List R)
    → World Db
    → ListReply R
    → Type 0
ReadsWithLimit read normalize w r =
    (c : Client) × (q : Query) × (mode : CacheMode) × (answer : Option CacheMeta × Value) × ((read c
        q mode w).1
      ≡ ok answer)
    × (r.items ≡ normalize (extract_list_data answer.1).1)
    × (values "limit" q ≡ some (format_int r.limit ∷ []))

abbrev list_or : {R : Type 0} → ListReply R → Result (ListReply R) → ListReply R
list_or r (ok r') = r'
list_or r (err e) = r

module _ {Db R : Type 0} (normalize : List Value → List R) where
  listing :
      (mode : Result CacheMode) (client : Result Client) (query : Result Query)
      (read : Client → Query → CacheMode → Tool Db (Option CacheMeta × Value)) (include_raw : Bool)
      (limit : ℤ) (w : World Db) (r : ListReply R)
      → HasLimit limit query
      → ((lift mode >>= λ mode. lift client >>= λ c. lift query >>= λ q.
            read c q mode >>= λ answer. lift (ok (listed normalize include_raw limit answer)))
          w).1
        ≡ ok r
      → ReadsWithLimit read normalize w r
  listing (err e) client query read raw limit w r known h = absurd (err≢ok h)
  listing (ok mode) (err e) query read raw limit w r known h = absurd (err≢ok h)
  listing (ok mode) (ok c) (err e) read raw limit w r known h = absurd (err≢ok h)
  listing (ok mode) (ok c) (ok q) read raw limit w r known h =
      let k =
        λ (answer : Option CacheMeta × Value). lift (ok (listed normalize raw limit answer)) in
      let (answer, (asked, step)) = continue_with-ok (read c q mode w) k r h in
      let whole : listed normalize raw limit answer ≡ r =
        ap (list_or r) (sym (ap (λ s. s.1) step) ∙ h) in
      (
        c,
        q,
        mode,
        answer,
        asked,
        ap (λ l. l.items) (sym whole),
        known q refl ∙ ap (λ l. some (format_int l.limit ∷ [])) whole,
      )

module _ {Db : Type 0} (services : Services Db) where
  abbrev pub read_persons : Client → Query → CacheMode → Tool Db (Option CacheMeta × Value)
  read_persons c q mode = cached_read services c ApiVersion.v2 "/persons" (some q) c.ttls.list mode

  abbrev pub read_organizations : Client → Query → CacheMode → Tool Db (Option CacheMeta × Value)
  read_organizations c q mode =
      cached_read services c ApiVersion.v2 "/organizations" (some q) c.ttls.list mode

  abbrev pub read_activities : Client → Query → CacheMode → Tool Db (Option CacheMeta × Value)
  read_activities c q mode =
      cached_read services c ApiVersion.v2 "/activities" (some q) c.ttls.activity mode

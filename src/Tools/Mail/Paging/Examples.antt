-- ===== src/Tools/Mail/Paging/Examples.antt =====
-- mailThreadsList's pages of a folder of 102 threads, the last one too old, that the upstream
-- serves in pages of a hundred by their URL.
use mathlib.Core.List.{List, [], ◌∷◌}
use mcp_pipedrive.Prelude.{
  ℕ, zero, suc, ◌≡◌, refl, length, take, drop, Bool, String, false, if◌then◌else◌, true, ◌⊎◌,
  Option, none, some, ap, arith, inl, inr, sym, ◌+◌, ◌∙◌,
}
use mcp_pipedrive.Tools.Mail.Examples.{since_2024, thread_at}
use mcp_pipedrive.Cache.{mode_bypass}
use mcp_pipedrive.Cache.Memory.{Memory}
use mcp_pipedrive.Client.{new_client, new_request, ensure_leading_slash, with_token}
use mcp_pipedrive.Client.Examples.{answering, test_client, test_world}
use mcp_pipedrive.Client.Exchange.{Services, World, deliver, do_json, do_request, read_json}
use mcp_pipedrive.Client.Fetch.{cached_get, dispatch, pass_on}
use mcp_pipedrive.Client.Limiter.{wait_all}
use mcp_pipedrive.Config.{base_url, resolved_auth_mode}
use mcp_pipedrive.Prelude.Int.{format_int, pos, ℤ}
use mcp_pipedrive.Prelude.Text.{str_eq, trim_right_slash, trim_space}
use mcp_pipedrive.Query.{set, values}
use mcp_pipedrive.Result.{ok}
use mcp_pipedrive.Tools.Common.{Tool, extract_list_data}
use mcp_pipedrive.Tools.Mail.{mail_cached_get, extract_mail_pagination, MailThreadsListParams}
use mcp_pipedrive.Tools.Mail.Threads.{filtered_page, threads_filter}
use mcp_pipedrive.Value.{Value, arr, bool, end, field, get, int64, lookup, obj, of_list, elems}
use mcp_pipedrive.Client.Key.{cache_key}
use mcp_pipedrive.Query.Encode.{encode, query_escape}
use mcp_pipedrive.Query.Sort.{has_prefix, insert_sorted, sort_strings, str_le}
use mathlib.Core.Bool.{false≢true}
use mcp_pipedrive.Tools.Mail.Paging.{iterate_pages}
use mcp_pipedrive.Tools.Mail.Paging.Laws.{Collects}
use mcp_pipedrive.Tools.Mail.Paging.Refines.{Serves, iterate_pages-Refines}
use mcp_pipedrive.Tools.Mail.Paging.Scanning.{IsNewestFirst, is_wanted, wanted_of}

abbrev threads : ℕ → List Value
threads zero = thread_at "2023-11" ∷ []
threads (suc n) = thread_at "2024-02" ∷ threads n

abbrev inbox : List Value
inbox = threads 101

abbrev page_of : List Value → Bool → ℕ → Value
page_of vs more next = obj (
    field "data" (arr (of_list vs)) (
      field "additional_data"
        (obj (
          field "pagination"
            (obj (
              field "more_items_in_collection" (bool more)
                (field "next_start" (int64 (pos next)) end)))
            end))
        end))

abbrev first_page : Value
first_page = page_of (take 100 inbox) true 100

abbrev last_page : Value
last_page = page_of (drop 100 inbox) false 0

abbrev second_url : String
second_url =
    "https://api.pipedrive.com/v1/mailbox/mailThreads?api_token=t&folder=inbox&limit=100&start=100"

abbrev upstream : Services Memory
upstream = record (answering 200) {
  send = λ now sent req.
      (10, ok (record { status_code = 200; status = ""; body = req.url; content_type = "" }));
  decode_json = λ url. ok (if str_eq url second_url then last_page else first_page);
}

-- more than there are
abbrev args : MailThreadsListParams
args = record since_2024 { limit = pos 150 }

abbrev fetch_inbox : ℤ → Tool Memory Value
fetch_inbox = filtered_page upstream test_client args mode_bypass

-- when it was ready to serve a page: at the beginning, or at the next start that it has given
abbrev Ready : ℕ → World Memory → Type 0
Ready n w = (n ≡ 0) ⊎ (n ≡ 100)

inbox_size : length inbox ≡ 102
inbox_size = refl

-- whatever the world; a cache is not asked
first_served :
    (w : World Memory) (cache : Option Memory)
    → (w' : World Memory) × (fetch_inbox (pos 0) (record w { cache = cache }) ≡ (w', ok first_page))
unfolding filtered_page get lookup base_url trim_right_slash set values format_int new_client
    mail_cached_get cached_get dispatch pass_on do_json do_request deliver read_json wait_all
    new_request with_token ensure_leading_slash has_prefix encode query_escape sort_strings
    insert_sorted str_le resolved_auth_mode trim_space cache_key
first_served w none = (_, refl)
first_served w (some db) = (_, refl)

last_served :
    (w : World Memory) (cache : Option Memory)
    → (w' : World Memory) × (fetch_inbox (pos 100) (record w { cache = cache })
        ≡ (w', ok last_page))
unfolding filtered_page get lookup base_url trim_right_slash set values format_int new_client
    mail_cached_get cached_get dispatch pass_on do_json do_request deliver read_json wait_all
    new_request with_token ensure_leading_slash has_prefix encode query_escape sort_strings
    insert_sorted str_le resolved_auth_mode trim_space cache_key
last_served w none = (_, refl)
last_served w (some db) = (_, refl)

elems-of_list : (vs : List Value) → elems (of_list vs) ≡ vs
elems-of_list [] = refl
elems-of_list (v ∷ vs) = ap (λ l. v ∷ l) (elems-of_list vs)

served : Serves Ready (threads_filter args).items fetch_inbox 100 inbox
unfolding get lookup threads_filter extract_list_data extract_mail_pagination
served n w (inl e) =
    let (w', fetched_page) = first_served w w.cache in
    (
      first_page,
      w',
      ap (λ k. fetch_inbox (pos k) w) e ∙ fetched_page,
      elems-of_list (take 100 inbox) ∙ ap (λ k. take 100 (drop k inbox)) (sym e),
      (λ more. (ap (λ k. (true, pos (k + 100))) (sym e), inr (omega (arith, e)))),
      λ end_reached. absurd (omega (arith, e, end_reached, inbox_size)),
    )
served n w (inr e) =
    let (w', fetched_page) = last_served w w.cache in
    (
      last_page,
      w',
      ap (λ k. fetch_inbox (pos k) w) e ∙ fetched_page,
      elems-of_list (drop 100 inbox) ∙ ap (λ k. take 100 (drop k inbox)) (sym e),
      (λ more. absurd (omega (arith, e, more, inbox_size))),
      λ end_reached. refl,
    )

newest_first : (n : ℕ) → IsNewestFirst (threads_filter args).verdict (threads n)
unfolding get lookup threads_filter
newest_first zero = (inr refl, tt)
newest_first (suc n) = (inl (λ e. false≢true (sym (ap is_wanted e))), newest_first n)

iterate_pages-Refines_example :
    Collects
      (threads_filter args)
      (iterate_pages (threads_filter args) fetch_inbox 103 (pos 0) [] (test_world 0))
      (take 150 (wanted_of (threads_filter args) (drop 0 inbox)))
unfolding threads_filter
iterate_pages-Refines_example =
    iterate_pages-Refines (threads_filter args) Ready fetch_inbox 100 inbox 0 103 (test_world 0)
      served (inl refl) (omega arith) (omega arith) refl (newest_first 101)
      (omega (arith, inbox_size))

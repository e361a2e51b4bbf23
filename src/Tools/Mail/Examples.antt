-- ===== src/Tools/Mail/Examples.antt =====
-- The laws of the mail handlers on a mailbox of three threads, the last one too old, that is
-- served in pages of two.
use mathlib.Core.List.{List, [], ◌∷◌, Permᴰ}
use mathlib.Core.Bool.{false≢true}
use mcp_pipedrive.Tools.Common.{gated, on_verdict, client_or_error, extract_list_data, Tool}
use mcp_pipedrive.Client.{new_client, new_request}
use mcp_pipedrive.Cache.{mode_bypass, cache_get, valid_cache_mode}
use mcp_pipedrive.Cache.Memory.{Memory, memory}
use mcp_pipedrive.Client.Examples.{answering, test_client, test_world}
use mcp_pipedrive.Client.Exchange.{Services, deliver, do_json, do_request, read_json}
use mcp_pipedrive.Client.Fetch.{cached_get, dispatch, store}
use mcp_pipedrive.Client.Limiter.{wait_all}
use mcp_pipedrive.Config.{resolved_auth_mode, base_url}
use mcp_pipedrive.Guard.{ensure_tool_allowed}
use mcp_pipedrive.Normalize.Lists.{normalize_list}
use mcp_pipedrive.Normalize.Mail.{normalize_mail_thread_list}
use mcp_pipedrive.Prelude.{
  All, Bool-cases, String, ap, arith, drop, false, inl, inr, length, ltb, none, refl, take, true, ℕ,
  ◌+◌, ◌≡◌, ◌≢◌, ◌≤◌,
}
use mcp_pipedrive.Prelude.Int.{negsuc, pos, ℤ, format_int}
use mcp_pipedrive.Prelude.Text.{str_eq, trim_space, to_lower, trim_right_slash}
use mcp_pipedrive.Result.{ok}
use mcp_pipedrive.Tools.Mail.{
  MailThreadsListParams, extract_mail_pagination, mail_cached_get, to_int64_raw, to_string_raw,
}
use mcp_pipedrive.Tools.Mail.Bodies.{
  Need, ask_each, cap_needs, deliver_each, needs_from, no_backfill, has_body,
}
use mcp_pipedrive.Tools.Mail.Bodies.Keeps.{at_key, backfill_bodies_lem}
use mcp_pipedrive.Tools.Mail.Bodies.Order.{backfill-any_order}
use mcp_pipedrive.Tools.Mail.DealMail.{backfill_bodies}
use mcp_pipedrive.Tools.Mail.Laws.{mail_threads_list-bounded}
use mcp_pipedrive.Tools.Mail.Paging.{Paged, iterate_pages, wanted}
use mcp_pipedrive.Tools.Mail.Paging.Laws.{iterate_pages-wanted}
use mcp_pipedrive.Tools.Mail.Paging.Terminates.{Advances, iterate_pages-ends}
use mcp_pipedrive.Tools.Mail.Threads.{
  ThreadsReply, filtered_page, filtered_pages, mail_threads_list, threads_filter, filtered_reply,
}
use mcp_pipedrive.Value.{
  Fields, Value, arr, bool, end, field, int64, null, obj, of_list, str, get, lookup,
}
use mcp_pipedrive.Tools.Examples.{context_with}
use mcp_pipedrive.Client.Key.{cache_key}
use mcp_pipedrive.Query.{set, values}

abbrev pub thread_at : String → Value
thread_at time = obj (field "last_message_timestamp" (str time) end)

abbrev mailbox : List Value
mailbox = thread_at "2024-03" ∷ thread_at "2024-02" ∷ thread_at "2023-11" ∷ []

abbrev page_at : ℕ → Value
page_at n = obj (
    field "data" (arr (of_list (take 2 (drop n mailbox)))) (
      field "additional_data"
        (obj (
          field "pagination"
            (obj (
              field "more_items_in_collection" (bool (ltb (n + 2) 3))
                (field "next_start" (int64 (pos (n + 2))) end)))
            end))
        end))

abbrev fetch_page : ℤ → Tool Memory Value
fetch_page (pos n) w = (w, ok (page_at n))
fetch_page (negsuc n) w = (w, ok null)

abbrev pub since_2024 : MailThreadsListParams
since_2024 = record {
  folder = "";
  deal_id = pos 0;
  person_id = pos 0;
  start = pos 0;
  limit = pos 10;
  since = "2024";
  unread_only = false;
  fields = "";
  cache_mode = "";
}

advances : Advances fetch_page 3
unfolding get lookup extract_mail_pagination
advances n w = inr (
  page_at n,
  refl,
  elim (Bool-cases (ltb (n + 2) 3)) [
    | inl more ↦ inr (n + 2, refl, omega arith, ground arith)
    | inr last ↦ inl last
  ],
)

iterate_pages-ends_example :
    (iterate_pages (threads_filter since_2024) fetch_page 4 (pos 0) [] (test_world 0)).1 ≢ ok none
iterate_pages-ends_example =
    iterate_pages-ends (threads_filter since_2024) fetch_page 3 4 0 (test_world 0) advances
      (omega arith)

abbrev found_threads : Paged Value
found_threads = record {
  collected = thread_at "2024-03" ∷ thread_at "2024-02" ∷ [];
  more = false;
  next_start = pos 0;
}

iterate_pages-wanted_example :
    All (λ v. (threads_filter since_2024).verdict v ≡ wanted) found_threads.collected
    × (length found_threads.collected ≤ (threads_filter since_2024).hard_cap)
unfolding get lookup iterate_pages threads_filter extract_list_data extract_mail_pagination
iterate_pages-wanted_example =
    iterate_pages-wanted (threads_filter since_2024) fetch_page 4 (pos 0) (test_world 0)
      found_threads (omega arith) refl

abbrev bare_message : ℤ → Fields
bare_message id = field "id" (int64 id) end

abbrev ask_text : Need → Tool Memory Value
ask_text n w = (w, ok (str "b"))

abbrev need_at : ℕ → ℤ → Need
need_at i id = record { idx = i; id = id }

backfill-any_order_example :
    let ms = bare_message (pos 7) ∷ bare_message (pos 8) ∷ [] in
    let first = need_at 0 (pos 7) in
    let second = need_at 1 (pos 8) in
    deliver_each (ask_each ask_text (second ∷ first ∷ []) (test_world 0)).1 (no_backfill ms)
    ≡ deliver_each (ask_each ask_text (first ∷ second ∷ []) (test_world 0)).1 (no_backfill ms)
unfolding get lookup cap_needs needs_from
backfill-any_order_example =
    backfill-any_order ask_text (λ id. ok (str "b")) (pos 0)
      (bare_message (pos 7) ∷ bare_message (pos 8) ∷ [])
      (need_at 1 (pos 8) ∷ need_at 0 (pos 7) ∷ []) (test_world 0) (λ n w'. refl)
      (Permᴰ.swap refl refl)

perm_refl : (ns : List Need) → Permᴰ ns ns
perm_refl [] = Permᴰ.nil
perm_refl (n ∷ ns) = Permᴰ.cons refl (perm_refl ns)

backfill_bodies_lem_example :
    let ms = bare_message (pos 7) ∷ bare_message (pos 8) ∷ [] in
    let filled =
      (backfill_bodies
        (answering 200)
        (λ ns. ns)
        test_client
        mode_bypass
        true
        (pos 1)
        ms
        (test_world 0)).1 in
    (at_key "subject" filled.0.messages ≡ at_key "subject" ms)
    × (filled.0.fetched + filled.0.failures ≡ 1)
    × (filled.0.fetched + filled.0.failures + filled.1 ≡ 2)
unfolding get lookup has_body to_string_raw to_int64_raw
backfill_bodies_lem_example =
    backfill_bodies_lem (answering 200) (λ ns. ns) test_client mode_bypass (pos 1) "subject"
      (bare_message (pos 7) ∷ bare_message (pos 8) ∷ []) (test_world 0) perm_refl
      (λ e. false≢true (ap (λ s. str_eq s "body") e))
      (λ e. false≢true (ap (λ s. str_eq s "body_content") e))

abbrev threads_upstream : Services Memory
threads_upstream = record (answering 200) { decode_json = λ s. ok (page_at 1) }

abbrev one_thread : ThreadsReply
one_thread =
    filtered_reply since_2024
      (record { collected = thread_at "2024-02" ∷ []; more = false; next_start = pos 0 })

mail_threads_list-bounded_example :
    (length one_thread.threads ≤ 10) × (length one_thread.threads ≤ 200)
unfolding get lookup valid_cache_mode to_lower cache_get memory cache_key base_url trim_right_slash
    set values format_int mail_threads_list gated on_verdict ensure_tool_allowed client_or_error
    new_client filtered_pages filtered_page mail_cached_get cached_get dispatch store iterate_pages
    threads_filter extract_list_data extract_mail_pagination do_json do_request deliver read_json
    wait_all new_request resolved_auth_mode trim_space normalize_mail_thread_list normalize_list
mail_threads_list-bounded_example =
    mail_threads_list-bounded threads_upstream 4 (context_with false) since_2024 (test_world 0)
      one_thread refl refl

-- ===== src/Tools/Mail/Laws.antt =====
-- The filtered listing of threads keeps to its limits.
use mathlib.Core.List.{List, [], ◌∷◌}
use mcp_pipedrive.Tools.Common.{Context, gated, reply, lift, ◌>>=◌, client_or_error}
use mcp_pipedrive.Cache.{CacheMode, valid_cache_mode}
use mcp_pipedrive.Client.{Client}
use mcp_pipedrive.Client.Exchange.{Services, World}
use mcp_pipedrive.Normalize.Lists.{normalize_list}
use mcp_pipedrive.Prelude.{
  Bool, Option, arith, false, if◌then◌else◌, length, none, some, true, ℕ, ◌<◌, ◌≡◌, ◌≤◌, ap, sym,
  ◌∙◌, ◌||◌,
}
use mcp_pipedrive.Prelude.Int.{is_positive, negsuc, pos, ℤ}
use mcp_pipedrive.Result.{Result, ok}
use mcp_pipedrive.Tools.Mail.{
  MailThreadsListParams, count, mail_threads_default_limit, mail_filtered_hard_cap,
}
use mcp_pipedrive.Tools.Mail.Paging.{iterate_pages, Paged}
use mcp_pipedrive.Tools.Mail.Threads.{
  ThreadsReply, filtered_page, filtered_pages, threads_filter, threads_limit, mail_threads_list,
  filtered_reply, reply_to, threads_of,
}
use mcp_pipedrive.Tools.Steps.{continue_with-ok, on_verdict-reply}
use mcp_pipedrive.Value.{Fields, Value}
use mathlib.Core.Bool.{false≢true}
use mathlib.Core.Path.{subst}
use mcp_pipedrive.Tools.Mail.Paging.Laws.{iterate_pages-wanted}
use mcp_pipedrive.Normalize.Mail.{normalize_mail_fields, normalize_mail_thread_list}
use mcp_pipedrive.Prelude.Text.{is_set}
use mcp_pipedrive.Guard.{ensure_tool_allowed, guard_read}

length-normalize_list :
    {R : Type 0} (f : Fields → R) (vs : List Value) → length (normalize_list f vs) ≤ length vs
unfolding normalize_list
length-normalize_list f [] = omega arith
length-normalize_list f (v ∷ vs) = ground (arith, length-normalize_list f vs)

abbrev reply_given : ThreadsReply → Result (Option ThreadsReply) → ThreadsReply
reply_given r (ok (some r')) = r'
reply_given r _ = r

abbrev is_given : Result (Option ThreadsReply) → Bool
is_given (ok none) = false
is_given _ = true

threads_limit_pos : (args : MailThreadsListParams) → 0 < count (threads_limit args)
threads_limit_pos args = positive args.limit
  where
    positive :
        (limit : ℤ) → 0 < count (if is_positive limit then limit else mail_threads_default_limit)
    positive (pos n) = ground arith
    positive (negsuc n) = omega arith

cap_pos : (args : MailThreadsListParams) → 0 < (threads_filter args).hard_cap
unfolding threads_filter
cap_pos args = ground (arith, threads_limit_pos args)

module _ {Db : Type 0} (services : Services Db) (fuel : ℕ) where
  filtered_pages-bounded :
      (c : Client) (args : MailThreadsListParams) (mode : CacheMode) (w : World Db)
      (r : ThreadsReply)
      → (filtered_pages services fuel c args mode w).1 ≡ ok (some r)
      → length r.threads ≤ (threads_filter args).hard_cap
  unfolding filtered_pages normalize_mail_thread_list
  filtered_pages-bounded c args mode w r e =
      let (found, (e1, e2)) =
        continue_with-ok
          (iterate_pages (threads_filter args) (filtered_page services c args mode) fuel args.start
            [] w)
          _ (some r) e in
      replied found e1 (sym (ap (λ r'. r'.1) e2) ∙ e)
    where
      replied :
          (found : Option (Paged Value))
          → (iterate_pages
              (threads_filter args)
              (filtered_page services c args mode)
              fuel
              args.start
              []
              w).1
            ≡ ok found
          → ok (reply_to args found) ≡ ok (some r)
          → length r.threads ≤ (threads_filter args).hard_cap
      replied none e1 e' = absurd (false≢true (ap is_given e'))
      replied (some p) e1 e' =
          let same : filtered_reply args p ≡ r = ap (reply_given r) e' in
          let within =
            (iterate_pages-wanted (threads_filter args) (filtered_page services c args mode) fuel
              args.start w p (cap_pos args) e1).1 in
          subst (λ r'. length r'.threads ≤ (threads_filter args).hard_cap) same
            (let fewer : length
                    (normalize_mail_thread_list p.collected (normalize_mail_fields args.fields))
                  ≤ length p.collected =
                length-normalize_list _ p.collected in
              omega (arith, fewer, within))

  slow_path :
      (c : Client) (args : MailThreadsListParams) (mode : CacheMode) (w : World Db)
      → is_set args.since || args.unread_only ≡ true
      → threads_of services fuel c args mode w ≡ filtered_pages services fuel c args mode w
  slow_path c args mode w h = ground arith

  -- A reply of mailThreadsList with a filter has no more threads than the limit that was asked for
  -- (20 if none was), and no more than 200.
  pub mail_threads_list-bounded :
      (ctx : Context) (args : MailThreadsListParams) (w : World Db) (r : ThreadsReply)
      → is_set args.since || args.unread_only ≡ true
      → (mail_threads_list services fuel ctx args w).1 ≡ ok (reply (some r))
      → (length r.threads ≤ count (threads_limit args))
        × (length r.threads ≤ mail_filtered_hard_cap)
  unfolding mail_threads_list gated threads_filter
  mail_threads_list-bounded ctx args w r with_filter e =
      let (ran, same) =
        on_verdict-reply (ensure_tool_allowed ctx.config "pipedrive.mail.threads.list" guard_read)
          (lift (valid_cache_mode args.cache_mode) >>= λ mode.
            lift (client_or_error ctx.client) >>= λ c. threads_of services fuel c args mode)
          w (some r) e in
      let with_mode = λ (mode : CacheMode).
        lift (client_or_error ctx.client) >>= λ c. threads_of services fuel c args mode in
      let (mode, (e1, e2)) =
        continue_with-ok (lift (valid_cache_mode args.cache_mode) w) with_mode (some r) ran in
      let (c, (e3, e4)) =
        continue_with-ok (lift (client_or_error ctx.client) w)
          (λ c. threads_of services fuel c args mode) (some r) (sym (ap (λ r'. r'.1) e2) ∙ ran) in
      let listed : (threads_of services fuel c args mode w).1 ≡ ok (some r) =
        sym (ap (λ r'. r'.1) e4) ∙ sym (ap (λ r'. r'.1) e2) ∙ ran in
      let slow : (filtered_pages services fuel c args mode w).1 ≡ ok (some r) =
        sym (ap (λ r'. r'.1) (slow_path c args mode w with_filter)) ∙ listed in
      let within = filtered_pages-bounded c args mode w r slow in ground arith

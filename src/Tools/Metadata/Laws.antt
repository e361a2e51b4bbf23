-- ===== src/Tools/Metadata/Laws.antt =====
-- What contextGet replies, however its goroutines are scheduled.
use mathlib.Core.List.Permᴰ
use mathlib.Core.List.{List, [], ◌∷◌, Permᴰ}
use mcp_pipedrive.Client.{Client}
use mcp_pipedrive.Tools.Common.{Context, reply, client_or_error, continue_with, lift}
use mcp_pipedrive.Prelude.{
  String, ap, arith, ℕ, ◌∙◌, ◌≡◌, All, length, none, suc, zero, ◌+◌, ◌≤◌, All-perm, refl,
  length-perm, map, Option,
}
use mcp_pipedrive.Tools.Metadata.{
  MetadataCall, MetadataResult, put_slot, run_calls, metadata_calls, zero_result, MetadataEntry,
  MetadataReply, context_get, metadata_reply, add_entry,
}
use mcp_pipedrive.Cache.{CacheMode, valid_cache_mode, CacheMeta}
use mcp_pipedrive.Client.Exchange.{Services, World}
use mcp_pipedrive.Tools.Resource.{cached_read}
use mcp_pipedrive.Tools.Resource.Requests.{cached_read-sent}
use mcp_pipedrive.Guard.{ensure_tool_allowed, guard_read}
use mcp_pipedrive.Result.{err, ok, Result}
use mcp_pipedrive.Tools.Steps.{continue_with-runs, gated-runs}
use mcp_pipedrive.Value.{Value}

-- the name of the list that a slot is for
abbrev name_of : ℕ → String
name_of zero = "users"
name_of (suc zero) = "pipelines"
name_of (suc (suc zero)) = "stages"
name_of (suc (suc (suc zero))) = "deal_fields"
name_of _ = "activity_types"

abbrev IsNamed : MetadataCall → Type 0
IsNamed m = m.key ≡ name_of m.slot

-- a slot that is named stays so, and one that is put in is
put_slot-keeps :
    (m : MetadataCall) (r : MetadataResult) (out : ℕ → MetadataResult) (i : ℕ)
    → r.key ≡ name_of m.slot
    → (out i).key ≡ name_of i
    → (put_slot m.slot r out i).key ≡ name_of i
put_slot-keeps m r out i named before = ground (arith, λ (e : m.slot ≡ i). named ∙ ap name_of e)

abbrev pub names_of : MetadataReply → List String
names_of r = map (λ (e : String × MetadataEntry). e.0) r.data_of

add_entry-names :
    (key : String) (answer : Result (Option CacheMeta × Value)) (later : MetadataReply)
    → names_of (add_entry key answer later) ≡ key ∷ names_of later
unfolding add_entry
add_entry-names key (err e) later = refl
add_entry-names key (ok answer) later = refl

names_of-metadata_reply :
    (ms : List MetadataCall) (out : ℕ → MetadataResult)
    → All (λ (m : MetadataCall). (out m.slot).key ≡ name_of m.slot) ms
    → names_of (metadata_reply (map (λ (m : MetadataCall). out m.slot) ms))
      ≡ map (λ (m : MetadataCall). name_of m.slot) ms
unfolding metadata_reply add_entry
names_of-metadata_reply [] out named = refl
names_of-metadata_reply (m ∷ ms) out named =
    let later = metadata_reply (map (λ (m : MetadataCall). out m.slot) ms) in
    add_entry-names (out m.slot).key (out m.slot).answer later
    ∙ ap (λ n. n ∷ names_of later) named.0
    ∙ ap (λ ns. name_of m.slot ∷ ns) (names_of-metadata_reply ms out named.1)

module _ {Db : Type 0} (services : Services Db) where
  run_calls-keeps :
      (c : Client) (mode : CacheMode) (ms : List MetadataCall) (out : ℕ → MetadataResult)
      (w : World Db) (i : ℕ)
      → All IsNamed ms
      → (out i).key ≡ name_of i
      → ((run_calls services c mode ms out w).1 i).key ≡ name_of i
  unfolding run_calls
  run_calls-keeps c mode [] out w i named before = before
  run_calls-keeps c mode (m ∷ ms) out w i named before =
      let r = cached_read services c m.version m.path none c.ttls.metadata mode w in
      let put : MetadataResult = record { key = m.key; answer = r.1 } in
      run_calls-keeps c mode ms (put_slot m.slot put out) r.0 i named.1
        (put_slot-keeps m put out i named.0 before)

  -- every goroutine's slot is named behind a run
  run_calls-IsNamed :
      (c : Client) (mode : CacheMode) (ms : List MetadataCall) (out : ℕ → MetadataResult)
      (w : World Db)
      → All IsNamed ms
      → All
          (λ (m : MetadataCall).
            ((run_calls services c mode ms out w).1 m.slot).key ≡ name_of m.slot)
          ms
  unfolding run_calls
  run_calls-IsNamed c mode [] out w named = tt
  run_calls-IsNamed c mode (m ∷ ms) out w named =
      let r = cached_read services c m.version m.path none c.ttls.metadata mode w in
      let put : MetadataResult = record { key = m.key; answer = r.1 } in
      (
        run_calls-keeps c mode ms (put_slot m.slot put out) r.0 m.slot named.1
            (ground (arith, named.0)),
        run_calls-IsNamed c mode ms (put_slot m.slot put out) r.0 named.1,
      )

  run_calls-sent :
      (c : Client) (mode : CacheMode) (ms : List MetadataCall) (out : ℕ → MetadataResult)
      (w : World Db)
      → length (run_calls services c mode ms out w).0.sent ≤ length ms + length w.sent
  unfolding run_calls
  run_calls-sent c mode [] out w = omega arith
  run_calls-sent c mode (m ∷ ms) out w =
      let r = cached_read services c m.version m.path none c.ttls.metadata mode w in
      let put : MetadataResult = record { key = m.key; answer = r.1 } in
      omega (
        arith,
        run_calls-sent c mode ms (put_slot m.slot put out) r.0,
        cached_read-sent services c m.version m.path none c.ttls.metadata mode w,
      )

  module _ (schedule : List MetadataCall) (every : Permᴰ metadata_calls schedule) where
    calls-IsNamed :
        (c : Client) (mode : CacheMode) (w : World Db)
        → let out = (run_calls services c mode schedule (λ i. zero_result) w).1 in
          All (λ (m : MetadataCall). (out m.slot).key ≡ name_of m.slot) metadata_calls
    calls-IsNamed c mode w = All-perm _ (Permᴰ.symm every) (
        run_calls-IsNamed c mode schedule (λ i. zero_result) w
          (All-perm IsNamed every (refl, (refl, (refl, (refl, (refl, tt)))))))

    -- Where the guard, the cache mode and the client allow it, contextGet ends in a reply, whatever
    -- the upstream answers to its five requests and in whatever order its goroutines ask: the
    -- reply has one entry for each of the five lists, in the order of the calls, and at most five
    -- requests are sent.
    pub context_get_lem :
        (ctx : Context) (cache_mode : String) (w : World Db) (mode : CacheMode) (c : Client)
        → ensure_tool_allowed ctx.config "pipedrive.context.get" guard_read ≡ ok none
        → valid_cache_mode cache_mode ≡ ok mode
        → client_or_error ctx.client ≡ ok c
        → let (w', result) = context_get services schedule ctx cache_mode w in
          (r : MetadataReply) × ((result ≡ ok (reply r))
            × ((names_of r
                  ≡ "users" ∷ "pipelines" ∷ "stages" ∷ "deal_fields" ∷ "activity_types" ∷ [])
                × (length w'.sent ≤ 5 + length w.sent)))
    unfolding context_get
    context_get_lem ctx cache_mode w mode c passes valid usable =
        let ran = run_calls services c mode schedule (λ i. zero_result) w in
        let runs =
          gated-runs ctx "pipedrive.context.get" guard_read _ w passes
          ∙ ap (λ r. continue_with r (λ a. lift (ok (reply a))))
              (continue_with-runs (valid_cache_mode cache_mode) _ w mode valid
                ∙ continue_with-runs (client_or_error ctx.client) _ w c usable) in
        (
          metadata_reply (map (λ (m : MetadataCall). ran.1 m.slot) metadata_calls),
          (
            ap (λ r. r.1) runs,
            (
              names_of-metadata_reply metadata_calls ran.1 (calls-IsNamed c mode w),
              rw runs (
                  omega (
                    arith,
                    run_calls-sent c mode schedule (λ i. zero_result) w,
                    length-perm every,
                  )),
            ),
          ),
        )

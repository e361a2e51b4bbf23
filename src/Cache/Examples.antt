-- ===== src/Cache/Examples.antt =====
-- The laws of the cache on a bucket in memory.
use mathlib.Core.List.{[], ◌∷◌}
use mcp_pipedrive.Cache.{add_duration, cache_get, cache_put, delete_prefix, new_entry}
use mcp_pipedrive.Cache.Bucket.{Blob}
use mcp_pipedrive.Cache.Laws.{cache_get-put, delete_prefix-others, delete_prefix_lem}
use mcp_pipedrive.Cache.Memory.{Memory, memory}
use mcp_pipedrive.Prelude.{
  String, false, if◌then◌else◌, keep, length, none, none≢some, refl, some, sym, true, ◌≡◌, ◌≢◌, ◌⊎◌,
}
use mcp_pipedrive.Prelude.Int.{pos}
use mcp_pipedrive.Prelude.Text.{str_eq}
use mcp_pipedrive.Query.Sort.{has_prefix, str_le}
use mcp_pipedrive.Value.{null, str}

abbrev pub two_deals : Memory
two_deals =
    ("v2:me:GET:/deals:1", some (new_entry 0 (str "one") (pos 60)))
    ∷ ("v1:me:GET:/deals:1", some (new_entry 0 (str "two") (pos 60)))
    ∷ []

pub memory-deletes : (d : Memory) (k : String) → memory.delete d k ≢ none
unfolding memory
memory-deletes d k e = none≢some (sym e)

pub memory-puts : (k : String) (d : Memory) (b : Blob) → memory.put d k b ≢ none
unfolding memory
memory-puts k d b e = none≢some (sym e)

pub memory-commits : (d d' : Memory) → memory.commits d d' ≡ true
unfolding memory
memory-commits d d' = refl

delete_prefix_lem_example :
    ((j : String)
      → cache_get memory (delete_prefix memory (some two_deals) "v2:me").0 j
        ≡ (if has_prefix "v2:me" j then none else cache_get memory (some two_deals) j))
    × ((delete_prefix memory (some two_deals) "v2:me").1
        ≡ length (keep (has_prefix "v2:me") (memory.keys two_deals)))
delete_prefix_lem_example = delete_prefix_lem memory two_deals "v2:me" memory-deletes memory-commits

delete_prefix-others_example :
    cache_get memory (delete_prefix memory (some two_deals) "v2:me").0 "v1:me:GET:/deals:1"
    ≡ some (new_entry 0 (str "two") (pos 60))
unfolding cache_get memory has_prefix new_entry add_duration
delete_prefix-others_example =
    delete_prefix-others memory (some two_deals) "v2:me" "v1:me:GET:/deals:1" refl

cache_get-put_example :
    (((cache_put memory (some two_deals) "k" (new_entry 5 null (pos 1))).1 ≡ true)
      × ((j : String)
          → cache_get memory (cache_put memory (some two_deals) "k" (new_entry 5 null (pos 1))).0 j
            ≡ (if str_eq "k" j
                then some (new_entry 5 null (pos 1))
                else cache_get memory (some two_deals) j)))
    ⊎ (cache_put memory (some two_deals) "k" (new_entry 5 null (pos 1)) ≡ (some two_deals, false))
cache_get-put_example = cache_get-put memory two_deals "k" (new_entry 5 null (pos 1))

-- the count of a run
delete_prefix_runs : (delete_prefix memory (some two_deals) "v2:me").1 ≡ 1
unfolding delete_prefix memory str_le has_prefix
delete_prefix_runs = refl

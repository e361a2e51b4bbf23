-- ===== src/Cache/Laws.antt =====
-- What the response cache keeps of bbolt's laws.
use mathlib.Core.List.{List, [], ◌∷◌}
use mcp_pipedrive.Cache.{
  cache_clear, cache_get, cache_put, delete_each, delete_prefix, seek, while_prefix, commit,
  decoded,
}
use mcp_pipedrive.Cache.Bucket.{Bolt, CacheEntry, has_key, Blob}
use mcp_pipedrive.Cache.Scan.{any-keep, while_prefix-seek}
use mcp_pipedrive.Prelude.{
  Option, Option-cases, String, any, ap, arith, false, if◌then◌else◌, inl, inr, keep, length, none,
  refl, some, true, ◌&&◌, ◌∙◌, ◌≡◌, ◌≢◌, ◌⊎◌, Bool, Bool-cases, suc,
}
use mcp_pipedrive.Prelude.Text.{str_eq}
use mcp_pipedrive.Query.Sort.{has_prefix}
use text.Mathlib.TextEquality.{eq_iff}
use text.Mathlib.TextPositions.{eq_refl}

module _ {Db : Type 0} (bolt : Bolt Db) where
  delete_each-get :
      (db : Db) (ks : List String)
      → ((d : Db) (k : String) → bolt.delete d k ≢ none)
      → (j : String)
      → bolt.get (delete_each bolt db ks).0 j ≡ (if any (str_eq j) ks then none else bolt.get db j)
  unfolding delete_each
  delete_each-get db [] works j = refl
  delete_each-get db (k ∷ ks) works j = elim (Option-cases (bolt.delete db k)) [
    | inl fails ↦ absurd (works db k fails)
    | inr (db', done) ↦
        rw (done, delete_each)
          (delete_each-get db' ks works j
            ∙ ap (λ o. if any (str_eq j) ks then none else o) (bolt.get-delete db db' k done j)
            ∙ ground (arith, eq_iff k j, eq_iff j k))
  ]

  delete_each-count :
      (db : Db) (ks : List String)
      → ((d : Db) (k : String) → bolt.delete d k ≢ none)
      → (delete_each bolt db ks).1 ≡ length ks
  unfolding delete_each
  delete_each-count db [] works = refl
  delete_each-count db (k ∷ ks) works = elim (Option-cases (bolt.delete db k)) [
    | inl fails ↦ absurd (works db k fails)
    | inr (db', done) ↦ rw (done, delete_each) (ap suc (delete_each-count db' ks works))
  ]

  -- a key that is not in the list is left alone, whether the writes succeed or not
  delete_each-others :
      (db : Db) (ks : List String) (j : String)
      → any (str_eq j) ks ≡ false
      → bolt.get (delete_each bolt db ks).0 j ≡ bolt.get db j
  unfolding delete_each
  delete_each-others db [] j out = refl
  delete_each-others db (k ∷ ks) j out = elim (Option-cases (bolt.delete db k)) [
    | inl fails ↦ rw (fails, delete_each) (delete_each-others db ks j (ground arith))
    | inr (db', done) ↦
        rw (done, delete_each)
          (delete_each-others db' ks j (ground arith)
            ∙ bolt.get-delete db db' k done j
            ∙ ground (arith, eq_iff k j, eq_iff j k))
  ]

  -- the collected keys are those in the bucket with the prefix
  any-collected :
      (db : Db) (p j : String)
      → any (str_eq j) (while_prefix p (seek p (bolt.keys db)))
        ≡ (has_prefix p j && has_key (bolt.get db j))
  any-collected db p j =
      rw
        (
          while_prefix-seek p (bolt.keys db) (bolt.keys_sorted db),
          any-keep (has_prefix p) j (bolt.keys db),
          bolt.keys_lem db j,
        )
        refl

  gone :
      (b : Bool) (o : Option Blob)
      → decoded bolt (if b && has_key o then none else o) ≡ (if b then none else decoded bolt o)
  gone true none = refl
  gone true (some blob) = refl
  gone false o = refl

  -- When every write and the commit succeed, DeletePrefix removes the keys with the prefix and no
  -- other, and reports how many there were.
  pub delete_prefix_lem :
      (db : Db) (p : String)
      → ((d : Db) (k : String) → bolt.delete d k ≢ none)
      → ((d d' : Db) → bolt.commits d d' ≡ true)
      → ((j : String)
          → cache_get bolt (delete_prefix bolt (some db) p).0 j
            ≡ (if has_prefix p j then none else cache_get bolt (some db) j))
        × ((delete_prefix bolt (some db) p).1 ≡ length (keep (has_prefix p) (bolt.keys db)))
  unfolding delete_prefix cache_get
  delete_prefix_lem db p works commits =
      let ks = while_prefix p (seek p (bolt.keys db)) in
      (
        λ j. at_end (commits db (delete_each bolt db ks).0) (
            delete_each-get db ks works j
            ∙ ap (λ b. if b then none else bolt.get db j) (any-collected db p j)),
        delete_each-count db ks works
            ∙ ap length (while_prefix-seek p (bolt.keys db) (bolt.keys_sorted db)),
      )
    where
      at_end :
          {new : Db} {j : String}
          → bolt.commits db new ≡ true
          → bolt.get new j
            ≡ (if has_prefix p j && has_key (bolt.get db j) then none else bolt.get db j)
          → decoded bolt (bolt.get (commit bolt db new) j)
            ≡ (if has_prefix p j then none else decoded bolt (bolt.get db j))
      at_end {j = j} c e = rw (c, e) (gone (has_prefix p j) (bolt.get db j))

  -- DeletePrefix leaves each key without the prefix alone, whatever writes fail.
  pub delete_prefix-others :
      (cache : Option Db) (p j : String)
      → has_prefix p j ≡ false
      → cache_get bolt (delete_prefix bolt cache p).0 j ≡ cache_get bolt cache j
  unfolding delete_prefix cache_get
  delete_prefix-others none p j lacks = refl
  delete_prefix-others (some db) p j lacks =
      let ks = while_prefix p (seek p (bolt.keys db)) in
      kept (Bool-cases (bolt.commits db (delete_each bolt db ks).0)) (
        delete_each-others db ks j
          (any-collected db p j ∙ ap (λ b. b && has_key (bolt.get db j)) lacks))
    where
      kept :
          {new : Db}
          → (bolt.commits db new ≡ true) ⊎ (bolt.commits db new ≡ false)
          → bolt.get new j ≡ bolt.get db j
          → decoded bolt (bolt.get (commit bolt db new) j) ≡ decoded bolt (bolt.get db j)
      kept (inl c) e = rw (c, e) refl
      kept (inr c) e = rw c refl

  stored :
      (e : CacheEntry) (b : Bool) (o : Option Blob)
      → decoded bolt (if b then some (some e) else o) ≡ (if b then some e else decoded bolt o)
  stored e true o = refl
  stored e false o = refl

  -- Put stores the entry under its key and touches no other key, or leaves the whole cache as it
  -- was and reports the failure.
  pub cache_get-put :
      (db : Db) (key : String) (e : CacheEntry)
      → (((cache_put bolt (some db) key e).1 ≡ true)
          × ((j : String)
              → cache_get bolt (cache_put bolt (some db) key e).0 j
                ≡ (if str_eq key j then some e else cache_get bolt (some db) j)))
        ⊎ (cache_put bolt (some db) key e ≡ (some db, false))
  unfolding cache_put cache_get
  cache_get-put db key e = elim (Option-cases (bolt.put db key (some e))) [
    | inl fails ↦ inr (rw (fails, cache_put) refl)
    | inr (db', done) ↦ committed db' done (Bool-cases (bolt.commits db db'))
  ]
    where
      committed :
          (db' : Db)
          → bolt.put db key (some e) ≡ some db'
          → (bolt.commits db db' ≡ true) ⊎ (bolt.commits db db' ≡ false)
          → (((cache_put bolt (some db) key e).1 ≡ true)
              × ((j : String)
                  → cache_get bolt (cache_put bolt (some db) key e).0 j
                    ≡ (if str_eq key j then some e else cache_get bolt (some db) j)))
            ⊎ (cache_put bolt (some db) key e ≡ (some db, false))
      committed db' done (inl c) =
          rw (done, cache_put, c)
            (inl (
              refl,
              λ j.
                  rw (bolt.get-put db db' key (some e) done j)
                    (stored e (str_eq key j) (bolt.get db j)),
            ))
      committed db' done (inr c) = rw (done, cache_put, c) (inr refl)

  -- After Clear, when the commit succeeds, no key is found, and the count is that of the keys.
  cache_clear_lem :
      (db : Db)
      → ((d : Db) → bolt.commits db d ≡ true)
      → ((j : String) → cache_get bolt (cache_clear bolt (some db)).0 j ≡ none)
        × ((cache_clear bolt (some db)).1 ≡ length (bolt.keys db))
  unfolding cache_clear cache_get
  cache_clear_lem db commits = (λ j. rw (commits bolt.empty, bolt.get-empty j) refl, refl)

  -- a Put whose writes succeed
  pub cache_put-works :
      (db : Db) (key : String) (e : CacheEntry)
      → ((d : Db) (b : Blob) → bolt.put d key b ≢ none)
      → ((d d' : Db) → bolt.commits d d' ≡ true)
      → (db' : Db) × ((cache_put bolt (some db) key e ≡ (some db', true))
          × (cache_get bolt (some db') key ≡ some e))
  unfolding cache_put cache_get
  cache_put-works db key e puts commits = elim (Option-cases (bolt.put db key (some e))) [
    | inl fails ↦ absurd (puts db (some e) fails)
    | inr (db', done) ↦ (
      db',
      (
        rw (done, cache_put, commits db db') refl,
        rw (bolt.get-put db db' key (some e) done key, eq_refl key) refl,
      ),
    )
  ]

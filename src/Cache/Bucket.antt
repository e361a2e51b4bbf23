-- ===== src/Cache/Bucket.antt =====
-- What the cache relies on in go.etcd.io/bbolt, as its documentation has it: a bucket is a finite
-- map in byte order. A write inside a transaction can fail, and so can the commit. A file on which
-- no transaction begins, one that is closed, is a bucket that shows no keys and commits nothing.
use mathlib.Core.List.{List, [], ◌∷◌}
use mcp_pipedrive.Prelude.{
  Bool, Option, String, any, false, if◌then◌else◌, none, some, true, ℕ, ◌≡◌, ◌≢◌,
}
use mcp_pipedrive.Prelude.Text.{str_eq}
use mcp_pipedrive.Query.Sort.{str_le}
use mcp_pipedrive.Value.{Value}

-- An entry of the cache. The body is its JSON value, none if it is no JSON.
pub record CacheEntry : Type 0 where
  pub stored_at : ℕ
  pub expires_at : ℕ
  pub api_version : String
  pub body : Option Value

-- A stored value: the entry that json.Unmarshal reads from it, or none if it fails.
abbrev pub Blob : Type 0
Blob = Option CacheEntry

-- each string is below the next and differs from it
abbrev pub Above : String → List String → Type 0
Above s [] = Unit
Above s (t ∷ ts) = (str_le s t ≡ true) × (s ≢ t)

abbrev pub IsSorted : List String → Type 0
IsSorted [] = Unit
IsSorted (s ∷ ss) = Above s ss × IsSorted ss

abbrev pub has_key : Option Blob → Bool
has_key none = false
has_key (some b) = true

pub record Bolt (Db : Type 0) : Type 0 where
  pub empty : Db
  pub get : Db → String → Option Blob
  pub put : Db → String → Blob → Option Db
  pub delete : Db → String → Option Db
  pub keys : Db → List String
  -- whether the transaction from the first bucket to the second is committed
  pub commits : Db → Db → Bool
  pub get-empty : (k : String) → get empty k ≡ none
  pub get-put :
      (d d' : Db) (k : String) (b : Blob)
      → put d k b ≡ some d'
      → (j : String) → get d' j ≡ (if str_eq k j then some b else get d j)
  pub get-delete :
      (d d' : Db) (k : String)
      → delete d k ≡ some d'
      → (j : String) → get d' j ≡ (if str_eq k j then none else get d j)
  pub keys_sorted : (d : Db) → IsSorted (keys d)
  pub keys_lem : (d : Db) (k : String) → any (str_eq k) (keys d) ≡ has_key (get d k)

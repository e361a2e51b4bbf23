-- ===== src/Cache/Memory.antt =====
-- A bucket in memory meets what the cache relies on in bbolt.
use mathlib.Core.Option.{some-injective}
use mathlib.Core.List.{List, [], ◌∷◌}
use mathlib.Core.Bool.{false≢true}
use mcp_pipedrive.Prelude.{
  Bool-cases, Option, String, any, arith, false, if◌then◌else◌, inl, inr, none, refl, some, sym,
  true, ◌||◌, ◌∙◌, ◌≡◌, ◌⊎◌,
}
use mcp_pipedrive.Prelude.Text.{str_eq}
use mcp_pipedrive.Query.Order.{str_le_total}
use mcp_pipedrive.Query.Sort.{str_le}
use text.Mathlib.TextEquality.{eq_iff}
use mcp_pipedrive.Cache.Bucket.{Above, Blob, Bolt, IsSorted, has_key}

abbrev pub Memory : Type 0
Memory = List (String × Blob)

pub memory_get : Memory → String → Option Blob
memory_get [] k = none
memory_get ((j, b) ∷ d) k = if str_eq j k then some b else memory_get d k

pub memory_delete : Memory → String → Memory
memory_delete [] k = []
memory_delete ((j, b) ∷ d) k =
    let rest = memory_delete d k in if str_eq j k then rest else (j, b) ∷ rest

insert_distinct : String → List String → List String
insert_distinct s [] = s ∷ []
insert_distinct s (t ∷ ts) =
    if str_eq s t then t ∷ ts else if str_le s t then s ∷ t ∷ ts else t ∷ insert_distinct s ts

pub memory_keys : Memory → List String
memory_keys [] = []
memory_keys ((k, b) ∷ d) = insert_distinct k (memory_keys d)

pub get-delete_lem :
    (d : Memory) (k j : String)
    → memory_get (memory_delete d k) j ≡ (if str_eq k j then none else memory_get d j)
unfolding memory_get memory_delete
get-delete_lem [] k j = ground arith
get-delete_lem ((i, b) ∷ d) k j =
    ground (arith, get-delete_lem d k j, eq_iff i k, eq_iff i j, eq_iff k j)

any-insert_distinct :
    (k s : String) (ts : List String)
    → any (str_eq k) (insert_distinct s ts) ≡ (str_eq k s || any (str_eq k) ts)
unfolding insert_distinct
any-insert_distinct k s [] = refl
any-insert_distinct k s (t ∷ ts) =
    ground (arith, any-insert_distinct k s ts, eq_iff s t, eq_iff k s, eq_iff k t)

pub keys-get : (d : Memory) (k : String) → any (str_eq k) (memory_keys d) ≡ has_key (memory_get d k)
unfolding memory_keys memory_get
keys-get [] k = refl
keys-get ((j, b) ∷ d) k =
    any-insert_distinct k j (memory_keys d) ∙ ground (arith, keys-get d k, eq_iff k j, eq_iff j k)

insert_distinct-Above :
    (t s : String) (ts : List String)
    → str_le t s ≡ true
    → str_eq s t ≡ false
    → Above t ts
    → Above t (insert_distinct s ts)
unfolding insert_distinct
insert_distinct-Above t s [] l n a = (l, λ e. absurd (false≢true (sym n ∙ (eq_iff s t).1 (sym e))))
insert_distinct-Above t s (u ∷ us) l n a = elim (Bool-cases (str_eq s u)) [
  | inl same ↦ rw same a
  | inr other ↦ rw other (place (Bool-cases (str_le s u)))
]
  where
    place :
        (str_le s u ≡ true) ⊎ (str_le s u ≡ false)
        → Above t (if str_le s u then s ∷ u ∷ us else u ∷ insert_distinct s us)
    place (inl le) = rw le (l, λ e. absurd (false≢true (sym n ∙ (eq_iff s t).1 (sym e))))
    place (inr gt) = rw gt a

insert_distinct-IsSorted :
    (s : String) (ts : List String) → IsSorted ts → IsSorted (insert_distinct s ts)
unfolding insert_distinct
insert_distinct-IsSorted s [] h = (tt, tt)
insert_distinct-IsSorted s (t ∷ ts) (a, h) = elim (Bool-cases (str_eq s t)) [
  | inl same ↦ rw same (a, h)
  | inr other ↦ rw other (place (Bool-cases (str_le s t)) other (insert_distinct-IsSorted s ts h))
]
  where
    place :
        (str_le s t ≡ true) ⊎ (str_le s t ≡ false)
        → str_eq s t ≡ false
        → IsSorted (insert_distinct s ts)
        → IsSorted (if str_le s t then s ∷ t ∷ ts else t ∷ insert_distinct s ts)
    place (inl le) n ih = rw le ((le, λ e. absurd (false≢true (sym n ∙ (eq_iff s t).1 e))), (a, h))
    place (inr gt) n ih = rw gt (insert_distinct-Above t s ts (str_le_total s t gt) n a, ih)

pub memory_keys-IsSorted : (d : Memory) → IsSorted (memory_keys d)
unfolding memory_keys
memory_keys-IsSorted [] = tt
memory_keys-IsSorted ((k, b) ∷ d) =
    insert_distinct-IsSorted k (memory_keys d) (memory_keys-IsSorted d)

pub memory_get-put :
    (d d' : Memory) (k : String) (b : Blob)
    → some ((k, b) ∷ d) ≡ some d'
    → (j : String) → memory_get d' j ≡ (if str_eq k j then some b else memory_get d j)
unfolding memory_get
memory_get-put d d' k b e j = rw (sym (some-injective _ _ e)) refl

pub memory_get-delete :
    (d d' : Memory) (k : String)
    → some (memory_delete d k) ≡ some d'
    → (j : String) → memory_get d' j ≡ (if str_eq k j then none else memory_get d j)
memory_get-delete d d' k e j = rw (sym (some-injective _ _ e)) (get-delete_lem d k j)

-- Every write succeeds.
unfoldable pub memory : Bolt Memory
unfolding memory_get memory_delete memory_keys insert_distinct memory_get-put memory_get-delete
memory = record {
  empty = [];
  get = memory_get;
  put = λ d k b. some ((k, b) ∷ d);
  delete = λ d k. some (memory_delete d k);
  keys = memory_keys;
  commits = λ d d'. true;
  get-empty = λ k. refl;
  get-put = memory_get-put;
  get-delete = memory_get-delete;
  keys_sorted = memory_keys-IsSorted;
  keys_lem = keys-get;
}

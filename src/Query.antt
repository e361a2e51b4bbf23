-- ===== src/Query.antt =====
-- Go's url.Values as the handlers fill it, and its encoding. A Go map is its entries with distinct
-- keys; what iterates over one sorts the keys first.
pub mod Sort
pub mod Order
pub mod Encode
use mcp_pipedrive.Prelude.{
  List, Option, String, [], arith, if◌then◌else◌, none, refl, some, ◌∷◌, ◌≡◌,
}
use mcp_pipedrive.Prelude.Int.{format_int, is_positive, is_zero, ℤ}
use mcp_pipedrive.Prelude.Text.{is_set, str_eq}
use text.Mathlib.TextEquality.{eq_iff}

abbrev pub Query : Type 0
Query = List (String × List String)

-- url.Values{}
abbrev pub empty : Query
empty = []

-- q[k], and whether it is there
unfoldable pub values : String → Query → Option (List String)
values k [] = none
values k ((j, vs) ∷ q) = if str_eq j k then some vs else values k q

-- q.Set(k, v)
unfoldable pub set : String → String → Query → Query
set k v [] = (k, v ∷ []) ∷ []
set k v ((j, vs) ∷ q) = if str_eq j k then (k, v ∷ []) ∷ q else (j, vs) ∷ set k v q

-- q.Set(k, v) behind if v != "", behind if id != 0, and behind if n > 0
abbrev pub set_text : String → String → Query → Query
set_text k v q = if is_set v then set k v q else q

abbrev pub set_id : String → ℤ → Query → Query
set_id k id q = if is_zero id then q else set k (format_int id) q

abbrev pub set_positive : String → ℤ → Query → Query
set_positive k n q = if is_positive n then set k (format_int n) q else q

pub values-set :
    (k j v : String) (q : Query)
    → values j (set k v q) ≡ (if str_eq k j then some (v ∷ []) else values j q)
unfolding values set
values-set k j v [] = refl
values-set k j v ((i, vs) ∷ q) =
    ground (arith, eq_iff k j, eq_iff i k, eq_iff i j, values-set k j v q)

-- ===== src/Value.antt =====
-- Go's `any` as the tools use it: the values of encoding/json, and the Go integers that handlers
-- put into request bodies. A map is its entries; the keys of a Go map are distinct.
pub mod Convert
use mcp_pipedrive.Float64.{Float64}
use mcp_pipedrive.Prelude.{
  Bool, List, Option, String, [], arith, if◌then◌else◌, none, refl, some, suc, ℕ, ◌∷◌, ◌≡◌,
}
use mcp_pipedrive.Prelude.Int.{ℤ}
use mcp_pipedrive.Prelude.Text.{str_eq}
use text.Mathlib.TextEquality.{eq_iff}

mutual
  pub data Fields : Type 0 where
    field : String → Value → Fields → Fields
    end : Fields

  pub data Items : Type 0 where
    cons : Value → Items → Items
    nil : Items

  pub data Value : Type 0 where
    str : String → Value
    obj : Fields → Value
    arr : Items → Value
    num : Float64 → Value
    int : ℤ → Value
    int64 : ℤ → Value
    bool : Bool → Value
    null : Value

abbrev pub elems : Items → List Value
elems nil = []
elems (cons v vs) = v ∷ elems vs

abbrev pub of_list : List Value → Items
of_list [] = nil
of_list (v ∷ vs) = cons v (of_list vs)

-- v, ok := m[k]
unfoldable pub lookup : String → Fields → Option Value
lookup k end = none
lookup k (field j v fs) = if str_eq j k then some v else lookup k fs

abbrev or_null : Option Value → Value
or_null none = null
or_null (some v) = v

-- m[k], the nil value if the key is missing
unfoldable pub get : Fields → String → Value
get fs k = or_null (lookup k fs)

-- m[k] = v
unfoldable pub insert : String → Value → Fields → Fields
insert k v end = field k v end
insert k v (field j w fs) = if str_eq j k then field k v fs else field j w (insert k v fs)

-- len(m)
abbrev pub size : Fields → ℕ
size end = 0
size (field k v fs) = suc (size fs)

pub lookup-insert :
    (k j : String) (v : Value) (m : Fields)
    → lookup j (insert k v m) ≡ (if str_eq k j then some v else lookup j m)
unfolding lookup insert
lookup-insert k j v end = refl
lookup-insert k j v (field i w m) =
    ground (arith, eq_iff k j, eq_iff i k, eq_iff i j, lookup-insert k j v m)

pub get-insert :
    (k j : String) (v : Value) (m : Fields)
    → get (insert k v m) j ≡ (if str_eq k j then v else get m j)
unfolding get
get-insert k j v m = ground (arith, lookup-insert k j v m)

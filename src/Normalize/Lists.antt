-- ===== src/Normalize/Lists.antt =====
-- The loop of every Normalize…List: what is no object is skipped.
use mcp_pipedrive.Prelude.{List, [], ap, map, none, refl, some, ◌∷◌, ◌≡◌}
use mcp_pipedrive.Value.{Fields, Value, obj}
use mcp_pipedrive.Value.Convert.{as_map}

module _ {R : Type 0} (f : Fields → R) where
  unfoldable pub normalize_list : List Value → List R
  normalize_list [] = []
  normalize_list (v ∷ vs) =
      let rest = normalize_list vs in elim (as_map v) [ none ↦ rest | some m ↦ f m ∷ rest ]

-- the objects of an array, in order
abbrev pub objects : List Value → List Fields
objects [] = []
objects (obj m ∷ vs) = m ∷ objects vs
objects (_ ∷ vs) = objects vs

-- A normalized list has one entry for each object of the array, in the array's order.
normalize_list-map :
    {R : Type 0} (f : Fields → R) (vs : List Value) → normalize_list f vs ≡ map f (objects vs)
unfolding normalize_list
normalize_list-map f [] = refl
normalize_list-map f (obj m ∷ vs) = ap (λ l. f m ∷ l) (normalize_list-map f vs)
normalize_list-map f (_ ∷ vs) = normalize_list-map f vs

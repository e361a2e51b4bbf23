-- ===== src/Normalize/Shapes.antt =====
-- The two API versions: v1 has a linked record as an object with its id under "value", v2 the id,
-- and some fields have another name or shape.
use mcp_pipedrive.Float64.{Float64}
use mcp_pipedrive.Normalize.Deal.{normalize_deal}
use mcp_pipedrive.Prelude.{
  All, List, Option, String, [], ap, arith, if◌then◌else◌, inl, inr, none, refl, some, sym, zero,
  suc, ◌∙◌, ◌∷◌, ◌≡◌, ◌⊎◌,
}
use mcp_pipedrive.Prelude.Int.{is_zero, negsuc, pos, ℤ}
use mcp_pipedrive.Value.{Fields, Value, get, lookup, null, num, obj, str}
use mcp_pipedrive.Value.Convert.{as_map, first_non_nil, id_of, is_null, related_id, to_string}
use mcp_pipedrive.Normalize.Activity.{normalize_activity}
use mcp_pipedrive.Normalize.Person.{address_of, normalize_organization, normalize_person}
use mcp_pipedrive.Normalize.Product.{normalize_product}

-- a linked record in v1 and in v2: an object with the id under "value", and the id; or no change
abbrev pub IsLinkOf : Option Value → Option Value → Type 0
IsLinkOf v1 v2 =
    (v1 ≡ v2)
    ⊎ ((n : Fields) × (id : Float64) × (v1 ≡ some (obj n))
        × (get n "value" ≡ num id)
        × (v2 ≡ some (num id)))

-- an address: a text in v1, and an object with the text in v2; or no change
abbrev pub IsAddressOf : Value → Value → Type 0
IsAddressOf v1 v2 =
    (v1 ≡ v2)
    ⊎ ((n : Fields) × (t : String) × (v1 ≡ str t) × (v2 ≡ obj n) × (get n "value" ≡ str t))

-- the payload has `v` under one of two names, and nothing under the other
abbrev pub Under : String → String → Fields → Option Value → Type 0
Under k j raw v =
    ((lookup k raw ≡ v) × (lookup j raw ≡ none)) ⊎ ((lookup j raw ≡ v) × (lookup k raw ≡ none))

-- a linked record that each version has under one of two names
abbrev pub IsLinkUnder : String → String → Fields → Fields → Type 0
IsLinkUnder k j a b =
    (v1 : Option Value) × (v2 : Option Value) × Under k j a v1 × Under k j b v2 × IsLinkOf v1 v2

-- a field that each version has under one of two names, with the same value
abbrev pub IsSameUnder : String → String → Fields → Fields → Type 0
IsSameUnder k j a b = (v : Option Value) × Under k j a v × Under k j b v

abbrev pub AreSame : List String → Fields → Fields → Type 0
AreSame keys a b = All (λ k. lookup k a ≡ lookup k b) keys

abbrev pub AreLinks : List String → Fields → Fields → Type 0
AreLinks keys a b = All (λ k. IsLinkOf (lookup k a) (lookup k b)) keys

-- The payloads of one record in v1 and in v2, but for custom fields.
abbrev pub IsDealOf : Fields → Fields → Type 0
IsDealOf a b =
    AreSame
      ("id" ∷ "title" ∷ "status" ∷ "value" ∷ "currency" ∷ "label_ids" ∷ "is_archived" ∷ "add_time"
        ∷ "update_time" ∷ [])
      a b
    × AreLinks ("person_id" ∷ "pipeline_id" ∷ "stage_id" ∷ []) a b
    × IsLinkUnder "user_id" "owner_id" a b
    × IsLinkUnder "org_id" "organization_id" a b

abbrev pub IsPersonOf : Fields → Fields → Type 0
IsPersonOf a b =
    AreSame ("id" ∷ "name" ∷ "first_name" ∷ "last_name" ∷ "add_time" ∷ "update_time" ∷ []) a b
    × IsSameUnder "emails" "email" a b
    × IsSameUnder "phones" "phone" a b
    × IsLinkUnder "owner_id" "user_id" a b
    × IsLinkUnder "org_id" "organization_id" a b

abbrev pub IsOrganizationOf : Fields → Fields → Type 0
IsOrganizationOf a b =
    AreSame ("id" ∷ "name" ∷ "add_time" ∷ "update_time" ∷ []) a b
    × IsAddressOf (get a "address") (get b "address")
    × IsLinkUnder "owner_id" "user_id" a b

abbrev pub IsActivityOf : Fields → Fields → Type 0
IsActivityOf a b =
    AreSame
      ("id" ∷ "subject" ∷ "type" ∷ "done" ∷ "due_date" ∷ "due_time" ∷ "duration" ∷ "add_time"
        ∷ "update_time" ∷ [])
      a b
    × AreLinks ("deal_id" ∷ "person_id" ∷ []) a b
    × IsLinkUnder "owner_id" "user_id" a b
    × IsLinkUnder "org_id" "organization_id" a b

abbrev pub IsProductOf : Fields → Fields → Type 0
IsProductOf a b =
    AreSame ("id" ∷ "name" ∷ "code" ∷ "unit" ∷ "prices" ∷ "add_time" ∷ "update_time" ∷ []) a b
    × IsSameUnder "active_flag" "active" a b
    × IsLinkUnder "owner_id" "user_id" a b

zero_or : (z : ℤ) → (if is_zero z then pos 0 else z) ≡ z
zero_or (pos zero) = refl
zero_or (pos (suc n)) = ground arith
zero_or (negsuc n) = refl

id_of-same : {v1 v2 : Option Value} → IsLinkOf v1 v2 → id_of v1 ≡ id_of v2
unfolding id_of
id_of-same (inl e) = ap id_of e
id_of-same (inr (n, id, e1, e, e2)) = rw (e1, e2, e) refl

related_id-Under :
    (k j : String) (raw : Fields) (v : Option Value)
    → Under k j raw v
    → related_id raw (k ∷ j ∷ []) ≡ id_of v
unfolding related_id id_of
related_id-Under k j raw v (inl (e, nothing)) = rw (e, nothing) (zero_or (id_of v))
related_id-Under k j raw v (inr (e, nothing)) = rw (e, nothing) (zero_or (id_of v))

-- the value itself; a missing one is null
abbrev seen : Option Value → Value
seen none = null
seen (some v) = if is_null v then null else v

first_non_nil-Under :
    (k j : String) (raw : Fields) (v : Option Value)
    → Under k j raw v
    → first_non_nil raw (k ∷ j ∷ []) ≡ seen v
unfolding first_non_nil
first_non_nil-Under k j raw none (inl (e, nothing)) = ground (arith, e, nothing)
first_non_nil-Under k j raw (some v) (inl (e, nothing)) = ground (arith, e, nothing)
first_non_nil-Under k j raw none (inr (e, nothing)) = ground (arith, e, nothing)
first_non_nil-Under k j raw (some v) (inr (e, nothing)) = ground (arith, e, nothing)

address_of-same : {v1 v2 : Value} → IsAddressOf v1 v2 → address_of v1 ≡ address_of v2
unfolding address_of to_string
address_of-same (inl e) = ap address_of e
address_of-same (inr (n, t, e1, e2, e)) = rw (e1, e2, e) refl

module _ (a b : Fields) where
  gets : (keys : List String) → AreSame keys a b → All (λ k. get a k ≡ get b k) keys
  unfolding get
  gets [] h = tt
  gets (k ∷ keys) (e, h) = (rw e refl, gets keys h)

  links :
      (keys : List String)
      → AreLinks keys a b
      → All (λ k. related_id a (k ∷ []) ≡ related_id b (k ∷ [])) keys
  unfolding related_id
  links [] h = tt
  links (k ∷ keys) (e, h) = (ap (λ z. if is_zero z then pos 0 else z) (id_of-same e), links keys h)

  link_under :
      (k j : String) → IsLinkUnder k j a b → related_id a (k ∷ j ∷ []) ≡ related_id b (k ∷ j ∷ [])
  link_under k j (v1, v2, u1, u2, e) =
      related_id-Under k j a v1 u1 ∙ id_of-same e ∙ sym (related_id-Under k j b v2 u2)

  same_under :
      (k j : String)
      → IsSameUnder k j a b
      → first_non_nil a (k ∷ j ∷ []) ≡ first_non_nil b (k ∷ j ∷ [])
  same_under k j (v, u1, u2) = first_non_nil-Under k j a v u1 ∙ sym (first_non_nil-Under k j b v u2)

  -- The payload of a deal in v2 has the normalized form of its payload in v1, but for the custom
  -- fields: those of each payload are the object under its "custom_fields". A linked record may be an object in v1 and its id in v2, the owner
  -- may be under "user_id" or "owner_id" in each, and the organization under "org_id" or
  -- "organization_id".
  pub normalize_deal-versions :
      IsDealOf a b
      → (normalize_deal b
          ≡ record (normalize_deal a) { custom_fields = as_map (get b "custom_fields") })
        × ((normalize_deal a).custom_fields ≡ as_map (get a "custom_fields"))
  unfolding normalize_deal
  normalize_deal-versions (same, linked, owner, org) = (
    ground (
      arith,
      gets
          ("id" ∷ "title" ∷ "status" ∷ "value" ∷ "currency" ∷ "label_ids" ∷ "is_archived"
            ∷ "add_time" ∷ "update_time" ∷ [])
          same,
      links ("person_id" ∷ "pipeline_id" ∷ "stage_id" ∷ []) linked,
      link_under "user_id" "owner_id" owner,
      link_under "org_id" "organization_id" org,
    ),
    refl,
  )

  normalize_person-versions :
      IsPersonOf a b
      → normalize_person b
        ≡ record (normalize_person a) { custom_fields = as_map (get b "custom_fields") }
  unfolding normalize_person
  normalize_person-versions (same, emails, phones, owner, org) = ground (
    arith,
    gets ("id" ∷ "name" ∷ "first_name" ∷ "last_name" ∷ "add_time" ∷ "update_time" ∷ []) same,
    same_under "emails" "email" emails,
    same_under "phones" "phone" phones,
    link_under "owner_id" "user_id" owner,
    link_under "org_id" "organization_id" org,
  )

  normalize_organization-versions :
      IsOrganizationOf a b
      → normalize_organization b
        ≡ record (normalize_organization a) { custom_fields = as_map (get b "custom_fields") }
  unfolding normalize_organization
  normalize_organization-versions (same, address, owner) = ground (
    arith,
    gets ("id" ∷ "name" ∷ "add_time" ∷ "update_time" ∷ []) same,
    address_of-same address,
    link_under "owner_id" "user_id" owner,
  )

  normalize_activity-versions : IsActivityOf a b → normalize_activity b ≡ normalize_activity a
  unfolding normalize_activity
  normalize_activity-versions (same, linked, owner, org) = ground (
    arith,
    gets
        ("id" ∷ "subject" ∷ "type" ∷ "done" ∷ "due_date" ∷ "due_time" ∷ "duration" ∷ "add_time"
          ∷ "update_time" ∷ [])
        same,
    links ("deal_id" ∷ "person_id" ∷ []) linked,
    link_under "owner_id" "user_id" owner,
    link_under "org_id" "organization_id" org,
  )

  normalize_product-versions :
      IsProductOf a b
      → normalize_product b
        ≡ record (normalize_product a) { custom_fields = as_map (get b "custom_fields") }
  unfolding normalize_product
  normalize_product-versions (same, active, owner) = ground (
    arith,
    gets ("id" ∷ "name" ∷ "code" ∷ "unit" ∷ "prices" ∷ "add_time" ∷ "update_time" ∷ []) same,
    same_under "active_flag" "active" active,
    link_under "owner_id" "user_id" owner,
  )

-- The payloads of a person, of an organization and of a product in v2 have the normalized forms of
-- their payloads in v1, but for the custom fields, each version's own, and that of an activity has
-- the same: a linked record may be an object in v1 and its id in v2; the owner may be under
-- "owner_id" or "user_id" in each, the organization under "org_id" or "organization_id", the
-- contacts under "emails" or "email" and "phones" or "phone", and a product's flag under
-- "active_flag" or "active"; an address may be a text in v1 and an object in v2.
pub normalize-versions :
    (a b c d e f g h : Fields)
    → IsPersonOf a b
    → IsOrganizationOf c d
    → IsActivityOf e f
    → IsProductOf g h
    → (normalize_person b
        ≡ record (normalize_person a) { custom_fields = as_map (get b "custom_fields") })
      × (normalize_organization d
          ≡ record (normalize_organization c) { custom_fields = as_map (get d "custom_fields") })
      × (normalize_activity f ≡ normalize_activity e)
      × (normalize_product h
          ≡ record (normalize_product g) { custom_fields = as_map (get h "custom_fields") })
normalize-versions a b c d e f g h person organization activity product = (
  normalize_person-versions a b person,
  normalize_organization-versions c d organization,
  normalize_activity-versions e f activity,
  normalize_product-versions g h product,
)

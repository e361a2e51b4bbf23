-- ===== src/Normalize/Examples.antt =====
-- Records in the shapes of the two API versions, and the other normalization theorem on a snippet.
use Prim.Native.String.{◌++◌, len}
use mcp_pipedrive.Float64.{Float64, int64_of_float}
use mcp_pipedrive.Normalize.Activity.{normalize_activity}
use mcp_pipedrive.Normalize.Deal.{normalize_deal}
use mcp_pipedrive.Normalize.Mail.Snippet.{is_blank, truncate_snippet, truncate_snippet_cases}
use mcp_pipedrive.Normalize.Person.{normalize_organization, normalize_person}
use mcp_pipedrive.Normalize.Product.{normalize_product}
use mcp_pipedrive.Normalize.Shapes.{
  IsActivityOf, IsDealOf, IsLinkOf, IsOrganizationOf, IsPersonOf, IsProductOf, normalize-versions,
  normalize_deal-versions,
}
use mcp_pipedrive.Prelude.{
  String, arith, false, inl, inr, none, refl, some, true, ◌<◌, ◌≡◌, ◌≤◌, ◌⊎◌, ℕ,
}
use mcp_pipedrive.Prelude.Int.{pos}
use mcp_pipedrive.Value.{
  Fields, Value, arr, bool, cons, end, field, get, lookup, nil, null, num, obj, str,
}
use mcp_pipedrive.Value.Convert.{as_map, id_of, related_id}
use mcp_pipedrive.Prelude.Text.{trim_right_func}
use text.Mathlib.TextBridge.{IsPrefix}

abbrev seven : Float64
seven = record { negative = false; mantissa = 7; up = 0; down = 0 }

-- {"value": 7}
abbrev link : Value
link = obj (field "value" (num seven) end)

abbrev deal_v1 : Fields
deal_v1 =
    field "title" (str "Big")
      (field "user_id" link (field "person_id" link (field "org_id" link (field "a1b2" null end))))

abbrev deal_v2 : Fields
deal_v2 = field "title" (str "Big") (
    field "owner_id" (num seven) (
      field "person_id" (num seven)
        (field "org_id" (num seven) (field "custom_fields" (obj (field "a1b2" null end)) end))))

owner_runs :
    ((normalize_deal deal_v1).owner_id ≡ pos 7) × ((normalize_deal deal_v2).owner_id ≡ pos 7)
unfolding normalize_deal related_id id_of lookup get int64_of_float
owner_runs = (refl, refl)

-- a linked record of the payloads below
abbrev is_link : IsLinkOf (some link) (some (num seven))
unfolding get lookup
is_link = inr (_, seven, refl, refl, refl)

IsDealOf-v2 : IsDealOf deal_v1 deal_v2
unfolding lookup
IsDealOf-v2 = (
  (refl, (refl, (refl, (refl, (refl, (refl, (refl, (refl, (refl, tt))))))))),
  (is_link, (inl refl, (inl refl, tt))),
  (some link, some (num seven), inl (refl, refl), inr (refl, refl), is_link),
  (some link, some (num seven), inl (refl, refl), inl (refl, refl), is_link),
)

normalize_deal-versions_example :
    (normalize_deal deal_v2
      ≡ record (normalize_deal deal_v1) { custom_fields = as_map (get deal_v2 "custom_fields") })
    × ((normalize_deal deal_v1).custom_fields ≡ as_map (get deal_v1 "custom_fields"))
normalize_deal-versions_example = normalize_deal-versions deal_v1 deal_v2 IsDealOf-v2

abbrev emails : Value
emails = arr (cons (obj (field "value" (str "a@b.c") end)) nil)

abbrev person_v1 : Fields
person_v1 = field "email" emails (field "phone" (arr nil) (field "owner_id" link end))

abbrev person_v2 : Fields
person_v2 = field "emails" emails (field "phones" (arr nil) (field "owner_id" (num seven) end))

IsPersonOf-v2 : IsPersonOf person_v1 person_v2
unfolding lookup
IsPersonOf-v2 = (
  (refl, (refl, (refl, (refl, (refl, (refl, tt)))))),
  (some emails, inr (refl, refl), inl (refl, refl)),
  (some (arr nil), inr (refl, refl), inl (refl, refl)),
  (some link, some (num seven), inl (refl, refl), inl (refl, refl), is_link),
  (none, none, inl (refl, refl), inl (refl, refl), inl refl),
)

abbrev organization_v1 : Fields
organization_v1 = field "address" (str "Main St") (field "owner_id" link end)

abbrev organization_v2 : Fields
organization_v2 =
    field "address" (obj (field "value" (str "Main St") end)) (field "owner_id" (num seven) end)

IsOrganizationOf-v2 : IsOrganizationOf organization_v1 organization_v2
unfolding lookup get
IsOrganizationOf-v2 = (
  (refl, (refl, (refl, (refl, tt)))),
  inr (_, "Main St", refl, refl, refl),
  (some link, some (num seven), inl (refl, refl), inl (refl, refl), is_link),
)

abbrev activity_v1 : Fields
activity_v1 = field "user_id" (num seven) (field "deal_id" (num seven) end)

abbrev activity_v2 : Fields
activity_v2 = field "owner_id" (num seven) (field "deal_id" (num seven) end)

IsActivityOf-v2 : IsActivityOf activity_v1 activity_v2
unfolding lookup
IsActivityOf-v2 = (
  (refl, (refl, (refl, (refl, (refl, (refl, (refl, (refl, (refl, tt))))))))),
  (inl refl, (inl refl, tt)),
  (some (num seven), some (num seven), inr (refl, refl), inl (refl, refl), inl refl),
  (none, none, inl (refl, refl), inl (refl, refl), inl refl),
)

abbrev product_v1 : Fields
product_v1 = field "active_flag" (bool true) (field "owner_id" link end)

abbrev product_v2 : Fields
product_v2 = field "active" (bool true) (field "owner_id" (num seven) end)

IsProductOf-v2 : IsProductOf product_v1 product_v2
unfolding lookup
IsProductOf-v2 = (
  (refl, (refl, (refl, (refl, (refl, (refl, (refl, tt))))))),
  (some (bool true), inl (refl, refl), inr (refl, refl)),
  (some link, some (num seven), inl (refl, refl), inl (refl, refl), is_link),
)

normalize-versions_example :
    (normalize_person person_v2 ≡ record (normalize_person person_v1) {
      custom_fields = as_map (get person_v2 "custom_fields");
    })
    × (normalize_organization organization_v2 ≡ record (normalize_organization organization_v1) {
      custom_fields = as_map (get organization_v2 "custom_fields");
    })
    × (normalize_activity activity_v2 ≡ normalize_activity activity_v1)
    × (normalize_product product_v2 ≡ record (normalize_product product_v1) {
      custom_fields = as_map (get product_v2 "custom_fields");
    })
normalize-versions_example =
    normalize-versions person_v1 person_v2 organization_v1 organization_v2 activity_v1 activity_v2
      product_v1 product_v2 IsPersonOf-v2 IsOrganizationOf-v2 IsActivityOf-v2 IsProductOf-v2

-- "é" has two bytes: a cut behind the third is moved back behind the "é"
truncate_snippet_cases_example :
    (((◌≡◌ {A = ℕ} 4 0) ⊎ (len "aéé" ≤ 4)) × (truncate_snippet "aéé" 4 ≡ "aéé"))
    ⊎ ((0 < 4)
        × (4 < len "aéé")
        × ((longest : String) × (truncate_snippet "aéé" 4 ≡ trim_right_func is_blank longest ++ "…")
            × IsPrefix longest "aéé"
            × (len longest ≤ 4)
            × IsPrefix "aé" longest))
truncate_snippet_cases_example = truncate_snippet_cases "aéé" 4 "aé" "é" refl (omega arith)

-- ===== src/Normalize/Person.antt =====
-- NormalizePerson and NormalizeOrganization.
use mcp_pipedrive.Normalize.Lists.{normalize_list}
use mcp_pipedrive.Prelude.{
  All, Bool, List, Option, String, [], arith, if◌then◌else◌, none, some, true, ◌∷◌, ◌≡◌,
}
use mcp_pipedrive.Prelude.Int.{ℤ}
use mcp_pipedrive.Prelude.Text.{is_set}
use mcp_pipedrive.Value.{Fields, Value, arr, elems, get, obj, str}
use mcp_pipedrive.Value.Convert.{
  as_list, as_map, first_non_nil, related_id, to_bool, to_int64, to_string,
}

pub record Contact : Type 0 where
  pub value : String
  pub label : String
  pub primary : Bool

contact_of : Fields → Contact
contact_of m = record {
  value = to_string (get m "value");
  label = to_string (get m "label");
  primary = to_bool (get m "primary");
}

-- the loop of normalizeContacts: an entry with no value is dropped
contacts_of : List Value → List Contact
unfolding contact_of
contacts_of [] = []
contacts_of (obj m ∷ vs) =
    let c = contact_of m in let rest = contacts_of vs in if is_set c.value then c ∷ rest else rest
contacts_of (_ ∷ vs) = contacts_of vs

unfoldable pub normalize_contacts : Value → List Contact
unfolding contacts_of
normalize_contacts v = elim (as_list v) [ none ↦ [] | some vs ↦ contacts_of vs ]

pub record NormalizedPerson : Type 0 where
  pub id : ℤ
  pub name : String
  pub first_name : String
  pub last_name : String
  pub emails : List Contact
  pub phones : List Contact
  pub owner_id : ℤ
  pub organization_id : ℤ
  pub add_time : String
  pub update_time : String
  pub custom_fields : Option Fields

unfoldable pub normalize_person : Fields → NormalizedPerson
normalize_person raw = record {
  id = to_int64 (get raw "id");
  name = to_string (get raw "name");
  first_name = to_string (get raw "first_name");
  last_name = to_string (get raw "last_name");
  emails = normalize_contacts (first_non_nil raw ("emails" ∷ "email" ∷ []));
  phones = normalize_contacts (first_non_nil raw ("phones" ∷ "phone" ∷ []));
  owner_id = related_id raw ("owner_id" ∷ "user_id" ∷ []);
  organization_id = related_id raw ("org_id" ∷ "organization_id" ∷ []);
  add_time = to_string (get raw "add_time");
  update_time = to_string (get raw "update_time");
  custom_fields = as_map (get raw "custom_fields");
}

unfoldable pub normalize_person_list : List Value → List NormalizedPerson
normalize_person_list = normalize_list normalize_person

pub record NormalizedOrganization : Type 0 where
  pub id : ℤ
  pub name : String
  pub owner_id : ℤ
  pub address : String
  pub add_time : String
  pub update_time : String
  pub custom_fields : Option Fields

-- The address is a text in v1, and an object with the text in v2.
unfoldable pub address_of : Value → String
address_of (str t) = t
address_of (obj t) = to_string (get t "value")
address_of _ = ""

unfoldable pub normalize_organization : Fields → NormalizedOrganization
unfolding address_of
normalize_organization raw = record {
  id = to_int64 (get raw "id");
  name = to_string (get raw "name");
  owner_id = related_id raw ("owner_id" ∷ "user_id" ∷ []);
  address = address_of (get raw "address");
  add_time = to_string (get raw "add_time");
  update_time = to_string (get raw "update_time");
  custom_fields = as_map (get raw "custom_fields");
}

unfoldable pub normalize_organization_list : List Value → List NormalizedOrganization
normalize_organization_list = normalize_list normalize_organization

-- Every contact that is kept has a value, whatever the payload.
pub normalize_contacts_set : (v : Value) → All (λ c. is_set c.value ≡ true) (normalize_contacts v)
unfolding normalize_contacts
normalize_contacts_set (arr xs) = contacts_of_set (elems xs)
  where
    contacts_of_set : (vs : List Value) → All (λ c. is_set c.value ≡ true) (contacts_of vs)
    contacts_of_set [] = tt
    contacts_of_set (obj m ∷ vs) = ground (arith, contacts_of_set vs)
    contacts_of_set (_ ∷ vs) = contacts_of_set vs
normalize_contacts_set _ = tt

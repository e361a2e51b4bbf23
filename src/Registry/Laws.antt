-- ===== src/Registry/Laws.antt =====
-- What is registered.
use mathlib.Core.List.{List, [], ◌∷◌, ◌++◌, append_assoc, append-nil}
use mcp_pipedrive.Prelude.{
  Bool, String, any, arith, if◌then◌else◌, is_empty, keep, length, not, sym, ◌&&◌, ◌+◌, ◌||◌, ◌≡◌,
  ap, false, refl, true, ℕ, ◌∙◌,
}
use mcp_pipedrive.Prelude.Text.{str_eq}
use mcp_pipedrive.Registry.{
  Registration, RegistrationConfig, add_all_tools, add_each, add_tool, admin_tool_names,
}

-- the tools that a configuration admits
abbrev pub admits : RegistrationConfig → String → Bool
admits cfg name =
    (cfg.admin_tools_enabled || not (any (str_eq name) admin_tool_names))
    && (is_empty cfg.allowed_tools || any (str_eq name) cfg.allowed_tools)

add_tool-tools :
    (cfg : RegistrationConfig) (r : Registration) (name : String)
    → (add_tool cfg r name).tools ≡ (if admits cfg name then r.tools ++ name ∷ [] else r.tools)
unfolding add_tool
add_tool-tools cfg r name = ground arith

add_tool-counts :
    (cfg : RegistrationConfig) (r : Registration) (name : String)
    → (add_tool cfg r name).registered
        + (add_tool cfg r name).skipped_admin
        + (add_tool cfg r name).skipped_allowlist
      ≡ r.registered + r.skipped_admin + r.skipped_allowlist + 1
unfolding add_tool
add_tool-counts cfg r name = ground arith

add_tool-registered :
    (cfg : RegistrationConfig) (r : Registration) (name : String)
    → (add_tool cfg r name).registered
      ≡ (if admits cfg name then r.registered + 1 else r.registered)
unfolding add_tool
add_tool-registered cfg r name = ground arith

add_each-tools :
    (cfg : RegistrationConfig) (r : Registration) (names : List String)
    → (add_each cfg r names).tools ≡ r.tools ++ keep (admits cfg) names
unfolding add_each
add_each-tools cfg r [] = sym (append-nil r.tools)
add_each-tools cfg r (name ∷ names) =
    add_each-tools cfg (add_tool cfg r name) names
    ∙ (ap (λ l. l ++ keep (admits cfg) names) (add_tool-tools cfg r name)
        ∙ admitted (admits cfg name) r.tools name (keep (admits cfg) names))
  where
    admitted :
        (b : Bool) (l : List String) (x : String) (m : List String)
        → (if b then l ++ x ∷ [] else l) ++ m ≡ l ++ elim b [ true ↦ x ∷ m | false ↦ m ]
    admitted true l x m = append_assoc l (x ∷ []) m
    admitted false l x m = refl

add_each-counts :
    (cfg : RegistrationConfig) (r : Registration) (names : List String)
    → (add_each cfg r names).registered
        + (add_each cfg r names).skipped_admin
        + (add_each cfg r names).skipped_allowlist
      ≡ r.registered + r.skipped_admin + r.skipped_allowlist + length names
unfolding add_each
add_each-counts cfg r [] = omega arith
add_each-counts cfg r (name ∷ names) =
    omega (arith, add_each-counts cfg (add_tool cfg r name) names, add_tool-counts cfg r name)

add_each-registered :
    (cfg : RegistrationConfig) (r : Registration) (names : List String)
    → (add_each cfg r names).registered ≡ r.registered + length (keep (admits cfg) names)
unfolding add_each
add_each-registered cfg r [] = omega arith
add_each-registered cfg r (name ∷ names) =
    add_each-registered cfg (add_tool cfg r name) names
    ∙ (ap (λ (n : ℕ). n + length (keep (admits cfg) names)) (add_tool-registered cfg r name)
        ∙ counted (admits cfg name) r.registered name (keep (admits cfg) names))
  where
    counted :
        (b : Bool) (n : ℕ) (x : String) (m : List String)
        → (if b then n + 1 else n) + length m
          ≡ n + length {A = String} (elim b [ true ↦ x ∷ m | false ↦ m ])
    counted true n x m = omega arith
    counted false n x m = refl

-- The tools are those of the list that the configuration admits, in the list's order: an admin
-- tool only with the admin flag, and with an allowlist only what is on it. The three counts add
-- up to the length of the list, and the warnings are the allowlist entries that name no tool.
pub add_all_tools_lem :
    (all : List String) (cfg : RegistrationConfig)
    → ((add_all_tools all cfg).tools ≡ keep (admits cfg) all)
      × ((add_all_tools all cfg).registered ≡ length (keep (admits cfg) all))
      × ((add_all_tools all cfg).registered
            + (add_all_tools all cfg).skipped_admin
            + (add_all_tools all cfg).skipped_allowlist
          ≡ length all)
      × ((add_all_tools all cfg).unknown
          ≡ keep (λ name. not (any (str_eq name) all)) cfg.allowed_tools)
unfolding add_all_tools
add_all_tools_lem all cfg = (
  add_each-tools cfg _ all,
  add_each-registered cfg _ all ∙ omega arith,
  add_each-counts cfg _ all ∙ omega arith,
  refl,
)

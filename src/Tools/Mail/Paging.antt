-- ===== src/Tools/Mail/Paging.antt =====
-- The paging loop of mailThreadsList and of dealMailFetch, in tools/mailbox.go. The two differ in
-- the items they read, in their filter, in when they stop and in what they report then. The loop
-- has no bound of its own: it runs on fuel, and `none` is a loop that wants more rounds.

pub mod Scanning
pub mod Laws
pub mod Refines
pub mod Examples
pub mod Terminates
use mathlib.Core.List.{List, [], ◌∷◌, ◌++◌}
use mcp_pipedrive.Tools.Common.{Tool, continue_with}
use mcp_pipedrive.Prelude.{
  Bool, Option, false, if◌then◌else◌, leb, length, none, not, some, suc, true, zero, ℕ, ◌||◌,
}
use mcp_pipedrive.Prelude.Int.{pos, ℤ}
use mcp_pipedrive.Result.{ok}
use mcp_pipedrive.Tools.Mail.{extract_mail_pagination}
use mcp_pipedrive.Value.{Value}

-- the body of the inner loop: older than the cutoff, filtered out, or collected
pub data Verdict : Type 0 where
  too_old unwanted wanted : Verdict

pub record Scanned (A : Type 0) : Type 0 where
  pub collected : List A
  pub past_cutoff : Bool
  pub full : Bool

pub record Paged (A : Type 0) : Type 0 where
  pub collected : List A
  pub more : Bool
  pub next_start : ℤ

-- what the two loops differ in: `single_page` is since == "" in dealMailFetch, and `at_end` what
-- is reported when the pages end
pub record Filter (A : Type 0) : Type 0 where
  pub items : Value → List A
  pub verdict : A → Verdict
  pub hard_cap : ℕ
  pub single_page : Bool
  pub at_end : Bool × ℤ → Bool × ℤ

-- if pageMore { nextStart = pageNext }, which is 0 before
abbrev pub next_if_more : Bool × ℤ → ℤ
next_if_more (page_more, page_next) = if page_more then page_next else pos 0

module _ {A : Type 0} (f : Filter A) where
  -- the inner loop over a page
  unfoldable pub scan : List A → List A → Bool → Scanned A
  scan [] collected past = record { collected = collected; past_cutoff = past; full = false }
  scan (x ∷ xs) collected past = elim (f.verdict x) [
    | too_old ↦ scan xs collected true
    | unwanted ↦ scan xs collected past
    | wanted ↦ elim (leb f.hard_cap (length (collected ++ (x ∷ [])))) [
      | true ↦ record { collected = collected ++ (x ∷ []); past_cutoff = past; full = true }
      | false ↦ scan xs (collected ++ (x ∷ [])) past
    ]
  ]

  -- the loop has ended behind a page
  abbrev pub ended : Scanned A → Bool × ℤ → Paged A
  ended s page =
      if s.full
      then record {
        collected = s.collected;
        more = page.0 || s.past_cutoff;
        next_start = next_if_more page;
      }
      else record {
        collected = s.collected;
        more = (f.at_end page).0;
        next_start = (f.at_end page).1;
      }

  abbrev pub stops : Scanned A → Bool × ℤ → Bool
  stops s page = s.full || f.single_page || s.past_cutoff || not page.0

  module _ {Db : Type 0} where
    -- behind a page: the end, or the next round
    unfoldable pub after_page :
        (ℤ → List A → Tool Db (Option (Paged A)))
        → Scanned A
        → Bool × ℤ
        → Tool Db (Option (Paged A))
    after_page next_round s page w = elim (stops s page) [
      | true ↦ (w, ok (some (ended s page)))
      | false ↦ next_round page.1 s.collected w
    ]

    module _ (fetch : ℤ → Tool Db Value) where
      -- for { … }, from a cursor on. A round begins with pastCutoff false: true ends the loop.
      unfoldable pub iterate_pages : ℕ → ℤ → List A → Tool Db (Option (Paged A))
      unfolding scan after_page
      iterate_pages zero cursor collected w = (w, ok none)
      iterate_pages (suc fuel) cursor collected w = continue_with (fetch cursor w) λ payload.
          after_page (λ next got. iterate_pages fuel next got)
            (scan (f.items payload) collected false) (extract_mail_pagination payload)

-- ===== src/Tools/Mail/Paging/Scanning.antt =====
-- What the inner loop of the paging loop makes of a page.
use mathlib.Core.List.{List, [], ◌∷◌, ◌++◌}
use mcp_pipedrive.Prelude.{
  Bool, ap, arith, false, keep, length, take, true, ◌≡◌, ◌≢◌, ◌⊎◌, ◌<◌, leb, length-append, sym,
  ◌∙◌, take-append, All, ◌≤◌, All-append,
}
use mcp_pipedrive.Tools.Mail.Paging.{Verdict, too_old, wanted, Filter, scan}
use mathlib.Core.Bool.{false≢true}
use mathlib.Core.List.{append_assoc, append-nil}

abbrev pub is_wanted : Verdict → Bool
is_wanted wanted = true
is_wanted _ = false

-- behind an item that is too old, no other is wanted: the newest come first
abbrev pub IsNewestFirst : {A : Type 0} → (A → Verdict) → List A → Type 0
IsNewestFirst v [] = Unit
IsNewestFirst v (x ∷ xs) =
    ((v x ≢ too_old) ⊎ (keep (λ y. is_wanted (v y)) xs ≡ [])) × IsNewestFirst v xs

module _ {A : Type 0} (f : Filter A) where
  abbrev pub wanted_of : List A → List A
  wanted_of xs = keep (λ y. is_wanted (f.verdict y)) xs

  -- the item that fills the page
  filled :
      (got : List A) (x : A) (ys rest : List A)
      → length got < f.hard_cap
      → leb f.hard_cap (length (got ++ (x ∷ []))) ≡ true
      → got ++ (x ∷ []) ≡ take f.hard_cap (got ++ ((x ∷ ys) ++ rest))
  filled got x ys rest h e = sym (
      ap (take f.hard_cap) (sym (append_assoc got (x ∷ []) (ys ++ rest)))
      ∙ take-append f.hard_cap (got ++ (x ∷ [])) (ys ++ rest)
          (ground (arith, length-append got (x ∷ []))))

  -- what a scan has collected, for whatever follows the page
  pub scan-full :
      (xs got rest : List A) (past : Bool)
      → length got < f.hard_cap
      → (scan f xs got past).full ≡ true
      → (scan f xs got past).collected ≡ take f.hard_cap (got ++ (wanted_of xs ++ rest))
  unfolding scan
  scan-full [] got rest past h e = absurd (false≢true e)
  scan-full (x ∷ xs) got rest past h e = ground (
    arith,
    scan-full xs got rest true h,
    scan-full xs got rest past h,
    scan-full xs (got ++ (x ∷ [])) rest past,
    length-append got (x ∷ []),
    filled got x (wanted_of xs) rest h,
    append_assoc got (x ∷ []) (wanted_of xs ++ rest),
  )

  -- a page that leaves room adds what it has
  pub scan-room :
      (xs got : List A) (past : Bool)
      → length got < f.hard_cap
      → (scan f xs got past).full ≡ false
      → ((scan f xs got past).collected ≡ got ++ wanted_of xs)
        × (length (scan f xs got past).collected < f.hard_cap)
  unfolding scan
  scan-room [] got past h e = (sym (append-nil got), h)
  scan-room (x ∷ xs) got past h e = ground (
    arith,
    scan-room xs got true h,
    scan-room xs got past h,
    scan-room xs (got ++ (x ∷ [])) past,
    length-append got (x ∷ []),
    append_assoc got (x ∷ []) (wanted_of xs),
  )

  -- no page makes more than the cap
  pub scan-bounded :
      (xs got : List A) (past : Bool)
      → length got < f.hard_cap
      → length (scan f xs got past).collected ≤ f.hard_cap
  unfolding scan
  scan-bounded [] got past h = omega (arith, h)
  scan-bounded (x ∷ xs) got past h = ground (
    arith,
    scan-bounded xs got true h,
    scan-bounded xs got past h,
    scan-bounded xs (got ++ (x ∷ [])) past,
    length-append got (x ∷ []),
  )

  -- what a page adds passes the filter
  pub scan-wanted :
      (xs got : List A) (past : Bool)
      → All (λ y. f.verdict y ≡ wanted) got
      → All (λ y. f.verdict y ≡ wanted) (scan f xs got past).collected
  unfolding scan
  scan-wanted [] got past h = h
  scan-wanted (x ∷ xs) got past h = ground (
    arith,
    scan-wanted xs got true h,
    scan-wanted xs got past h,
    λ (e : f.verdict x ≡ wanted). All-append _ got (x ∷ []) h (e, tt),
    scan-wanted xs (got ++ (x ∷ [])) past,
  )

  none_behind : (xs rest : List A) → wanted_of (xs ++ rest) ≡ [] → wanted_of rest ≡ []
  none_behind [] rest e = e
  none_behind (x ∷ xs) rest e = ground (arith, none_behind xs rest)

  -- behind a page that has reached the cutoff nothing is wanted
  pub scan-past :
      (xs rest got : List A) (past : Bool)
      → IsNewestFirst f.verdict (xs ++ rest)
      → (past ≡ false) ⊎ (wanted_of rest ≡ [])
      → (scan f xs got past).past_cutoff ≡ true
      → wanted_of rest ≡ []
  unfolding scan
  scan-past [] rest got past n h e = ground arith
  scan-past (x ∷ xs) rest got past n h e = ground (
    arith,
    none_behind xs rest,
    scan-past xs rest got true n.1,
    scan-past xs rest got past n.1 h,
    scan-past xs rest (got ++ (x ∷ [])) past n.1 h,
  )

-- ===== src/Paging/Bar.antt =====
-- The row of page numbers of frontend/src/themes/dash/components/pagination.tsx. Pages of the row count from
-- 0 on, and `page` from 1 on.
pub mod Shown
use dashscan.Prelude.{
  ℕ, zero, suc, ◌+◌, ◌-◌, ◌≤◌, ◌<◌, ◌≡◌, refl, Bool, true, false, ◌&&◌, ◌||◌, not, List, [], ◌∷◌,
  ◌++◌, leb, ltb, ◌==◌, if◌then◌else◌, max, min, sum_of, tabulate, arith, Bool-cases, inl, inr, ◌∙◌,
}
use dashscan.Prelude.Windows.{sum_of-append}

pub data PageItem : Type 0 where
  number : ℕ → PageItem
  ellipsis_start ellipsis_end : PageItem

-- for (let p = from; p < to; p++) pages.push(p)
abbrev pub push_pages : ℕ → ℕ → List PageItem
push_pages from to = tabulate (to - from) from (λ p. number p)

abbrev pub push_if : Bool → PageItem → List PageItem
push_if test item = if test then item ∷ [] else []

unfoldable pub page_items : ℕ → ℕ → List PageItem
page_items page page_count =
    let page_index = page - 1 in
    if leb page_count 7
    then push_pages 0 page_count
    else (number 0 ∷ [])
      ++ (push_if (ltb 2 page_index) ellipsis_start
          ++ (push_pages (max 1 (page_index - 1)) (min (page_count - 2) (page_index + 1) + 1)
              ++ (push_if (ltb page_index (page_count - 3)) ellipsis_end
                  ++ (number (page_count - 1) ∷ []))))

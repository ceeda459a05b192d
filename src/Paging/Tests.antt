-- ===== src/Paging/Tests.antt =====
-- The pages of a small list.
use dashscan.Prelude.{
  ℕ, suc, ◌≤◌, ◌≡◌, refl, List, [], ◌∷◌, some, arith, length, sum_of, ◌||◌, ◌-◌, leb, negsuc, pos,
  tabulate, ltb, if◌then◌else◌,
}
use dashscan.Paging.{paginate, page_from, paginated}
use dashscan.Paging.Whole.{first_pages, first_pages-paginate}
use dashscan.Paging.Bar.{number, ellipsis_start, ellipsis_end, page_items}
use dashscan.Paging.Bar.Shown.{is_number, is_start, is_end, is_shown, IsRising, page_items-shown}
use dashscan.Paging.Count.{pagination_search, ceil_of, get_page_count, get_page_count-pages}

abbrev items : List ℕ
items = 5 ∷ 6 ∷ 7 ∷ []

second : paginate items 2 (some 2) ≡ paginated (7 ∷ []) 2 2 3
unfolding paginate
second = refl

past : (paginate items 3 (some 2)).total ≡ negsuc 0
unfolding paginate
past = refl

first_pages-paginate_example :
    (first_pages (λ page. paginate items page (some 2)) 2 ≡ items)
    × (first_pages (λ page. page_from items page 2) 2 ≡ items)
    × ((page : ℕ) → length (paginate items page (some 2)).result_set ≤ 2)
first_pages-paginate_example = first_pages-paginate items 2 2 (omega arith)

abbrev many : List ℕ
many = tabulate 12 0 (λ i. i)

two_pages : get_page_count (some (paginate many 1 (some 10))) ≡ pos 2
unfolding get_page_count ceil_of paginate
two_pages = refl

none_past_the_end : get_page_count (some (paginate many 3 (some 10))) ≡ pos 0
unfolding get_page_count ceil_of paginate
none_past_the_end = refl

get_page_count-pages_example :
    (count : ℕ) × (first_pages
        (λ p. paginate many p (some (pagination_search (some 2) (some 11)).limit))
        count
      ≡ many)
    × ((n : ℕ)
        → ltb 0 (
            length
              (paginate many
                (suc n)
                (some (pagination_search (some 2) (some 11)).limit)).result_set)
          ≡ ltb n count)
    × (get_page_count (
          some (
            paginate many
              (pagination_search (some 2) (some 11)).page
              (some (pagination_search (some 2) (some 11)).limit)))
        ≡ (if ltb 0 (
              length
                (paginate many
                  (pagination_search (some 2) (some 11)).page
                  (some (pagination_search (some 2) (some 11)).limit)).result_set)
            then pos count
            else pos 0))
get_page_count-pages_example = get_page_count-pages many (some 2) (some 11)

middle :
    page_items 5 10
    ≡ number 0 ∷ ellipsis_start ∷ number 3 ∷ number 4 ∷ number 5 ∷ ellipsis_end ∷ number 9 ∷ []
unfolding page_items
middle = refl

page_items-shown_example :
    ((n : ℕ) → sum_of (is_number n) (page_items 5 10) ≡ (if is_shown 5 10 n then 1 else 0))
    × (sum_of is_start (page_items 5 10) ≡ (if is_shown 5 10 1 || leb 10 7 then 0 else 1))
    × (sum_of is_end (page_items 5 10) ≡ (if is_shown 5 10 (10 - 2) || leb 10 7 then 0 else 1))
    × IsRising 10 0 (page_items 5 10)
page_items-shown_example = page_items-shown 5 10 (omega arith) (omega arith)

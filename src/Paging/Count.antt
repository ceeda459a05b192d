-- ===== src/Paging/Count.antt =====
-- frontend/src/lib/pagination.ts: what a page's search asks for, and how many pages a response has. An input
-- is a whole number from 0 on, or none for anything else.
use native.Mathlib.Nat.{div-mul-le_self, lt-div-mul-add, div-eq_of_lt, mul-le-mul_right}
use dashscan.Prelude.{
  ℕ, suc, ◌+◌, ◌-◌, ◌*◌, ◌/◌, ◌<◌, ◌≡◌, refl, ap, ◌∙◌, Option, none, some, List, [], ◌∷◌, any,
  length, drop, length-take, length-drop, ltb, leb, ◌==◌, if◌then◌else◌, ℤ, pos, negsuc, minus,
  arith, Bool-cases, inl, inr, dec_lt,
}
use dashscan.Paging.{PaginatedResultSet, paginate}
use dashscan.Paging.Whole.{first_pages, first_pages-paginate, to-page}

-- PAGE_SIZE_OPTIONS
abbrev pub page_size_options : List ℕ
page_size_options = 10 ∷ 25 ∷ 50 ∷ 100 ∷ []

pub record PaginationSearch : Type 0 where
  pub page : ℕ
  pub limit : ℕ

-- z.number().int().min(1).catch(1)
abbrev parsed_page : Option ℕ → ℕ
parsed_page none = 1
parsed_page (some page) = if leb 1 page then page else 1

-- z.union([z.literal(10), ...]).catch(10)
abbrev parsed_limit : Option ℕ → ℕ
parsed_limit none = 10
parsed_limit (some limit) = if any (λ l. l == limit) page_size_options then limit else 10

-- paginationSearchSchema
unfoldable pub pagination_search : Option ℕ → Option ℕ → PaginationSearch
pagination_search page limit = record { page = parsed_page page; limit = parsed_limit limit }

-- Math.ceil(total / limit), for a limit above 0
unfoldable pub ceil_of : ℤ → ℕ → ℤ
ceil_of (pos total) limit = pos ((total + (limit - 1)) / limit)
ceil_of (negsuc n) limit = minus 0 (suc n / limit)

unfoldable pub get_page_count : {A : Type 0} → Option (PaginatedResultSet A) → ℤ
unfolding ceil_of
get_page_count none = pos 0
get_page_count (some pagination) = ceil_of pagination.total pagination.limit

parsed_limit_gt : (limit : Option ℕ) → 1 < parsed_limit limit
parsed_limit_gt none = omega arith
parsed_limit_gt (some limit) = ground arith

-- The pages that hold a number of items.
abbrev pages_for : ℕ → ℕ → ℕ
pages_for total limit = (total + (limit - 1)) / limit

pages_for_lt :
    (total limit n : ℕ) → 0 < limit → ltb (n * limit) total ≡ ltb n (pages_for total limit)
pages_for_lt total limit n p =
    let low = div-mul-le_self (total + (limit - 1)) limit in
    let high = lt-div-mul-add {a = total + (limit - 1)} p in
    elim (dec_lt n (pages_for total limit)) [
      | yes inside ↦
          let most =
            mul-le-mul_right {m = suc n} {n = pages_for total limit} limit
              (omega (arith, inside)) in
          ground (arith, low, most, inside)
      | no outside ↦
          let least =
            mul-le-mul_right {m = pages_for total limit} {n = n} limit (omega (arith, outside)) in
          ground (arith, high, least, outside)
    ]

module _ {A : Type 0} (items : List A) where
  page-items :
      (n limit : ℕ)
      → 0 < limit
      → ltb 0 (length (paginate items (suc n) (some limit)).result_set)
        ≡ ltb (n * limit) (length items)
  unfolding paginate
  page-items n limit p =
      let from : (suc n - 1) * limit ≡ n * limit = ap (λ k. k * limit) (omega arith) in
      let to = to-page (suc n) limit (omega arith) in
      let cut =
        length-take (suc n * limit - (suc n - 1) * limit) (drop ((suc n - 1) * limit) items) in
      let left = length-drop ((suc n - 1) * limit) items in ground (arith, from, to, cut, left)

  get_page_count-paginate :
      (page limit : ℕ)
      → 1 < limit
      → get_page_count (some (paginate items page (some limit))) ≡ (
          if ltb 0 (length (paginate items page (some limit)).result_set)
          then pos (pages_for (length items) limit)
          else pos 0)
  unfolding get_page_count ceil_of paginate
  get_page_count-paginate page limit p =
      let none_left : 1 / limit ≡ 0 = div-eq_of_lt p in
      elim (Bool-cases (ltb 0 (length (paginate items page (some limit)).result_set))) [
        | inl some_items ↦ rw some_items refl
        | inr no_items ↦ rw no_items (ap (λ k. minus 0 k) none_left)
      ]

-- For whatever a search asks, there is a number of pages such that the pages from 1 to it are, one after
-- the other, all items, each of them has items and no later page has any; and the frontend counts that
-- many from the response to the search, or none where its own page is a later one.
pub get_page_count-pages :
    {A : Type 0} (items : List A) (page limit : Option ℕ)
    → (count : ℕ) × (first_pages
          (λ p. paginate items p (some (pagination_search page limit).limit))
          count
        ≡ items)
      × ((n : ℕ)
          → ltb 0 (
              length
                (paginate items (suc n) (some (pagination_search page limit).limit)).result_set)
            ≡ ltb n count)
      × (get_page_count (
            some (
              paginate items
                (pagination_search page limit).page
                (some (pagination_search page limit).limit)))
          ≡ (if ltb 0 (
                length
                  (paginate items
                    (pagination_search page limit).page
                    (some (pagination_search page limit).limit)).result_set)
              then pos count
              else pos 0))
unfolding pagination_search
get_page_count-pages items page limit =
    let l = parsed_limit limit in
    let p = parsed_limit_gt limit in
    let count = pages_for (length items) l in
    let high = lt-div-mul-add {a = length items + (l - 1)} {b = l} (omega (arith, p)) in
    (
      count,
      (first_pages-paginate items l count (omega (arith, high, p))).0,
      λ n.
          page-items items n l (omega (arith, p))
          ∙ pages_for_lt (length items) l n (omega (arith, p)),
      get_page_count-paginate items (parsed_page page) l p,
    )

-- ===== src/Paging/Whole.antt =====
-- The pages of a list are the whole list.
use dashscan.Prelude.{
  ℕ, zero, suc, ◌+◌, ◌-◌, ◌*◌, ◌≤◌, ◌<◌, ◌≡◌, refl, ap, ◌∙◌, sym, some, List, [], ◌∷◌, ◌++◌, arith,
  take, drop, slice, length, length-take, take_all,
}
use mathlib.Core.Path.{ap₂}
use dashscan.Paging.{PaginatedResultSet, paginated, paginate, page_from}

pub to-page : (page limit : ℕ) → 0 < page → (page - 1) * limit + limit ≡ page * limit
to-page zero limit p = elim p [ ]
to-page (suc page) limit p =
    let e : (suc page - 1) * limit ≡ page * limit = ap (λ k. k * limit) (omega arith) in
    omega (arith, e)

module _ {ℓ} {A : Type ℓ} where
  take-nil : (n : ℕ) → take {A = A} n [] ≡ []
  take-nil zero = refl
  take-nil (suc n) = refl

  take_cong : {n m : ℕ} (xs : List A) → n ≡ m → take n xs ≡ take m xs
  take_cong xs e = ap (λ k. take k xs) e

  take-drop : (n k : ℕ) (xs : List A) → take n xs ++ take k (drop n xs) ≡ take (n + k) xs
  take-drop zero k xs = take_cong xs (omega arith)
  take-drop (suc n) k [] = take-nil k ∙ sym (take-nil (suc n + k))
  take-drop (suc n) k (x ∷ xs) =
      ap (λ ys. x ∷ ys) (take-drop n k xs)
      ∙ take_cong {n = suc (n + k)} {m = suc n + k} (x ∷ xs) (omega arith)

  -- The first n pages, one after the other.
  unfoldable pub first_pages : (ℕ → PaginatedResultSet A) → ℕ → List A
  first_pages pages zero = []
  first_pages pages (suc n) = first_pages pages n ++ (pages (suc n)).result_set

  slice-next :
      (items : List A) (n limit to : ℕ)
      → to ≡ n * limit + limit
      → take (n * limit) items ++ slice (n * limit) to items ≡ take to items
  slice-next items n limit to e =
      ap (λ k. take (n * limit) items ++ take k (drop (n * limit) items)) (omega arith)
      ∙ take-drop (n * limit) limit items
      ∙ take_cong items (sym e)

  first_pages-eq-take :
      (items : List A) (limit n : ℕ)
      → first_pages (λ page. paginate items page (some limit)) n ≡ take (n * limit) items
  unfolding first_pages paginate
  first_pages-eq-take items limit zero = take_cong {n = 0} {m = 0 * limit} items (omega arith)
  first_pages-eq-take items limit (suc n) =
      let e : (suc n - 1) * limit ≡ n * limit = ap (λ k. k * limit) (omega arith) in
      ap (λ xs. xs ++ slice ((suc n - 1) * limit) (suc n * limit) items)
        (first_pages-eq-take items limit n)
      ∙ ap (λ k. take (n * limit) items ++ slice k (suc n * limit) items) e
      ∙ slice-next items n limit (suc n * limit) (omega arith)

  page_from-eq-paginate :
      (items : List A) (page limit : ℕ)
      → 0 < page
      → page_from items page limit ≡ paginate items page (some limit)
  unfolding page_from paginate
  page_from-eq-paginate items page limit p =
      ap (λ to. paginated (slice ((page - 1) * limit) to items) page limit (length items))
        (to-page page limit p)

  pub first_pages_cong :
      (f g : ℕ → PaginatedResultSet A) (n : ℕ)
      → ((page : ℕ) → 0 < page → (f page).result_set ≡ (g page).result_set)
      → first_pages f n ≡ first_pages g n
  unfolding first_pages
  first_pages_cong f g zero h = refl
  first_pages_cong f g (suc n) h =
      ap₂ (λ xs ys. xs ++ ys) (first_pages_cong f g n h) (h (suc n) (omega arith))

  length-slice : (from to : ℕ) (xs : List A) → length (slice from to xs) ≤ to - from
  length-slice from to xs = omega (arith, length-take (to - from) (drop from xs))

  length-paginate :
      (items : List A) (page limit : ℕ)
      → length (paginate items page (some limit)).result_set ≤ limit
  unfolding paginate
  length-paginate items zero limit = omega (arith, length-slice ((0 - 1) * limit) (0 * limit) items)
  length-paginate items (suc page) limit =
      let most = length-slice ((suc page - 1) * limit) (suc page * limit) items in
      let e = to-page (suc page) limit (omega arith) in omega (arith, most, e)

  -- If n pages have room for all items, the pages from 1 to n are, one after the other, all items, for
  -- paginate and for the pages of the addresses; and no page is longer than the limit.
  pub first_pages-paginate :
      (items : List A) (limit n : ℕ)
      → length items ≤ n * limit
      → (first_pages (λ page. paginate items page (some limit)) n ≡ items)
        × (first_pages (λ page. page_from items page limit) n ≡ items)
        × ((page : ℕ) → length (paginate items page (some limit)).result_set ≤ limit)
  first_pages-paginate items limit n h =
      let all = first_pages-eq-take items limit n ∙ take_all (n * limit) items h in
      (
        all,
        first_pages_cong _ _ n
              (λ page p. ap (λ r. r.result_set) (page_from-eq-paginate items page limit p))
            ∙ all,
        λ page. length-paginate items page limit,
      )

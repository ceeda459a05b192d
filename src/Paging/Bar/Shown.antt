-- ===== src/Paging/Bar/Shown.antt =====
-- Which pages the row shows, and where it leaves some out.
use dashscan.Prelude.{
  ℕ, zero, suc, ◌+◌, ◌-◌, ◌≤◌, ◌<◌, ◌≡◌, refl, Bool, true, false, ◌&&◌, ◌||◌, List, [], ◌∷◌, ◌++◌,
  leb, ltb, ◌==◌, if◌then◌else◌, max, min, sum_of, tabulate, arith, Bool-cases, inl, inr, ◌∙◌,
}
use dashscan.Prelude.Windows.{sum_of-append}
use dashscan.Paging.Bar.{
  PageItem, number, ellipsis_start, ellipsis_end, push_pages, push_if, page_items,
}

-- How often an item is in a row.
abbrev pub is_number : ℕ → PageItem → ℕ
is_number n (number p) = if p == n then 1 else 0
is_number n ellipsis_start = 0
is_number n ellipsis_end = 0

abbrev pub is_start : PageItem → ℕ
is_start (number p) = 0
is_start ellipsis_start = 1
is_start ellipsis_end = 0

abbrev pub is_end : PageItem → ℕ
is_end (number p) = 0
is_end ellipsis_start = 0
is_end ellipsis_end = 1

-- The first page, the last one, the page itself and the two beside it; all pages where they are seven.
abbrev pub is_shown : ℕ → ℕ → ℕ → Bool
is_shown page page_count n =
    ltb n page_count
    && (leb page_count 7
        || ((n == 0) || ((n + 1 == page_count) || (leb page (n + 2) && leb n page))))

sum_of-pages :
    (m from n : ℕ)
    → sum_of (is_number n) (tabulate m from (λ p. number p))
      ≡ (if leb from n && ltb n (from + m) then 1 else 0)
sum_of-pages zero from n = ground arith
sum_of-pages (suc m) from n = ground (arith, sum_of-pages m (suc from) n)

sum_of-starts : (m from : ℕ) → sum_of is_start (tabulate m from (λ p. number p)) ≡ 0
sum_of-starts zero from = refl
sum_of-starts (suc m) from = omega (arith, sum_of-starts m (suc from))

sum_of-ends : (m from : ℕ) → sum_of is_end (tabulate m from (λ p. number p)) ≡ 0
sum_of-ends zero from = refl
sum_of-ends (suc m) from = omega (arith, sum_of-ends m (suc from))

module _ (page page_count : ℕ) where
  abbrev first_pushed : ℕ
  first_pushed = max 1 (page - 1 - 1)

  abbrev end_pushed : ℕ
  end_pushed = min (page_count - 2) (page - 1 + 1) + 1

  sum_of-few :
      (f : PageItem → ℕ)
      → leb page_count 7 ≡ true
      → sum_of f (page_items page page_count) ≡ sum_of f (push_pages 0 page_count)
  unfolding page_items
  sum_of-few f few = rw few refl

  sum_of-many :
      (f : PageItem → ℕ)
      → leb page_count 7 ≡ false
      → sum_of f (page_items page page_count)
        ≡ f (number 0)
          + (sum_of f (push_if (ltb 2 (page - 1)) ellipsis_start)
              + (sum_of f (push_pages first_pushed end_pushed)
                  + (sum_of f (push_if (ltb (page - 1) (page_count - 3)) ellipsis_end)
                      + f (number (page_count - 1)))))
  unfolding page_items
  sum_of-many f many =
      let last = number (page_count - 1) ∷ [] in
      let dots = push_if (ltb (page - 1) (page_count - 3)) ellipsis_end in
      let pages = push_pages first_pushed end_pushed in
      rw many (
        omega (
          arith,
          sum_of-append f (push_if (ltb 2 (page - 1)) ellipsis_start) (pages ++ (dots ++ last)),
          sum_of-append f pages (dots ++ last),
          sum_of-append f dots last,
        ))

  module _ (p : 0 < page) (q : page ≤ page_count) where
    numbers :
        (n : ℕ)
        → sum_of (is_number n) (page_items page page_count)
          ≡ (if is_shown page page_count n then 1 else 0)
    numbers n = elim (Bool-cases (leb page_count 7)) [
      | inl few ↦
          sum_of-few (is_number n) few ∙ sum_of-pages (page_count - 0) 0 n ∙ ground (arith, few)
      | inr many ↦
          sum_of-many (is_number n) many
          ∙ ground (arith, many, p, q, sum_of-pages (end_pushed - first_pushed) first_pushed n)
    ]

    starts :
        sum_of is_start (page_items page page_count)
        ≡ (if is_shown page page_count 1 || leb page_count 7 then 0 else 1)
    starts = elim (Bool-cases (leb page_count 7)) [
      | inl few ↦ sum_of-few is_start few ∙ sum_of-starts (page_count - 0) 0 ∙ ground (arith, few)
      | inr many ↦
          sum_of-many is_start many
          ∙ ground (arith, many, p, q, sum_of-starts (end_pushed - first_pushed) first_pushed)
    ]

    ends :
        sum_of is_end (page_items page page_count)
        ≡ (if is_shown page page_count (page_count - 2) || leb page_count 7 then 0 else 1)
    ends = elim (Bool-cases (leb page_count 7)) [
      | inl few ↦ sum_of-few is_end few ∙ sum_of-ends (page_count - 0) 0 ∙ ground (arith, few)
      | inr many ↦
          sum_of-many is_end many
          ∙ ground (arith, many, p, q, sum_of-ends (end_pushed - first_pushed) first_pushed)
    ]

-- Where an item stands among the pages: an ellipsis after the first page, or before the last one.
abbrev pub place_of : ℕ → PageItem → ℕ
place_of page_count (number p) = p + p
place_of page_count ellipsis_start = 1
place_of page_count ellipsis_end = page_count + page_count - 3

-- Each item stands after the one before it, and the first from `low` on.
abbrev pub IsRising : ℕ → ℕ → List PageItem → Type 0
IsRising page_count low [] = Unit
IsRising page_count low (x ∷ xs) =
    (low ≤ place_of page_count x) × IsRising page_count (suc (place_of page_count x)) xs

IsRising-from :
    (c low low' : ℕ) (xs : List PageItem) → low' ≤ low → IsRising c low xs → IsRising c low' xs
IsRising-from c low low' [] h r = tt
IsRising-from c low low' (x ∷ xs) h r = (omega (arith, r.0, h), r.1)

IsRising-pages :
    (c low m from : ℕ) (ys : List PageItem)
    → low + 1 ≤ from + from
    → IsRising c (from + m + (from + m) - 1) ys
    → IsRising c low (tabulate m from (λ p. number p) ++ ys)
IsRising-pages c low zero from ys h r = IsRising-from c _ low ys (omega (arith, h)) r
IsRising-pages c low (suc m) from ys h r = (
  omega (arith, h),
  IsRising-pages c (suc (from + from)) m (suc from) ys (omega arith)
      (IsRising-from c _ _ ys (omega arith) r),
)

IsRising-push_if :
    (c low : ℕ) (test : Bool) (x : PageItem) (ys : List PageItem)
    → (test ≡ true → (low ≤ place_of c x) × IsRising c (suc (place_of c x)) ys)
    → (test ≡ false → IsRising c low ys)
    → IsRising c low (push_if test x ++ ys)
IsRising-push_if c low true x ys h k = h refl
IsRising-push_if c low false x ys h k = k refl

IsRising-few :
    (c m from low : ℕ) → low ≤ from + from → IsRising c low (tabulate m from (λ p. number p))
IsRising-few c zero from low h = tt
IsRising-few c (suc m) from low h =
    (h, IsRising-few c m (suc from) (suc (from + from)) (omega arith))

-- What follows the first ellipsis.
abbrev rest_of : ℕ → ℕ → List PageItem
rest_of page page_count =
    push_pages (first_pushed page page_count) (end_pushed page page_count)
    ++ (push_if (ltb (page - 1) (page_count - 3)) ellipsis_end ++ (number (page_count - 1) ∷ []))

module _ (page page_count : ℕ) (p : 0 < page) (q : page ≤ page_count) where
  rest_of-IsRising :
      (low : ℕ)
      → 7 < page_count
      → low + 1 ≤ first_pushed page page_count + first_pushed page page_count
      → IsRising page_count low (rest_of page page_count)
  rest_of-IsRising low big h =
      let from = first_pushed page page_count in
      let to = end_pushed page page_count in
      IsRising-pages page_count low (to - from) from
        (push_if (ltb (page - 1) (page_count - 3)) ellipsis_end ++ (number (page_count - 1) ∷ [])) h
        (IsRising-push_if page_count (from + (to - from) + (from + (to - from)) - 1)
          (ltb (page - 1) (page_count - 3)) ellipsis_end (number (page_count - 1) ∷ [])
          (λ t. (ground (arith, t, big, p, q), (omega (arith, big), tt)))
          (λ t. (omega (arith, big, p, q), tt)))

  page_items-IsRising : IsRising page_count 0 (page_items page page_count)
  unfolding page_items
  page_items-IsRising = elim (Bool-cases (leb page_count 7)) [
    | inl few ↦ rw few (IsRising-few page_count (page_count - 0) 0 0 (omega arith))
    | inr many ↦
        let big : 7 < page_count = ground (arith, many) in
        rw many (
          omega arith,
          IsRising-push_if page_count 1 (ltb 2 (page - 1)) ellipsis_start (rest_of page page_count)
              (λ t. (omega arith, rest_of-IsRising 2 big (ground (arith, t))))
              (λ t. rest_of-IsRising 1 big (omega arith)),
        )
  ]

-- On a page that exists, the row has each of the first page, the last one, the page itself and the two
-- beside it once, and no other, or all pages once where they are at most seven; it has an ellipsis after
-- the first page if the second is left out of more than seven, one before the last if the last but one
-- is, and no other; and its items stand in the order of their places.
pub page_items-shown :
    (page page_count : ℕ)
    → 0 < page
    → page ≤ page_count
    → ((n : ℕ)
        → sum_of (is_number n) (page_items page page_count)
          ≡ (if is_shown page page_count n then 1 else 0))
      × (sum_of is_start (page_items page page_count)
          ≡ (if is_shown page page_count 1 || leb page_count 7 then 0 else 1))
      × (sum_of is_end (page_items page page_count)
          ≡ (if is_shown page page_count (page_count - 2) || leb page_count 7 then 0 else 1))
      × IsRising page_count 0 (page_items page page_count)
page_items-shown page page_count p q = (
  numbers page page_count p q,
  starts page page_count p q,
  ends page page_count p q,
  page_items-IsRising page page_count p q,
)

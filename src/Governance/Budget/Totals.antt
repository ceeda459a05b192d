-- ===== src/Governance/Budget/Totals.antt =====
-- Which proposals the totals of the budget stand for.
use dashscan.Prelude.{
  ◌<◌, true, ℤ, leb, if◌then◌else◌, ap, subst, All, All-both, All-weaken, IsSorted,
  sort_by-IsSorted, leb_int_total, leb_int_trans, Bool-cases, inl, inr, ℕ, ◌+◌, ◌-◌, ◌≤◌, ◌≡◌, refl,
  ◌∙◌, Bool, List, [], ◌∷◌, arith, leb_int, pos, sort_by, sum_of, sum_of-sort_by, keep, length,
}
use dashscan.Governance.Proposals.{GovernanceObject, amount_of, votes_of}
use dashscan.Governance.Budget.{filter_funds, is_ahead, budget_info}

-- The money that a filter has given out at its end, within the budget.
filter_funds-sum :
    (budget running : ℕ) (ps : List GovernanceObject)
    → running ≤ budget
    → ((filter_funds budget running ps).1
        ≡ running + sum_of amount_of (filter_funds budget running ps).0)
      × ((filter_funds budget running ps).1 ≤ budget)
unfolding filter_funds
filter_funds-sum budget running [] h = ground arith
filter_funds-sum budget running (p ∷ ps) h =
    ground (
      arith,
      filter_funds-sum budget running ps,
      filter_funds-sum budget (running + amount_of p) ps,
    )

-- The proposals that a filter does not keep.
abbrev left_over : ℕ → ℕ → List GovernanceObject → List GovernanceObject
left_over budget running [] = []
left_over budget running (p ∷ ps) =
    let left = left_over budget (running + amount_of p) ps in
    let skipped = left_over budget running ps in
    if leb (running + amount_of p) budget then left else p ∷ skipped

filter_funds-split :
    (f : GovernanceObject → ℕ) (budget running : ℕ) (ps : List GovernanceObject)
    → sum_of f (filter_funds budget running ps).0 + sum_of f (left_over budget running ps)
      ≡ sum_of f ps
unfolding filter_funds
filter_funds-split f budget running [] = refl
filter_funds-split f budget running (p ∷ ps) = ground (
  arith,
  filter_funds-split f budget running ps,
  filter_funds-split f budget (running + amount_of p) ps,
)

All-left_over :
    (P : GovernanceObject → Type 0) (budget running : ℕ) (ps : List GovernanceObject)
    → All P ps
    → All P (left_over budget running ps)
All-left_over P budget running [] a = tt
All-left_over P budget running (p ∷ ps) a = elim (Bool-cases (leb (running + amount_of p) budget)) [
  | inl fits ↦ rw fits (All-left_over P budget (running + amount_of p) ps a.1)
  | inr over ↦ rw over (a.0, All-left_over P budget running ps a.1)
]

-- What proposals with at least so many votes ask for.
abbrev pub asked_from : ℤ → List GovernanceObject → ℕ
asked_from votes ps = sum_of (λ p. if leb_int votes (votes_of p) then amount_of p else 0) ps

left_over-refused :
    (budget running : ℕ) (ps : List GovernanceObject)
    → IsSorted is_ahead ps
    → All
        (λ p.
          budget
          < running + amount_of p + asked_from (votes_of p) (filter_funds budget running ps).0)
        (left_over budget running ps)
unfolding filter_funds
left_over-refused budget running [] s = tt
left_over-refused budget running (p ∷ ps) s =
    let (taken, end) = filter_funds budget (running + amount_of p) ps in
    elim (Bool-cases (leb (running + amount_of p) budget)) [
      | inl fits ↦ rw fits (
          All-both (left_over budget (running + amount_of p) ps)
            (λ q h ahead. ground (arith, h, ahead))
            (left_over-refused budget (running + amount_of p) ps s.1)
            (All-left_over (λ q. is_ahead p q ≡ true) budget (running + amount_of p) ps s.0))
      | inr over ↦ rw over (ground (arith, over), left_over-refused budget running ps s.1)
    ]

-- What is paid out of a budget to the proposals that pass a test: with the ones that are paid for and the
-- ones that are not these are all that pass; the paid ones ask for what is paid, no more than the budget, and
-- each unpaid one for more than what the paid ones with at least as many votes leave of it.
abbrev pub IsPaidOut : ℕ → (GovernanceObject → Bool) → List GovernanceObject → ℕ → ℕ → Type 0
IsPaidOut budget test ps total count =
    (paid : List GovernanceObject) × (unpaid : List GovernanceObject) × ((f : GovernanceObject → ℕ)
      → sum_of f paid + sum_of f unpaid ≡ sum_of (λ p. if test p then f p else 0) ps)
    × (total ≡ sum_of amount_of paid)
    × (count ≡ length paid)
    × (total ≤ budget)
    × All (λ p. budget < amount_of p + asked_from (votes_of p) paid) unpaid

sum_of-kept :
    (f : GovernanceObject → ℕ) (test : GovernanceObject → Bool) (ps : List GovernanceObject)
    → sum_of f (keep test ps) ≡ sum_of (λ p. if test p then f p else 0) ps
sum_of-kept f test [] = refl
sum_of-kept f test (p ∷ ps) = ground (arith, sum_of-kept f test ps)

filter_funds-IsPaidOut :
    (budget : ℕ) (test : GovernanceObject → Bool) (ps : List GovernanceObject)
    → IsPaidOut budget test ps
        (filter_funds budget 0 (sort_by is_ahead (keep test ps))).1
        (length (filter_funds budget 0 (sort_by is_ahead (keep test ps))).0)
filter_funds-IsPaidOut budget test ps =
    let ranked = sort_by is_ahead (keep test ps) in
    let (sum, within) = filter_funds-sum budget 0 ranked (omega arith) in
    (
      (filter_funds budget 0 ranked).0,
      left_over budget 0 ranked,
      λ f.
          filter_funds-split f budget 0 ranked
          ∙ sum_of-sort_by is_ahead f (keep test ps)
          ∙ sum_of-kept f test ps,
      omega (arith, sum),
      refl,
      within,
      All-weaken (left_over budget 0 ranked) (λ p h. omega (arith, h))
          (left_over-refused budget 0 ranked (
            sort_by-IsSorted is_ahead (λ x y h. leb_int_total (votes_of y) (votes_of x) h)
              (λ x y z h k. leb_int_trans (votes_of z) (votes_of y) (votes_of x) k h)
              (keep test ps))),
    )

keep_all : (ps : List GovernanceObject) → keep (λ _. true) ps ≡ ps
keep_all [] = refl
keep_all (p ∷ ps) = ap (λ qs. p ∷ qs) (keep_all ps)

length-sum_of : (ps : List GovernanceObject) → length ps ≡ sum_of (λ _. 1) ps
length-sum_of [] = refl
length-sum_of (p ∷ ps) = omega (arith, length-sum_of ps)

-- At least so many votes more for it than against it, where a missing count is none.
abbrev pub has_votes : ℕ → GovernanceObject → Bool
has_votes required p = leb_int (pos required) (votes_of p)

-- The totals of enough funds are those of what is paid out of the budget by rank to all proposals, and the
-- totals of enough votes and funds those of what is paid to the ones with the required votes, whose totals
-- are those of enough votes; and what remains after these are paid is not below zero.
pub budget_info-IsPaidOut :
    (total_budget required : ℕ) (proposals : List GovernanceObject)
    → IsPaidOut total_budget
        (λ _. true)
        proposals
        (budget_info total_budget required proposals).enough_funds_total
        (budget_info total_budget required proposals).enough_funds_count
      × IsPaidOut total_budget
          (has_votes required)
          proposals
          (budget_info total_budget required proposals).enough_votes_and_funds_total
          (budget_info total_budget required proposals).enough_votes_and_funds_count
      × ((budget_info total_budget required proposals).enough_votes_total
          ≡ sum_of (λ p. if has_votes required p then amount_of p else 0) proposals)
      × ((budget_info total_budget required proposals).enough_votes_count
          ≡ sum_of (λ p. if has_votes required p then 1 else 0) proposals)
      × ((budget_info total_budget required proposals).remaining_enough_votes_and_funds
          ≡ pos (
              total_budget
              - (budget_info total_budget required proposals).enough_votes_and_funds_total))
unfolding budget_info
budget_info-IsPaidOut budget required ps =
    let enough = keep (has_votes required) ps in
    let (sum, within) = filter_funds-sum budget 0 (sort_by is_ahead enough) (omega arith) in
    (
      subst
          (λ qs.
            IsPaidOut budget (λ _. true) ps (filter_funds budget 0 (sort_by is_ahead qs)).1
              (length (filter_funds budget 0 (sort_by is_ahead qs)).0))
          (keep_all ps) (filter_funds-IsPaidOut budget (λ _. true) ps),
      filter_funds-IsPaidOut budget (has_votes required) ps,
      sum_of-kept amount_of (has_votes required) ps,
      length-sum_of enough ∙ sum_of-kept (λ _. 1) (has_votes required) ps,
      ground (arith, within),
    )

-- ===== src/Governance/Proposals/Result.antt =====
-- What the budget pays for: never more than it has, and by rank.
use dashscan.Prelude.{
  ℕ, suc, ◌+◌, ◌≤◌, ◌<◌, ◌≡◌, refl, ap, ◌∙◌, sym, Bool, false, ◌&&◌, String, Option, none, some,
  List, [], ◌∷◌, map, arith, str_eq, if◌then◌else◌, get_or_else, ℤ, leb_int, leb_int_total,
  leb_int_trans, sort_by, sum_of, sum_of-sort_by, All, All-weaken, All-map, All-both, All-sort_by,
  All-of-sort_by, IsApart, sort_by-IsApart, sort_by-IsSorted,
}
use dashscan.Governance.Proposals.{
  GovernanceObject, amount_of, votes_of, judge, Ref, refs_from, is_ranked, fund, set_funds,
  is_before, get_proposals,
}
use dashscan.Governance.Proposals.Funds.{
  is_at, cost, cost_from, IsOther, IsRefused, fund-IsWithin, fund-IsRefused,
}

abbrev pub is_funded : GovernanceObject → Bool
is_funded p = get_or_else p.enough_funds false

-- What the funded proposals ask for, all of them or those with at least so many votes.
abbrev pub spent : List GovernanceObject → ℕ
spent ps = sum_of (λ p. if is_funded p then amount_of p else 0) ps

abbrev pub spent_from : ℤ → List GovernanceObject → ℕ
spent_from votes ps =
    sum_of (λ p. if is_funded p && leb_int votes (votes_of p) then amount_of p else 0) ps

-- The positions are the proposals' own.
refs_from-IsOther :
    (i j : ℕ) (p : GovernanceObject) (ps : List GovernanceObject)
    → i < j
    → All (IsOther (i, p)) (refs_from j ps)
refs_from-IsOther i j p [] h = tt
refs_from-IsOther i j p (q ∷ ps) h = (ground arith, refs_from-IsOther i (suc j) p ps (omega arith))

refs_from-IsApart : (i : ℕ) (ps : List GovernanceObject) → IsApart IsOther (refs_from i ps)
refs_from-IsApart i [] = tt
refs_from-IsApart i (p ∷ ps) =
    (refs_from-IsOther i (suc i) p ps (omega arith), refs_from-IsApart (suc i) ps)

-- An object whose flag is clear before the funds are given out.
abbrev IsClear : Ref → Type 0
IsClear (i, p) = p.enough_funds ≡ some false

refs_from-IsClear :
    (i required : ℕ) (ps : List GovernanceObject)
    → All IsClear (refs_from i (map (judge required) ps))
refs_from-IsClear i required [] = tt
refs_from-IsClear i required (p ∷ ps) = (refl, refs_from-IsClear (suc i) required ps)

set_funds-flag :
    (funded : List ℕ) (i : ℕ) (p : GovernanceObject)
    → IsClear (i, p)
    → is_funded (set_funds funded (i, p)) ≡ is_at i funded
set_funds-flag funded i p c = ground (arith, c)

set_funds-kept :
    (funded : List ℕ) (i : ℕ) (p : GovernanceObject)
    → (amount_of (set_funds funded (i, p)) ≡ amount_of p)
      × (votes_of (set_funds funded (i, p)) ≡ votes_of p)
set_funds-kept funded i p = ground arith

spent-set_funds :
    (funded : List ℕ) (rs : List Ref)
    → All IsClear rs
    → spent (map (set_funds funded) rs) ≡ sum_of (cost funded) rs
spent-set_funds funded [] c = refl
spent-set_funds funded ((i, p) ∷ rs) c =
    let rest = spent-set_funds funded rs c.1 in
    let here = c.0 in
    ground (arith, rest, here, set_funds-flag funded i p c.0, set_funds-kept funded i p)

spent_from-set_funds :
    (votes : ℤ) (funded : List ℕ) (rs : List Ref)
    → All IsClear rs
    → spent_from votes (map (set_funds funded) rs) ≡ sum_of (cost_from votes funded) rs
spent_from-set_funds votes funded [] c = refl
spent_from-set_funds votes funded ((i, p) ∷ rs) c =
    let rest = spent_from-set_funds votes funded rs c.1 in
    let here = c.0 in
    ground (arith, rest, here, set_funds-flag funded i p c.0, set_funds-kept funded i p)

-- A list in which the funds are given out by rank.
abbrev pub IsFunded : ℕ → List GovernanceObject → Type 0
IsFunded budget ps =
    (spent ps ≤ budget)
    × All (λ p. is_funded p ≡ false → budget < amount_of p + spent_from (votes_of p) ps) ps

refs-IsRefused :
    (budget : ℕ) (rs : List Ref)
    → IsApart IsOther rs
    → All (IsRefused budget 0 (fund budget 0 (sort_by is_ranked rs)) (sort_by is_ranked rs)) rs
refs-IsRefused budget rs a = All-of-sort_by is_ranked _ rs (
    fund-IsRefused budget 0 (sort_by is_ranked rs)
      (sort_by-IsApart is_ranked IsOther (λ x y h. ground arith) rs a)
      (sort_by-IsSorted is_ranked (λ x y h. leb_int_total (votes_of y.1) (votes_of x.1) h)
        (λ x y z h k. leb_int_trans (votes_of z.1) (votes_of y.1) (votes_of x.1) k h) rs))

set_funds-refused :
    (budget : ℕ) (funded : List ℕ) (ranked : List Ref) (ps : List GovernanceObject) (i : ℕ)
    (p : GovernanceObject)
    → ((votes : ℤ) → spent_from votes ps ≡ sum_of (cost_from votes funded) ranked)
    → IsClear (i, p)
    → IsRefused budget 0 funded ranked (i, p)
    → is_funded (set_funds funded (i, p)) ≡ false
    → budget
      < amount_of (set_funds funded (i, p)) + spent_from (votes_of (set_funds funded (i, p))) ps
set_funds-refused budget funded ranked ps i p same c h refused =
    let k = h (sym (set_funds-flag funded i p c) ∙ refused) in
    let e = set_funds-kept funded i p in
    let total : spent_from (votes_of (set_funds funded (i, p))) ps
        ≡ sum_of (cost_from (votes_of p) funded) ranked =
      ap (λ v. spent_from v ps) e.1 ∙ same (votes_of p) in
    omega (arith, k, e.0, total)

set_funds-IsFunded :
    (budget : ℕ) (rs : List Ref)
    → IsApart IsOther rs
    → All IsClear rs
    → IsFunded budget (map (set_funds (fund budget 0 (sort_by is_ranked rs))) rs)
set_funds-IsFunded budget rs a c =
    let ranked = sort_by is_ranked rs in
    let funded = fund budget 0 ranked in
    let within =
      fund-IsWithin budget 0 ranked (sort_by-IsApart is_ranked IsOther (λ x y h. ground arith) rs a)
        (omega arith) in
    let result = map (set_funds funded) rs in
    let refused : All
        (λ r.
          is_funded (set_funds funded r) ≡ false
          → budget
            < amount_of (set_funds funded r) + spent_from (votes_of (set_funds funded r)) result)
        rs =
      All-both rs
        (λ (i, p) h clear out.
          set_funds-refused budget funded ranked result i p
            (λ v.
              spent_from-set_funds v funded rs c
              ∙ sym (sum_of-sort_by is_ranked (cost_from v funded) rs))
            clear h out)
        (refs-IsRefused budget rs a) c in
    (
      omega (arith, within, sum_of-sort_by is_ranked (cost funded) rs, spent-set_funds funded rs c),
      All-map _ rs (set_funds funded) (λ r h. h) refused,
    )

sort_by-IsFunded :
    (le : GovernanceObject → GovernanceObject → Bool) (budget : ℕ) (ps : List GovernanceObject)
    → IsFunded budget ps
    → IsFunded budget (sort_by le ps)
sort_by-IsFunded le budget ps (within, refused) = (
  omega (arith, sum_of-sort_by le (λ p. if is_funded p then amount_of p else 0) ps),
  All-sort_by le _ ps (
      All-weaken ps
        (λ p h out.
          let k = h out in
          let e =
            sum_of-sort_by le
              (λ q. if is_funded q && leb_int (votes_of p) (votes_of q) then amount_of q else 0)
              ps in
          omega (arith, k, e))
        refused),
)

-- In whatever order the proposals are asked for, the funded ones together ask for no more than the
-- budget, and one that is not funded asks for more than what the funded proposals with at least as
-- many votes leave of it.
pub get_proposals-IsFunded :
    (locale : String → String → Bool) (required total_budget : ℕ) (order_by : Option String)
    (order : String) (objects : List GovernanceObject)
    → IsFunded total_budget (get_proposals locale required total_budget order_by order objects)
unfolding get_proposals
get_proposals-IsFunded locale required budget none order objects =
    let refs = refs_from 0 (map (judge required) objects) in
    set_funds-IsFunded budget refs (refs_from-IsApart 0 _) (refs_from-IsClear 0 required objects)
get_proposals-IsFunded locale required budget (some order_by) order objects =
    let refs = refs_from 0 (map (judge required) objects) in
    sort_by-IsFunded (is_before locale order_by (str_eq order "desc")) budget _ (
      set_funds-IsFunded budget refs (refs_from-IsApart 0 _) (refs_from-IsClear 0 required objects))

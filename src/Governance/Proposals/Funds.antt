-- ===== src/Governance/Proposals/Funds.antt =====
-- The reduce that gives out the funds, over the ranked list of objects.
use dashscan.Prelude.{
  ℕ, ◌+◌, ◌≤◌, ◌<◌, ◌≡◌, refl, sym, subst, Bool, true, false, ◌&&◌, List, [], ◌∷◌, arith, ◌==◌, any,
  if◌then◌else◌, ℤ, leb_int, sum_of, sum_of-All, All, All-weaken, All-both, IsApart, IsSorted,
  dec_lt,
}
use dashscan.Governance.Proposals.{GovernanceObject, amount_of, votes_of, Ref, is_ranked, fund}

abbrev pub is_at : ℕ → List ℕ → Bool
is_at i funded = any (λ j. j == i) funded

-- The two sums over shared objects, by the positions that are funded.
abbrev pub cost : List ℕ → Ref → ℕ
cost funded (i, p) = if is_at i funded then amount_of p else 0

abbrev pub cost_from : ℤ → List ℕ → Ref → ℕ
cost_from votes funded (i, p) =
    if is_at i funded && leb_int votes (votes_of p) then amount_of p else 0

abbrev pub IsOther : Ref → Ref → Type 0
IsOther a b = (a.0 == b.0) ≡ false

fund-avoids :
    (i budget running : ℕ) (p : GovernanceObject) (rs : List Ref)
    → All (IsOther (i, p)) rs
    → is_at i (fund budget running rs) ≡ false
unfolding fund
fund-avoids i budget running p [] a = refl
fund-avoids i budget running p ((j, q) ∷ rs) a =
    let skipped = fund-avoids i budget running p rs a.1 in
    let taken = fund-avoids i budget (running + amount_of q) p rs a.1 in
    ground (arith, skipped, taken)

cost-skips :
    (i : ℕ) (p : GovernanceObject) (funded : List ℕ) (rs : List Ref)
    → All (IsOther (i, p)) rs
    → sum_of (cost (i ∷ funded)) rs ≡ sum_of (cost funded) rs
cost-skips i p funded rs a = sum_of-All _ _ rs (All-weaken rs (λ r o. ground arith) a)

cost_from-skips :
    (i : ℕ) (p : GovernanceObject) (votes : ℤ) (funded : List ℕ) (rs : List Ref)
    → All (IsOther (i, p)) rs
    → sum_of (cost_from votes (i ∷ funded)) rs ≡ sum_of (cost_from votes funded) rs
cost_from-skips i p votes funded rs a = sum_of-All _ _ rs (All-weaken rs (λ r o. ground arith) a)

fund-over :
    (budget running i : ℕ) (p : GovernanceObject) (rs : List Ref)
    → budget < running + amount_of p
    → fund budget running ((i, p) ∷ rs) ≡ fund budget running rs
unfolding fund
fund-over budget running i p rs h = ground arith

fund-fits :
    (budget running i : ℕ) (p : GovernanceObject) (rs : List Ref)
    → running + amount_of p ≤ budget
    → fund budget running ((i, p) ∷ rs) ≡ i ∷ fund budget (running + amount_of p) rs
unfolding fund
fund-fits budget running i p rs h = ground arith

-- The funded proposals cost no more than is left.
pub fund-IsWithin :
    (budget running : ℕ) (rs : List Ref)
    → IsApart IsOther rs
    → running ≤ budget
    → running + sum_of (cost (fund budget running rs)) rs ≤ budget
fund-IsWithin budget running [] a h = omega arith
fund-IsWithin budget running ((i, p) ∷ rs) a h =
    let IsIn : List ℕ → Type 0 = λ f. running + sum_of (cost f) ((i, p) ∷ rs) ≤ budget in
    elim (dec_lt budget (running + amount_of p)) [
      | yes over ↦
          let skipped = fund-IsWithin budget running rs a.1 h in
          let out = fund-avoids i budget running p rs a.0 in
          subst IsIn (sym (fund-over budget running i p rs over)) (ground (arith, skipped, out))
      | no fits ↦
          let taken = fund-IsWithin budget (running + amount_of p) rs a.1 (omega arith) in
          let same = cost-skips i p (fund budget (running + amount_of p) rs) rs a.0 in
          subst IsIn (sym (fund-fits budget running i p rs (omega arith)))
            (ground (arith, taken, same))
    ]

-- A proposal that is not funded costs more than those ranked before it have left.
abbrev pub IsRefused : ℕ → ℕ → List ℕ → List Ref → Ref → Type 0
IsRefused budget running funded rs (i, p) =
    is_at i funded ≡ false
    → budget < running + amount_of p + sum_of (cost_from (votes_of p) funded) rs

IsRefused-later :
    (budget running i : ℕ) (p : GovernanceObject) (funded : List ℕ) (rs : List Ref)
    → All (IsOther (i, p)) rs
    → (r : Ref) → IsRefused budget (running + amount_of p) funded rs r
    → IsOther (i, p) r
    → is_ranked (i, p) r ≡ true
    → IsRefused budget running (i ∷ funded) ((i, p) ∷ rs) r
IsRefused-later budget running i p funded rs a (j, q) h other rank out =
    let k = h (ground arith) in
    let same = cost_from-skips i p (votes_of q) funded rs a in ground arith

pub fund-IsRefused :
    (budget running : ℕ) (rs : List Ref)
    → IsApart IsOther rs
    → IsSorted is_ranked rs
    → All (IsRefused budget running (fund budget running rs) rs) rs
fund-IsRefused budget running [] a s = tt
fund-IsRefused budget running ((i, p) ∷ rs) a s =
    let IsAll : List ℕ → Type 0 =
      λ f. All (IsRefused budget running f ((i, p) ∷ rs)) ((i, p) ∷ rs) in
    elim (dec_lt budget (running + amount_of p)) [
      | yes over ↦
          let later = fund-IsRefused budget running rs a.1 s.1 in
          subst IsAll (sym (fund-over budget running i p rs over))
            (λ out. omega arith, All-weaken rs (λ (j, q) h out. let k = h out in omega arith) later)
      | no fits ↦
          let later = fund-IsRefused budget (running + amount_of p) rs a.1 s.1 in
          subst IsAll (sym (fund-fits budget running i p rs (omega arith))) (
            λ out. ground arith,
            All-both rs (λ r f g. f g)
                (All-both rs
                  (IsRefused-later budget running i p (fund budget (running + amount_of p) rs) rs
                    a.0)
                  later a.0)
                s.0,
          )
    ]

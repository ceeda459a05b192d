-- ===== src/Xpub/Scan/GapLimit.antt =====
-- Where the scan of a branch ends: at the first run of `gapLimit` unused addresses, or at the cap.
use dashscan.Prelude.{
  ℕ, zero, suc, ◌+◌, ◌-◌, ◌≤◌, ◌<◌, ◌≡◌, ap, ◌∙◌, true, false, ◌&&◌, Option, arith, ltb, ◌⊎◌, inl,
  inr, Bool-cases, dec_lt,
}
use dashscan.Xpub.{XpubBranchCache, xpub_max_addresses_per_branch}
use dashscan.Xpub.Scan.{Wallet, scan_branch}
use dashscan.Xpub.Scan.Rounds.{is_used, walk}
use dashscan.Xpub.Scan.Results.{IsValidRead, expected, walk_end, scan_branch-answer}

-- The last `gap_limit` indices before e are all unused.
abbrev pub IsUnusedRun : Wallet → ℕ → ℕ → Type 0
IsUnusedRun w gap_limit e =
    (gap_limit ≤ e) × ((i : ℕ) → e ≤ i + gap_limit → i < e → is_used w i ≡ false)

-- The index at which BIP44's gap limit ends a branch, with the cap on its addresses.
pub record IsGapEnd (w : Wallet) (gap_limit e : ℕ) : Type 0 where
  pub within : e ≤ xpub_max_addresses_per_branch
  pub stopped : (e ≡ xpub_max_addresses_per_branch) ⊎ IsUnusedRun w gap_limit e
  pub first : (k : ℕ) → k < e → ¬ IsUnusedRun w gap_limit k

module _ (w : Wallet) (gap_limit : ℕ) where
  -- `run` counts the unused addresses that end at i, and no more.
  record IsRun (i run : ℕ) : Type 0 where
    short : run ≤ i
    cap : i ≤ xpub_max_addresses_per_branch
    unused : (j : ℕ) → i ≤ j + run → j < i → is_used w j ≡ false
    maximal : run < i → is_used w (i - run - 1) ≡ true

  IsRun-used :
      (i run : ℕ)
      → IsRun i run
      → i < xpub_max_addresses_per_branch
      → is_used w i ≡ true
      → IsRun (i + 1) 0
  IsRun-used i run h c u = record {
    short = omega arith;
    cap = omega arith;
    unused = λ j p q. absurd (omega arith);
    maximal = λ _. ap (is_used w) {x = i + 1 - 0 - 1} {y = i} (omega arith) ∙ u;
  }

  IsRun-unused :
      (i run : ℕ)
      → IsRun i run
      → i < xpub_max_addresses_per_branch
      → is_used w i ≡ false
      → IsRun (i + 1) (run + 1)
  IsRun-unused i run h c u = record {
    short = omega (arith, h.short);
    cap = omega arith;
    unused = λ j p q. elim (dec_lt j i) [
      | yes before ↦ h.unused j (omega arith) before
      | no last ↦ ap (is_used w) {x = j} {y = i} (omega arith) ∙ u
    ];
    maximal = λ p.
        ap (is_used w) {x = i + 1 - (run + 1) - 1} {y = i - run - 1} (omega arith)
        ∙ h.maximal (omega arith);
  }

  not-IsUnusedRun : (i run : ℕ) → IsRun i run → run < gap_limit → ¬ IsUnusedRun w gap_limit i
  not-IsUnusedRun i run h short (room, all) =
      let used = h.maximal (omega arith) in
      let unused = all (i - run - 1) (omega (arith, h.short)) (omega arith) in cc

  walk-IsGapEnd :
      (fuel i run : ℕ)
      → IsRun i run
      → ((k : ℕ) → k < i → ¬ IsUnusedRun w gap_limit k)
      → xpub_max_addresses_per_branch < i + fuel
      → IsGapEnd w gap_limit (walk w gap_limit fuel i run)
  unfolding walk
  walk-IsGapEnd zero i run h before f = absurd (omega (arith, h.cap))
  walk-IsGapEnd (suc fuel) i run h before f =
      elim (Bool-cases (ltb run gap_limit && ltb i xpub_max_addresses_per_branch)) [
        | inl go ↦
            rw (go, walk)
              (elim (Bool-cases (is_used w i)) [
                | inl u ↦ rw u (
                    walk-IsGapEnd fuel (i + 1) 0 (IsRun-used i run h (ground arith) u) (later go)
                      (omega arith))
                | inr u ↦ rw u (
                    walk-IsGapEnd fuel (i + 1) (run + 1) (IsRun-unused i run h (ground arith) u)
                      (later go) (omega arith))
              ])
        | inr done ↦
            rw (done, walk)
              (record {
                within = h.cap;
                stopped = elim (dec_lt i xpub_max_addresses_per_branch) [
                  | yes room ↦ inr (ended done room)
                  | no full ↦ inl (omega (arith, h.cap))
                ];
                first = before;
              })
      ]
    where
      later :
          (ltb run gap_limit && ltb i xpub_max_addresses_per_branch) ≡ true
          → (k : ℕ) → k < i + 1
          → ¬ IsUnusedRun w gap_limit k
      later go k below run' = elim (dec_lt k i) [
        | yes old ↦ before k old run'
        | no new ↦ let e : i ≡ k = omega arith in not-IsUnusedRun i run h (ground arith) (rw e run')
      ]

      ended :
          (ltb run gap_limit && ltb i xpub_max_addresses_per_branch) ≡ false
          → i < xpub_max_addresses_per_branch
          → IsUnusedRun w gap_limit i
      ended done room =
          let long : gap_limit ≤ run = ground arith in
          (omega (arith, h.short), λ j p q. h.unused j (omega arith) q)

  walk_end-IsGapEnd :
      0 < gap_limit
      → IsGapEnd w gap_limit (walk w gap_limit (suc xpub_max_addresses_per_branch) 0 0)
  walk_end-IsGapEnd g =
      walk-IsGapEnd (suc xpub_max_addresses_per_branch) 0 0
        (record {
          short = omega arith;
          cap = omega arith;
          unused = λ j p q. absurd (omega arith);
          maximal = λ p. absurd (omega arith);
        })
        (λ k p r. absurd (omega arith)) (omega arith)

-- For any cache entry that agrees with the table, none included, and a positive gap limit: the
-- answer of `scanBranch` is what the table alone gives for the indices below e, where e is the
-- first index that a run of `gapLimit` unused addresses precedes, or the cap if there is none
-- below it.
pub scan_branch-gap_limit :
    (w : Wallet) (branch : ℕ) (cached : Option XpubBranchCache) (gap_limit : ℕ)
    → IsValidRead w cached
    → 0 < gap_limit
    → (e : ℕ) × ((scan_branch w branch cached gap_limit).0 ≡ expected w branch e)
      × IsGapEnd w gap_limit e
unfolding walk_end
scan_branch-gap_limit w branch cached gap_limit valid g = (
  walk_end w cached gap_limit valid,
  scan_branch-answer w cached gap_limit valid branch,
  walk_end-IsGapEnd w gap_limit g,
)

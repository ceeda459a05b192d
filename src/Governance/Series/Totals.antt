-- ===== src/Governance/Series/Totals.antt =====
-- The whole series: one entry for each full step of the window.
use dashscan.Prelude.{
  ℕ, zero, suc, ◌+◌, ◌-◌, ◌*◌, ◌/◌, ◌<◌, ◌≡◌, refl, ap, ◌∙◌, Bool, true, false, String, Option,
  some, List, ◌∷◌, arith, leb, tabulate,
}
use mathlib.Core.Path.{ap₂}
use dashscan.Prelude.Maps.{Dict}
use dashscan.Governance.Votes.{Tally, no_votes, plus}
use dashscan.Governance.Series.{Bucket, SeriesData, to_series, get_proposal_vote_series}
use dashscan.Governance.Series.Steps.{is_in, buckets_of-eq-tabulate}
use dashscan.Governance.Series.Windows.{tally_when, count_votes-row, plus-tally_when}

-- The votes that entry i counts: all until the end of its step, or those of the step.
abbrev pub counts_in : Bool → ℕ → ℕ → ℕ → ℕ → Bool
counts_in true start step i time = leb time (start + suc i * step)
counts_in false start step i time = is_in (start + i * step) (start + suc i * step) time

module _ (number : String → Option ℕ) (weight_map : Dict ℕ) where
  abbrev pub entry : Bool → ℕ → ℕ → List String → ℕ → SeriesData
  entry running_total start step raws i = record {
    timestamp = start + i * step;
    votes = tally_when number weight_map (counts_in running_total start step i) raws no_votes;
  }

  abbrev row : ℕ → ℕ → ℕ → ℕ → List String → List Bucket
  row start step n m raws = tabulate n m (λ i. record {
    from = start + i * step;
    votes = tally_when number weight_map (counts_in false start step i) raws no_votes;
  })

  to_series-plain :
      (start step n m : ℕ) (raws : List String) (total : Tally)
      → to_series number weight_map false total (row start step n m raws)
        ≡ tabulate n m (entry false start step raws)
  unfolding to_series
  to_series-plain start step zero m raws total = refl
  to_series-plain start step (suc n) m raws total =
      ap (λ es. entry false start step raws m ∷ es)
        (to_series-plain start step n (suc m) raws total)

  plus-step :
      (start step m : ℕ) (raws : List String)
      → plus
          (tally_when number weight_map (λ t. leb t (start + m * step)) raws no_votes)
          (tally_when number weight_map (counts_in false start step m) raws no_votes)
        ≡ tally_when number weight_map (counts_in true start step m) raws no_votes
  plus-step start step m raws =
      plus-tally_when number weight_map _ _ _ raws no_votes no_votes (λ t. ground arith)
        (λ t. ground arith)

  to_series-running :
      (start step n m : ℕ) (raws : List String)
      → to_series number weight_map true
          (tally_when number weight_map (λ t. leb t (start + m * step)) raws no_votes)
          (row start step n m raws)
        ≡ tabulate n m (entry true start step raws)
  unfolding to_series
  to_series-running start step zero m raws = refl
  to_series-running start step (suc n) m raws =
      let e = plus-step start step m raws in
      ap₂ (λ t es. record { timestamp = start + m * step; votes = t } ∷ es) e
        (ap (λ t. to_series number weight_map true t (row start step n (suc m) raws)) e
          ∙ to_series-running start step n (suc m) raws)

  to_series-row :
      (running_total : Bool) (start step n : ℕ) (raws : List String)
      → to_series number weight_map running_total
          (tally_when number weight_map (λ t. leb t start) raws no_votes)
          (row start step n 0 raws)
        ≡ tabulate n 0 (entry running_total start step raws)
  to_series-row false start step n raws = to_series-plain start step n 0 raws _
  to_series-row true start step n raws =
      ap
        (λ s.
          to_series number weight_map true
            (tally_when number weight_map (λ t. leb t s) raws no_votes) (row start step n 0 raws))
        (omega arith)
      ∙ to_series-running start step n 0 raws

pub get_proposal_vote_series-eq-tabulate :
    (number : String → Option ℕ) (weight_map : Dict ℕ) (start end step : ℕ) (running_total : Bool)
    (raw_votes : List String)
    → 0 < step
    → get_proposal_vote_series number weight_map start end step running_total raw_votes
      ≡ some (
          tabulate
            ((end - start) / step)
            0
            (entry number weight_map running_total start step raw_votes))
unfolding get_proposal_vote_series
get_proposal_vote_series-eq-tabulate number weight_map start end step running_total raw_votes p =
    let n = (end - start) / step in
    rw (buckets_of-eq-tabulate start end step p) (
      rw (count_votes-row number weight_map start step n raw_votes no_votes (λ i. no_votes) p)
        (ap some (to_series-row number weight_map running_total start step n raw_votes)))

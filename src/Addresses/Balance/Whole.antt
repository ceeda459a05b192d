-- ===== src/Addresses/Balance/Whole.antt =====
-- The series of balances: one entry for each full step of the window.
use mathlib.Core.Option
use mathlib.Core.Path.{ap₂}
use native.Mathlib.Nat.{div-mul-le_self, mul-le-mul_right}
use dashscan.Prelude.{
  ℕ, zero, suc, ◌+◌, ◌-◌, ◌*◌, ◌/◌, ◌≤◌, ◌<◌, ◌≡◌, refl, ap, ◌∙◌, String, Bool, ◌&&◌, not, some,
  List, ◌∷◌, leb, ltb, ◌==◌, arith, tabulate, tabulate_ext, ℤ,
}
use dashscan.Transactions.{Tables}
use dashscan.Transactions.Stats.Exact.{IsChain}
use dashscan.Buckets.{SeriesEntry, in_range, buckets}
use dashscan.Buckets.Ranges.{step_window, ranges-eq-tabulate}
use dashscan.Buckets.Series.{map-tabulate}
use dashscan.Addresses.Activity.{ms_per_day, day_start}
use dashscan.Addresses.Balance.{
  Movement, DayDelta, Flow, add_flow, balance, flow, opening, running_balances, all_txs, window_txs,
  address_balance_series,
}
use dashscan.Addresses.Balance.Moved.{
  IsDaily, moves, flow-join, flow_cong, flow-window_txs, opening-flow,
}

-- Until a moment, but not at the start of the window.
abbrev pub until : ℕ → ℕ → ℕ → Bool
until start end t = leb t end && not (t == start)

abbrev pub balance_entry : ℕ → ℕ → List Movement → ℕ → SeriesEntry ℤ
balance_entry start step ms i = record {
  timestamp = start + i * step;
  value = balance (flow (until start (start + suc i * step)) ms);
}

abbrev bucket_entry : ℕ → ℕ → List Movement → ℕ → SeriesEntry Flow
bucket_entry start step ms i = record {
  timestamp = start + i * step;
  value = flow (in_range (step_window start step i)) ms;
}

running_balances-tabulate :
    (start step n m : ℕ) (total : Flow) (ms : List Movement)
    → total ≡ flow (until start (start + m * step)) ms
    → running_balances total (tabulate n m (bucket_entry start step ms))
      ≡ tabulate n m (balance_entry start step ms)
unfolding running_balances
running_balances-tabulate start step zero m total ms e = refl
running_balances-tabulate start step (suc n) m total ms e =
    let here =
      ap (λ k. add_flow k (flow (in_range (step_window start step m)) ms)) e
      ∙ flow-join (until start (start + m * step)) (in_range (step_window start step m))
          (until start (start + suc m * step)) ms (λ t. ground arith) in
    ap₂ (λ k rows. record { timestamp = start + m * step; value = balance k } ∷ rows) here
      (running_balances-tabulate start step n (suc m) _ ms here)

module _ (to_bigint : String → ℕ) (tables : Tables) (id : ℕ) (chain : IsChain tables) where
  module _ (start end step : ℕ) (forth : start ≤ end) where
    abbrev rows : List Movement
    rows =
        all_txs to_bigint tables id
          (window_txs to_bigint tables id (record { from = day_start start; to = end }))

    initial-eq :
        (deltas : List DayDelta)
        → IsDaily deltas (moves to_bigint tables id)
        → add_flow (opening deltas (start / ms_per_day)) (flow (λ t. ltb t start) rows)
          ≡ flow (until start (start + 0 * step)) (moves to_bigint tables id)
    initial-eq deltas daily =
        ap₂ add_flow (opening-flow deltas _ (start / ms_per_day) daily) (
          flow-window_txs to_bigint tables id chain (record { from = day_start start; to = end })
            (λ t. ltb t start))
        ∙ flow-join _ _ _ _ (λ t. ground arith)

    buckets-eq :
        buckets
          (λ w. flow (in_range w) rows)
          (tabulate ((end - start) / step) 0 (step_window start step))
        ≡ tabulate ((end - start) / step) 0 (bucket_entry start step (moves to_bigint tables id))
    buckets-eq =
        map-tabulate _ _ 0 (step_window start step)
        ∙ tabulate_ext ((end - start) / step) 0 _ _ (λ i p q.
          ap (λ f. record { timestamp = start + i * step; value = f })
            (flow-window_txs to_bigint tables id chain (record { from = day_start start; to = end })
                (in_range (step_window start step i))
              ∙ flow_cong _ _ _ (λ t.
                let low = div-mul-le_self (end - start) step in
                let high =
                  mul-le-mul_right {m = suc i} {n = (end - start) / step} step (omega arith) in
                ground (arith, low, high))))

  -- Where time does not run back along the chain and the rollup has what was moved on each day, a window
  -- that does not end before it starts has, for a step above 0, an entry for each full step, in order, with
  -- the time that the step begins. Its balance is what the address has received until the step ends less
  -- what it has spent, but for what was moved at the very start of the window.
  pub address_balance_series-balances :
      (deltas : List DayDelta) (start end step : ℕ)
      → IsDaily deltas (moves to_bigint tables id)
      → start ≤ end
      → 0 < step
      → address_balance_series to_bigint tables id deltas start end step step
        ≡ some (
            tabulate
              ((end - start) / step)
              0
              (balance_entry start step (moves to_bigint tables id)))
  unfolding address_balance_series
  address_balance_series-balances deltas start end step daily forth positive =
      let all = moves to_bigint tables id in
      let found = rows start end step forth in
      let initial =
        add_flow (opening deltas (start / ms_per_day)) (flow (λ t. ltb t start) found) in
      ap (Option.map (λ ws. running_balances initial (buckets (λ w. flow (in_range w) found) ws)))
        (ranges-eq-tabulate start end step positive)
      ∙ ap (λ es. some (running_balances initial es)) (buckets-eq start end step forth)
      ∙ ap some (
          running_balances-tabulate start step ((end - start) / step) 0 initial all
            (initial-eq start end step forth deltas daily))

-- ===== src/Addresses/Balance/Moved.antt =====
-- What was moved at some times: the window has the movements of its days, and the rollup those before.
use dashscan.Prelude.{
  Option, ℕ, zero, suc, ◌+◌, ◌*◌, ◌/◌, ◌≡◌, refl, sym, ap, ◌∙◌, inl, inr, String, Bool, true, false,
  ◌&&◌, none, some, List, [], ◌∷◌, keep, leb, ltb, ◌==◌, if◌then◌else◌, sum_of, sum_of-All, All,
  All-weaken, Bool-cases, arith,
}
use dashscan.Prelude.Order.{In, here, there}
use dashscan.Prelude.Windows.{Window, sum_of-append}
use dashscan.Transactions.{Tables, AddressTx, BlockRecord, block_at}
use dashscan.Transactions.Found.{find-some}
use dashscan.Transactions.Stats.{spans, blocks_in}
use dashscan.Transactions.Stats.Exact.{IsChain, spans-within}
use dashscan.Addresses.Activity.{ms_per_day}
use dashscan.Addresses.Balance.{
  Movement, DayDelta, Flow, add_flow, value_of, flow, joined_rows, opening, rows_at, received_in,
  spent_in, all_txs, txs_of_address, window_txs,
}

flow_eq : {a b : Flow} → a.received ≡ b.received → a.spent ≡ b.spent → a ≡ b
flow_eq e f = λ i. record { received = e i; spent = f i }

pub flow_cong :
    (p q : ℕ → Bool) (ms : List Movement) → ((t : ℕ) → p t ≡ q t) → flow p ms ≡ flow q ms
flow_cong p q ms h = ap (λ w. flow w ms) (λ i t. h t i)

value_of-join :
    (d : Bool) (p q r : ℕ → Bool) (m : Movement)
    → (if p m.timestamp then 1 else 0) + (if q m.timestamp then 1 else 0)
      ≡ (if r m.timestamp then 1 else 0)
    → value_of d p m + value_of d q m ≡ value_of d r m
value_of-join true p q r m h = ground (arith, h)
value_of-join false p q r m h = ground (arith, h)

sum_of-join :
    (d : Bool) (p q r : ℕ → Bool) (ms : List Movement)
    → ((t : ℕ) → (if p t then 1 else 0) + (if q t then 1 else 0) ≡ (if r t then 1 else 0))
    → sum_of (value_of d p) ms + sum_of (value_of d q) ms ≡ sum_of (value_of d r) ms
sum_of-join d p q r [] h = refl
sum_of-join d p q r (m ∷ ms) h =
    omega (arith, value_of-join d p q r m (h m.timestamp), sum_of-join d p q r ms h)

module _ {A : Type 0} (g : A → List Movement) (p : A → Bool) (within : ℕ → Bool) where
  value_of-none :
      (d : Bool) (when : ℕ → Bool) (m : Movement)
      → within m.timestamp ≡ false
      → value_of d (λ t. when t && within t) m ≡ 0
  value_of-none true when m h = ground (arith, h)
  value_of-none false when m h = ground (arith, h)

  value_of-all :
      (d : Bool) (when : ℕ → Bool) (m : Movement)
      → within m.timestamp ≡ true
      → value_of d when m ≡ value_of d (λ t. when t && within t) m
  value_of-all true when m h = ground (arith, h)
  value_of-all false when m h = ground (arith, h)

  sum_of-none :
      (d : Bool) (when : ℕ → Bool) (ms : List Movement)
      → All (λ m. within m.timestamp ≡ false) ms
      → sum_of (value_of d (λ t. when t && within t)) ms ≡ 0
  sum_of-none d when [] h = refl
  sum_of-none d when (m ∷ ms) h =
      omega (arith, value_of-none d when m h.0, sum_of-none d when ms h.1)

  -- Rows of the kept are the rows of all at the times that are kept.
  sum_of-kept :
      (d : Bool) (when : ℕ → Bool) (xs : List A)
      → ((x : A) → In x xs → All (λ m. within m.timestamp ≡ p x) (g x))
      → sum_of (value_of d when) (joined_rows g (keep p xs))
        ≡ sum_of (value_of d (λ t. when t && within t)) (joined_rows g xs)
  sum_of-kept d when [] h = refl
  sum_of-kept d when (x ∷ xs) h =
      let rest = sum_of-kept d when xs (λ y m. h y (there m)) in
      let split = sum_of-append (value_of d (λ t. when t && within t)) (g x) (joined_rows g xs) in
      let now = h x (here refl) in
      elim (Bool-cases (p x)) [
        | inl kept ↦ rw kept (
            sum_of-append (value_of d when) (g x) (joined_rows g (keep p xs))
            ∙ omega (
              arith,
              rest,
              split,
              sum_of-All (value_of d when) (value_of d (λ t. when t && within t)) (g x)
                  (All-weaken (g x) (λ m e. value_of-all d when m (e ∙ kept)) now),
            ))
        | inr left ↦ rw left (
            omega (
              arith,
              rest,
              split,
              sum_of-none d when (g x) (All-weaken (g x) (λ m e. e ∙ left) now),
            ))
      ]

pub flow-join :
    (p q r : ℕ → Bool) (ms : List Movement)
    → ((t : ℕ) → (if p t then 1 else 0) + (if q t then 1 else 0) ≡ (if r t then 1 else 0))
    → add_flow (flow p ms) (flow q ms) ≡ flow r ms
flow-join p q r ms h = flow_eq (sum_of-join true p q r ms h) (sum_of-join false p q r ms h)

rows_at-All :
    (d : Bool) (values : List ℕ) (o : Option BlockRecord) (within : ℕ → Bool) (c : Bool)
    → ((b : BlockRecord) → o ≡ some b → within b.timestamp ≡ c)
    → All (λ m. within m.timestamp ≡ c) (rows_at d values o)
rows_at-All d values none within c h = tt
rows_at-All d [] (some b) within c h = tt
rows_at-All d (v ∷ vs) (some b) within c h = (h b refl, rows_at-All d vs (some b) within c h)

-- All movements of an address.
abbrev pub moves : (String → ℕ) → Tables → ℕ → List Movement
moves to_bigint tables id = all_txs to_bigint tables id (txs_of_address to_bigint tables id)

module _ (to_bigint : String → ℕ) (tables : Tables) (id : ℕ) (chain : IsChain tables) where
  block_at-within :
      (w : Window) (height : ℕ) (b : BlockRecord)
      → block_at tables (some height) ≡ some b
      → (leb w.from b.timestamp && leb b.timestamp w.to) ≡ spans (blocks_in tables w) (some height)
  unfolding block_at
  block_at-within w height b e =
      let (known, same) = find-some (λ c. c.height == height) tables.blocks e in
      let h : b.height ≡ height = ground (arith, same) in
      sym (spans-within tables chain w b known) ∙ ap (λ k. spans (blocks_in tables w) (some k)) h

  module _ (w : Window) (when : ℕ → Bool) where
    abbrev within : ℕ → Bool
    within t = leb w.from t && leb t w.to

    sum_of-window_txs :
        (d : Bool)
        → sum_of (value_of d when) (all_txs to_bigint tables id (window_txs to_bigint tables id w))
          ≡ sum_of (value_of d (λ t. when t && within t)) (moves to_bigint tables id)
    unfolding window_txs received_in spent_in
    sum_of-window_txs d =
        let chosen : AddressTx → Bool = λ a. spans (blocks_in tables w) (some a.block_height) in
        let txs = txs_of_address to_bigint tables id in
        let received = joined_rows (received_in to_bigint tables id) in
        let spent = joined_rows (spent_in to_bigint tables id) in
        omega (
          arith,
          sum_of-append (value_of d when) (received (keep chosen txs)) (spent (keep chosen txs)),
          sum_of-append (value_of d (λ t. when t && within t)) (received txs) (spent txs),
          sum_of-kept (received_in to_bigint tables id) chosen within d when txs (λ a m.
              rows_at-All true _ _ within (chosen a) (λ b e. block_at-within w a.block_height b e)),
          sum_of-kept (spent_in to_bigint tables id) chosen within d when txs (λ a m.
              rows_at-All false _ _ within (chosen a)
                (λ b e. block_at-within w a.block_height b e)),
        )

    -- The rows of the window at some times are all rows of the address at those times within its days.
    pub flow-window_txs :
        flow when (all_txs to_bigint tables id (window_txs to_bigint tables id w))
        ≡ flow (λ t. when t && within t) (moves to_bigint tables id)
    flow-window_txs = flow_eq (sum_of-window_txs true) (sum_of-window_txs false)

-- The rollup has, for each day, what was moved on it.
pub record IsDaily (deltas : List DayDelta) (ms : List Movement) : Type 0 where
  pub received :
      (day : ℕ)
      → sum_of (λ d. d.received) (keep (λ d. d.day == day) deltas)
        ≡ sum_of (value_of true (λ t. t / ms_per_day == day)) ms
  pub sent :
      (day : ℕ)
      → sum_of (λ d. d.sent) (keep (λ d. d.day == day) deltas)
        ≡ sum_of (value_of false (λ t. t / ms_per_day == day)) ms

day-join :
    (f : DayDelta → ℕ) (deltas : List DayDelta) (k : ℕ)
    → sum_of f (keep (λ d. ltb d.day k) deltas) + sum_of f (keep (λ d. d.day == k) deltas)
      ≡ sum_of f (keep (λ d. ltb d.day (suc k)) deltas)
day-join f [] k = refl
day-join f (d ∷ ds) k = ground (arith, day-join f ds k)

no_days :
    (f : DayDelta → ℕ) (deltas : List DayDelta) → sum_of f (keep (λ d. ltb d.day 0) deltas) ≡ 0
no_days f [] = refl
no_days f (d ∷ ds) = ground (arith, no_days f ds)

no_times :
    (d : Bool) (ms : List Movement) → sum_of (value_of d (λ t. ltb t (0 * ms_per_day))) ms ≡ 0
no_times d [] = refl
no_times true (m ∷ ms) = ground (arith, no_times true ms)
no_times false (m ∷ ms) = ground (arith, no_times false ms)

sum_of-days :
    (d : Bool) (f : DayDelta → ℕ) (deltas : List DayDelta) (ms : List Movement)
    → ((day : ℕ)
        → sum_of f (keep (λ r. r.day == day) deltas)
          ≡ sum_of (value_of d (λ t. t / ms_per_day == day)) ms)
    → (k : ℕ)
    → sum_of f (keep (λ r. ltb r.day k) deltas)
      ≡ sum_of (value_of d (λ t. ltb t (k * ms_per_day))) ms
sum_of-days d f deltas ms daily zero = omega (arith, no_days f deltas, no_times d ms)
sum_of-days d f deltas ms daily (suc k) = omega (
  arith,
  day-join f deltas k,
  sum_of-days d f deltas ms daily k,
  daily k,
  sum_of-join d (λ t. ltb t (k * ms_per_day)) (λ t. t / ms_per_day == k)
      (λ t. ltb t (suc k * ms_per_day)) ms (λ t. ground arith),
)

pub opening-flow :
    (deltas : List DayDelta) (ms : List Movement) (k : ℕ)
    → IsDaily deltas ms
    → opening deltas k ≡ flow (λ t. ltb t (k * ms_per_day)) ms
unfolding opening
opening-flow deltas ms k daily =
    flow_eq (sum_of-days true (λ d. d.received) deltas ms daily.received k)
      (sum_of-days false (λ d. d.sent) deltas ms daily.sent k)

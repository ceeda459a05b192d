-- ===== src/Xpub/Scan/Rounds.antt =====
-- One round of the loop of `scanBranch`, and the whole loop, against a walk over the indices that
-- knows of no cache and no batches.
use mathlib.Core.Path.{ap₂}
use dashscan.Prelude.{
  ℕ, zero, suc, ◌+◌, ◌≤◌, ◌<◌, ◌≡◌, refl, ap, ◌∙◌, Bool, true, false, ◌&&◌, some, List, ◌++◌, arith,
  ltb, leb, if◌then◌else◌, is_some, length, length-append, get_elem?, get_elem?-tabulate, tabulate,
  tabulate_cong, tabulate-append, Bool-cases, inl, inr, length-tabulate, String,
}
use dashscan.Xpub.{xpub_max_addresses_per_branch}
use dashscan.Xpub.Scan.{
  Wallet, ScanState, batch, extend, visit, round, has_at, going, scan_loop, confirm_up_to,
}
use dashscan.Xpub.Scan.Known.{
  stored, IsSound, confirm_up_to-IsSound, confirm_up_to-reaches, confirm_up_to_frame,
}

-- Whether the table has the address at an index.
unfoldable pub is_used : Wallet → ℕ → Bool
unfolding stored
is_used w i = is_some (stored w (w.child i))

-- The reference: the index at which a walk stops that counts the run of unused addresses.
unfoldable pub walk : Wallet → ℕ → ℕ → ℕ → ℕ → ℕ
walk w gap_limit zero i run = i
walk w gap_limit (suc fuel) i run =
    elim (ltb run gap_limit && ltb i xpub_max_addresses_per_branch) [
      | true ↦ walk w gap_limit fuel (i + 1) (if is_used w i then 0 else run + 1)
      | false ↦ i
    ]

module _ (w : Wallet) (gap_limit : ℕ) where
  extend_prefix :
      (xs : List String) (n : ℕ)
      → xs ≡ tabulate (length xs) 0 w.child
      → xs ++ tabulate n (length xs) w.child
        ≡ tabulate (length (xs ++ tabulate n (length xs) w.child)) 0 w.child
  extend_prefix xs n h =
      ap (λ ys. ys ++ tabulate n (length xs) w.child) h
      ∙ ap (λ k. tabulate (length xs) 0 w.child ++ tabulate n k w.child) (zero_plus (length xs))
      ∙ tabulate-append (length xs) n 0 w.child
      ∙ tabulate_cong {from = 0} w.child (total xs n) refl
    where
      zero_plus : (k : ℕ) → k ≡ 0 + k
      zero_plus k = omega arith

      total :
          (xs : List String) (n : ℕ) → length xs + n ≡ length (xs ++ tabulate n (length xs) w.child)
      total xs n = omega (
        arith,
        length-append xs (tabulate n (length xs) w.child),
        length-tabulate n (length xs) w.child,
      )

  extend-IsSound : (s : ScanState) → IsSound w s → IsSound w (extend w gap_limit s)
  unfolding extend
  extend-IsSound s h = elim (Bool-cases (leb (length s.derived) s.scanned_to)) [
    | inl more ↦
        rw (more, extend)
          (record {
            prefix = extend_prefix s.derived _ h.prefix;
            agrees = h.agrees;
            distinct = h.distinct;
            checked = omega (
              arith,
              length-append s.derived
                  (tabulate (batch gap_limit (length s.derived)) (length s.derived) w.child),
              h.checked,
            );
            confirmed = h.confirmed;
          })
    | inr enough ↦ rw (enough, extend) h
  ]

  extend_room :
      (s : ScanState)
      → s.scanned_to ≤ length s.derived
      → s.scanned_to < xpub_max_addresses_per_branch
      → 0 < gap_limit
      → s.scanned_to < length (extend w gap_limit s).derived
  unfolding extend
  extend_room s h k g = ground (
    arith,
    length-append s.derived
        (tabulate (batch gap_limit (length s.derived)) (length s.derived) w.child),
    length-tabulate (batch gap_limit (length s.derived)) (length s.derived) w.child,
  )

  extend_frame :
      (s : ScanState)
      → ((extend w gap_limit s).scanned_to ≡ s.scanned_to)
        × ((extend w gap_limit s).run ≡ s.run)
        × ((extend w gap_limit s).checked_to ≡ s.checked_to)
  unfolding extend
  extend_frame s = ground arith

  -- What `known.has(derived[scannedTo])` answers once the index is confirmed.
  has_at-confirmed :
      (s : ScanState) (i : ℕ) → IsSound w s → i < s.checked_to → has_at s i ≡ is_used w i
  unfolding is_used
  has_at-confirmed s i h below =
      let at : get_elem? s.derived i ≡ some (w.child (0 + i)) =
        ap (λ xs. get_elem? xs i) h.prefix
        ∙ get_elem?-tabulate (length s.derived) 0 i w.child (omega (arith, h.checked)) in
      let plain : some (w.child (0 + i)) ≡ some (w.child i) =
        ap (λ k. some (w.child k)) (omega arith) in
      ground (arith, at ∙ plain, h.confirmed i below)

  -- The state before a round, as far as the next rounds depend on it.
  pub record IsReady (s : ScanState) : Type 0 where
    pub sound : IsSound w s
    pub walked : s.scanned_to ≤ s.checked_to

  confirmed_state : ScanState → ScanState
  unfolding extend
  confirmed_state s =
      let s' = extend w gap_limit s in confirm_up_to w (length s'.derived) s'.scanned_to s'

  record IsConfirmed (s : ScanState) : Type 0 where
    sound : IsSound w (confirmed_state s)
    at_index : s.scanned_to < (confirmed_state s).checked_to
    index : (confirmed_state s).scanned_to ≡ s.scanned_to
    run : (confirmed_state s).run ≡ s.run

  IsReady-IsConfirmed :
      (s : ScanState)
      → IsReady s
      → 0 < gap_limit
      → s.scanned_to < xpub_max_addresses_per_branch
      → IsConfirmed s
  unfolding confirmed_state
  IsReady-IsConfirmed s h g k =
      let e = extend w gap_limit s in
      let (same_index, same_run, _) = extend_frame s in
      let (kept, index, run) = confirm_up_to_frame w (length e.derived) e.scanned_to e in
      let room = extend_room s (omega (arith, h.walked, h.sound.checked)) k g in
      let reaches =
        confirm_up_to-reaches w (length e.derived) e.scanned_to e (omega arith) (omega arith) in
      record {
        sound =
            confirm_up_to-IsSound w (length e.derived) e.scanned_to e (extend-IsSound s h.sound);
        at_index = omega arith;
        index = index ∙ same_index;
        run = run ∙ same_run;
      }

  -- A round moves on by one index, counts the run by the table alone, and stays ready.
  record IsRound (s t : ScanState) : Type 0 where
    ready : IsReady t
    index : t.scanned_to ≡ s.scanned_to + 1
    run : t.run ≡ (if is_used w s.scanned_to then 0 else s.run + 1)

  round_lem :
      (s : ScanState)
      → IsReady s
      → 0 < gap_limit
      → s.scanned_to < xpub_max_addresses_per_branch
      → IsRound s (round w gap_limit s)
  unfolding round visit confirmed_state
  round_lem s h g k =
      let c = IsReady-IsConfirmed s h g k in
      let t = confirmed_state s in
      let seen = has_at-confirmed t s.scanned_to c.sound c.at_index in
      record {
        ready = record {
          sound = record {
            prefix = c.sound.prefix;
            agrees = c.sound.agrees;
            distinct = c.sound.distinct;
            checked = c.sound.checked;
            confirmed = c.sound.confirmed;
          };
          walked = omega (arith, c.at_index, c.index);
        };
        index = ap (λ (n : ℕ). n + 1) c.index;
        run =
            ap (λ i. if has_at t i then 0 else t.run + 1) c.index
            ∙ ap (λ b. if b then 0 else t.run + 1) seen
            ∙ ap (λ r. if is_used w s.scanned_to then 0 else r + 1) c.run;
      }

  -- The whole loop ends where the walk ends, whatever the cache held.
  pub scan_loop-eq-walk :
      (fuel : ℕ) (s : ScanState)
      → IsReady s
      → ((scan_loop w gap_limit fuel s).scanned_to ≡ walk w gap_limit fuel s.scanned_to s.run)
        × IsReady (scan_loop w gap_limit fuel s)
  unfolding scan_loop walk
  scan_loop-eq-walk zero s h = (refl, h)
  scan_loop-eq-walk (suc fuel) s h = elim (Bool-cases (going gap_limit s)) [
    | inl go ↦
        let r = round_lem s h (ground arith) (ground arith) in
        let (stop, ready) = scan_loop-eq-walk fuel (round w gap_limit s) r.ready in
        (
          rw (go, scan_loop, walk) (stop ∙ ap₂ (walk w gap_limit fuel) r.index r.run),
          rw (go, scan_loop) ready,
        )
    | inr done ↦ (rw (done, scan_loop, walk) refl, rw (done, scan_loop) h)
  ]

  -- The loop stops by its own test: the bound on the rounds is never what ends it.
  pub scan_loop-stops :
      (fuel : ℕ) (s : ScanState)
      → IsReady s
      → xpub_max_addresses_per_branch < s.scanned_to + fuel
      → going gap_limit (scan_loop w gap_limit fuel s) ≡ false
  unfolding scan_loop
  scan_loop-stops zero s h f = ground arith
  scan_loop-stops (suc fuel) s h f = elim (Bool-cases (going gap_limit s)) [
    | inl go ↦
        let r = round_lem s h (ground arith) (ground arith) in
        rw (go, scan_loop)
          (scan_loop-stops fuel (round w gap_limit s) r.ready (omega (arith, r.index)))
    | inr done ↦ rw (done, scan_loop) done
  ]

-- ===== src/Xpub/Scan/Known.antt =====
-- What `known` holds while `scanBranch` runs: ids that the table confirms, and all that it has for
-- the addresses below `checkedTo`.
use dashscan.Prelude.{
  ℕ, zero, suc, ◌+◌, ◌-◌, ◌≤◌, ◌<◌, ◌≡◌, refl, ap, ◌∙◌, true, false, not, String, Option, none,
  some, List, [], ◌∷◌, arith, eq_refl, str_eq, if◌then◌else◌, or_else, is_some, length, ltb, leb,
  ◌&&◌, dec_lt, keep, any, tabulate, slice, slice-tabulate, Option-cases, Bool-cases, inl, inr,
}
use dashscan.Prelude.Maps.{
  Dict, lookup, insert_all, has, IsDistinct, insert_all-IsDistinct, lookup-insert_all,
  lookup-insert_all-keep,
}
use dashscan.Xpub.Scan.{
  Wallet, ScanState, get_address_ids, lookup_ids, confirm_batch, confirm_up_to,
}

-- The id that the table has for an address.
unfoldable pub stored : Wallet → String → Option ℕ
stored w a = lookup a (insert_all [] w.rows)

-- Every cached id is the table's.
abbrev pub Agrees : Wallet → Dict ℕ → Type 0
Agrees w known = (a : String) (id : ℕ) → lookup a known ≡ some id → stored w a ≡ some id

pub record IsSound (w : Wallet) (s : ScanState) : Type 0 where
  pub prefix : s.derived ≡ tabulate (length s.derived) 0 w.child
  pub agrees : Agrees w s.known
  pub distinct : IsDistinct s.known
  pub checked : s.checked_to ≤ length s.derived
  pub confirmed : (i : ℕ) → i < s.checked_to → lookup (w.child i) s.known ≡ stored w (w.child i)

module _ (w : Wallet) where
  lookup-lookup_ids :
      (q : List String) (a : String)
      → lookup a (lookup_ids w q) ≡ (if any (str_eq a) q then stored w a else none)
  unfolding lookup_ids stored lookup insert_all
  lookup-lookup_ids [] a = refl
  lookup-lookup_ids (b ∷ q) a = lookup-insert_all-keep (λ k. any (str_eq k) (b ∷ q)) w.rows [] a

  lookup_ids-IsDistinct : (q : List String) → IsDistinct (lookup_ids w q)
  unfolding lookup_ids
  lookup_ids-IsDistinct q = insert_all-IsDistinct [] (get_address_ids w.rows q) tt

  lookup-known :
      (known : Dict ℕ) (q : List String) (a : String)
      → lookup a (insert_all known (lookup_ids w q))
        ≡ or_else (if any (str_eq a) q then stored w a else none) (lookup a known)
  lookup-known known q a =
      lookup-insert_all known (lookup_ids w q) a (lookup_ids-IsDistinct q)
      ∙ ap (λ o. or_else o (lookup a known)) (lookup-lookup_ids q a)

  -- An address that is looked up in a batch is either known or asked for.
  any-keep-tabulate :
      (known : Dict ℕ) (n from i : ℕ)
      → from ≤ i
      → i < from + n
      → has (w.child i) known ≡ false
      → any (str_eq (w.child i)) (keep (λ a. not (has a known)) (tabulate n from w.child)) ≡ true
  any-keep-tabulate known zero from i h k u = absurd (omega arith)
  any-keep-tabulate known (suc n) from i h k u = elim (dec_lt from i) [
    | yes later ↦
        ground (arith, any-keep-tabulate known n (suc from) i (omega arith) (omega arith) u)
    | no here ↦ let e : from ≡ i = omega arith in rw e (ground (arith, eq_refl (w.child i)))
  ]

  -- The addresses of one batch that `known` lacks.
  abbrev unknown : ScanState → ℕ → List String
  unknown s to = keep (λ a. not (has a s.known)) (slice s.checked_to to s.derived)

  any-unknown :
      (s : ScanState) (to i : ℕ)
      → IsSound w s
      → to ≤ length s.derived
      → s.checked_to ≤ i
      → i < to
      → has (w.child i) s.known ≡ false
      → any (str_eq (w.child i)) (unknown s to) ≡ true
  any-unknown s to i h room from below u =
      let e : slice s.checked_to to s.derived ≡ tabulate (to - s.checked_to) s.checked_to w.child =
        ap (slice s.checked_to to) h.prefix
        ∙ slice-tabulate s.checked_to to (length s.derived) w.child room in
      rw e (any-keep-tabulate s.known (to - s.checked_to) s.checked_to i from (omega arith) u)

  batch-Agrees :
      (s : ScanState) (q : List String)
      → IsSound w s
      → Agrees w (insert_all s.known (lookup_ids w q))
  batch-Agrees s q h a id e = ground (arith, lookup-known s.known q a, h.agrees a id)

  batch-confirmed :
      (s : ScanState) (to i : ℕ)
      → IsSound w s
      → to ≤ length s.derived
      → i < to
      → lookup (w.child i) (insert_all s.known (lookup_ids w (unknown s to))) ≡ stored w (w.child i)
  batch-confirmed s to i h room below =
      let e = lookup-known s.known (unknown s to) (w.child i) in
      elim (Option-cases (lookup (w.child i) s.known)) [
        | inr (id, found) ↦ ground (arith, e, h.agrees (w.child i) id found)
        | inl missing ↦ elim (dec_lt i s.checked_to) [
          | yes done ↦ ground (arith, e, h.confirmed i done)
          | no new ↦
              ground (arith, e, any-unknown s to i h room (omega arith) below (ap is_some missing))
        ]
      ]

  confirm_batch-IsSound : (s : ScanState) → IsSound w s → IsSound w (confirm_batch w s)
  unfolding confirm_batch
  confirm_batch-IsSound s h = record {
    prefix = h.prefix;
    agrees = batch-Agrees s _ h;
    distinct = insert_all-IsDistinct s.known _ h.distinct;
    checked = omega arith;
    confirmed = λ i below. batch-confirmed s _ i h (omega arith) below;
  }

  -- After `confirmUpTo(index)` the loop's test fails, and the invariant holds.
  pub confirm_up_to-IsSound :
      (fuel index : ℕ) (s : ScanState) → IsSound w s → IsSound w (confirm_up_to w fuel index s)
  unfolding confirm_up_to
  confirm_up_to-IsSound zero index s h = h
  confirm_up_to-IsSound (suc fuel) index s h =
      elim (Bool-cases (leb s.checked_to index && ltb s.checked_to (length s.derived))) [
        | inl go ↦
            rw (go, confirm_up_to)
              (confirm_up_to-IsSound fuel index (confirm_batch w s) (confirm_batch-IsSound s h))
        | inr done ↦ rw (done, confirm_up_to) h
      ]

  pub confirm_up_to-reaches :
      (fuel index : ℕ) (s : ScanState)
      → length s.derived ≤ fuel + s.checked_to
      → index < length s.derived
      → index < (confirm_up_to w fuel index s).checked_to
  unfolding confirm_up_to confirm_batch
  confirm_up_to-reaches zero index s f h = omega arith
  confirm_up_to-reaches (suc fuel) index s f h =
      ground (arith, confirm_up_to-reaches fuel index (confirm_batch w s))

  pub confirm_up_to_frame :
      (fuel index : ℕ) (s : ScanState)
      → ((confirm_up_to w fuel index s).derived ≡ s.derived)
        × ((confirm_up_to w fuel index s).scanned_to ≡ s.scanned_to)
        × ((confirm_up_to w fuel index s).run ≡ s.run)
  unfolding confirm_up_to confirm_batch
  confirm_up_to_frame zero index s = (refl, refl, refl)
  confirm_up_to_frame (suc fuel) index s =
      ground (arith, confirm_up_to_frame fuel index (confirm_batch w s))

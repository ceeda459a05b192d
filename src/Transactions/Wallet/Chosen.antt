-- ===== src/Transactions/Wallet/Chosen.antt =====
-- The rows of a page: the transactions with the numbers that were merged, and the pending ones.
use dashscan.Prelude.{
  ℕ, ◌≡◌, ◌≢◌, sym, ap, ◌∙◌, inl, inr, ◌⊎◌, Bool, true, not, List, ◌++◌, map, keep, IsApart,
  sort_by, sort_by-IsApart, sort_by-IsSorted, Option-cases, ltb, arith, subst,
}
use dashscan.Prelude.Order.{
  In, All-In, In-sort_by, In-of-sort_by, In-keep, In-of-keep, In-map, In-of-map, In-append,
  In-append_left, In-append_right,
}
use dashscan.Prelude.Falling.{IsPart, IsApart-both, keep-IsApart, apart-eq, Falls-unique}
use dashscan.Transactions.{Tables, TxRecord, among, newest_first}
use dashscan.Transactions.Wallet.{is_after}
use dashscan.Transactions.Wallet.Places.{is_after_irrefl, is_after_trans}
use dashscan.Transactions.Wallet.History.{
  key, is_confirmed, IsIndexed, FallByKey, among-In, In-of-among, newest_total, newest_trans,
  after-of-newest,
}

abbrev pub is_pending : TxRecord → Bool
is_pending t = not (is_confirmed t)

id_falls :
    (t u : TxRecord)
    → is_pending t ≡ true
    → is_pending u ≡ true
    → newest_first t u ≡ true
    → t.id ≢ u.id
    → ltb u.id t.id ≡ true
unfolding newest_first
id_falls t u p q h k = ground (arith, k, Option-cases t.block_height, Option-cases u.block_height)

abbrev FallById : List TxRecord → Type 0
FallById = IsApart (λ t u. ltb u.id t.id ≡ true)

-- Sorted and then filtered, transactions fall by any order that refines the sort on those kept.
falls-of-sorted :
    (p : TxRecord → Bool) (T : TxRecord → TxRecord → Type 0) (xs : List TxRecord)
    → ((t u : TxRecord) → p t ≡ true → p u ≡ true → newest_first t u ≡ true → t.id ≢ u.id → T t u)
    → IsApart (λ t u. t.id ≢ u.id) xs
    → IsApart T (keep p (sort_by newest_first xs))
falls-of-sorted p T xs h d =
    IsApart-both (λ t. p t ≡ true) (λ t u. newest_first t u ≡ true) (λ t u. t.id ≢ u.id) T _ h
      (All-In _ (λ t m. (In-keep p (sort_by newest_first xs) m).1))
      (keep-IsApart _ p _ (sort_by-IsSorted newest_first newest_total newest_trans xs))
      (keep-IsApart _ p _
        (sort_by-IsApart newest_first (λ t u. t.id ≢ u.id) (λ t u h e. h (sym e)) xs d))

module _ (tables : Tables) (indexed : IsIndexed tables) (merged waiting : List TxRecord)
    (merged-known : IsPart merged tables.transactions)
    (waiting-known : IsPart waiting tables.transactions)
    (merged-confirmed : (t : TxRecord) → In t merged → is_confirmed t ≡ true)
    (waiting-pending : (t : TxRecord) → In t waiting → is_pending t ≡ true) where
  open indexed use {ids_differ}

  abbrev pub numbers : List ℕ
  numbers = map (λ p. p.tx_id) (map key merged) ++ map (λ t. t.id) waiting

  abbrev pub chosen : List TxRecord
  chosen = sort_by newest_first (keep (λ t. among numbers t.id) tables.transactions)

  of-chosen : {t : TxRecord} → In t chosen → In t tables.transactions × (In t merged ⊎ In t waiting)
  of-chosen {t} m =
      let (known, test) =
        In-keep (λ t. among numbers t.id) tables.transactions (In-sort_by newest_first _ m) in
      elim (In-append (map (λ p. p.tx_id) (map key merged)) _ (In-of-among numbers test)) [
        | inl l ↦
            let (p, e, i) = In-of-map (λ p. p.tx_id) (map key merged) l in
            let (u, e', j) = In-of-map key merged i in
            let same : t ≡ u =
              apart-eq (λ v. v.id) tables.transactions ids_differ known (merged-known u j)
                (e ∙ ap (λ q. q.tx_id) e') in
            (known, inl (subst (λ v. In v merged) (sym same) j))
        | inr r ↦
            let (u, e, j) = In-of-map (λ t. t.id) waiting r in
            let same : t ≡ u =
              apart-eq (λ v. v.id) tables.transactions ids_differ known (waiting-known u j) e in
            (known, inr (subst (λ v. In v waiting) (sym same) j))
      ]

  In-chosen : {t : TxRecord} → In t tables.transactions → In t.id numbers → In t chosen
  In-chosen known m =
      In-of-sort_by newest_first _
        (In-of-keep (λ t. among numbers t.id) tables.transactions known (among-In numbers m))

  chosen-differ : IsApart (λ t u. t.id ≢ u.id) (keep (λ t. among numbers t.id) tables.transactions)
  chosen-differ = keep-IsApart _ _ tables.transactions ids_differ

  -- The confirmed rows are those that were merged, in their order.
  pub confirmed-chosen : FallByKey merged → keep is_confirmed chosen ≡ merged
  confirmed-chosen falls =
      Falls-unique (λ t u. is_after (key t) (key u)) (λ t h. is_after_irrefl (key t) h)
        (λ t u v h k. is_after_trans (key t) (key u) (key v) h k) _ merged
        (falls-of-sorted is_confirmed (λ t u. is_after (key t) (key u) ≡ true) _ after-of-newest
          chosen-differ)
        falls
        (λ t m.
          let (at, c) = In-keep is_confirmed chosen m in
          elim (of-chosen at).1 [
            | inl l ↦ l
            | inr r ↦ absurd (ground (arith, waiting-pending t r, c))
          ])
        (λ t m.
          In-of-keep is_confirmed chosen
            (In-chosen (merged-known t m)
              (In-append_left _ _ (In-map (λ p. p.tx_id) _ (In-map key merged m))))
            (merged-confirmed t m))

  -- The pending rows are those that wait, the latest number first.
  pub pending-chosen :
      IsApart (λ t u. t.id ≢ u.id) waiting
      → keep is_pending chosen ≡ keep is_pending (sort_by newest_first waiting)
  pending-chosen differ =
      Falls-unique (λ t u. ltb u.id t.id) (λ t h. ground arith) (λ t u v h k. ground arith) _ _
        (falls-of-sorted is_pending (λ t u. ltb u.id t.id ≡ true) _ id_falls chosen-differ)
        (falls-of-sorted is_pending (λ t u. ltb u.id t.id ≡ true) _ id_falls differ)
        (λ t m.
          let (at, c) = In-keep is_pending chosen m in
          elim (of-chosen at).1 [
            | inl l ↦ absurd (ground (arith, merged-confirmed t l, c))
            | inr r ↦ In-of-keep is_pending _ (In-of-sort_by newest_first waiting r) c
          ])
        (λ t m.
          let (at, c) = In-keep is_pending (sort_by newest_first waiting) m in
          let w = In-sort_by newest_first waiting at in
          In-of-keep is_pending chosen
            (In-chosen (waiting-known t w) (In-append_right _ _ (In-map (λ t. t.id) waiting w))) c)

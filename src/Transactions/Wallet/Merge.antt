-- ===== src/Transactions/Wallet/Merge.antt =====
-- The newest places of a wallet are among the newest of each of its addresses: merging the pages of the
-- addresses gives the page of the wallet.
use dashscan.Prelude.{
  ℕ, ◌≡◌, ◌≢◌, refl, sym, ap, ◌∙◌, inl, inr, true, ◌&&◌, Option, some, List, [], ◌∷◌, map, keep,
  take, sort_by, ◌==◌, get_or_else, arith, subst,
}
use dashscan.Prelude.Order.{
  In, here, there, All-In, In-All, In-sort_by, In-of-sort_by, In-keep, In-of-keep, In-map,
  In-of-map, In-append, In-append_left, In-append_right, In-take,
}
use dashscan.Prelude.Falling.{IsPart, IsApart-map, apart-eq, keep-IsApart, take-map, In-take-IsPart}
use dashscan.Transactions.{Tables, TxRecord, AddressTx, among}
use dashscan.Transactions.Wallet.{
  Place, place_order, place_of, is_after, past, per_address_pages, address_tx_ids,
}
use dashscan.Transactions.Wallet.Places.{
  Fall, is_after_irrefl, is_after_trans, sort_by-Fall, take-grouped,
}
use dashscan.Transactions.Wallet.History.{
  key, remaining, IsKnown, IsIndexed, among-In, In-of-among, any-In, In-of-any, places-Fall,
  places-AreDistinct, In-remaining, of-remaining,
}

key_of-row :
    (t : TxRecord) (r : AddressTx)
    → t.id ≡ r.tx_id
    → t.block_height ≡ some r.block_height
    → key t ≡ place_of r
key_of-row t r e h = cc (ap (λ o. get_or_else o 0) h, e)

module _ (tables : Tables) (indexed : IsIndexed tables) (ids : List ℕ)
    (position : Option Place) where
  open indexed use {ids_differ, rows_differ, rows_known}

  abbrev places : List Place
  places = map key (remaining tables ids position)

  abbrev rows_at : ℕ → List AddressTx
  rows_at a =
      keep (λ r. r.address_id == a && past position (place_of r)) tables.address_transactions

  abbrev sorted_at : ℕ → List Place
  sorted_at a = sort_by place_order (map place_of (rows_at a))

  sorted_at-Fall : (a : ℕ) → Fall (sorted_at a)
  sorted_at-Fall a = sort_by-Fall (map place_of (rows_at a)) (
      IsApart-map (λ r. r.address_id ≡ a) (λ r s. r.address_id ≡ s.address_id → r.tx_id ≢ s.tx_id)
        (λ x y. x.tx_id ≢ y.tx_id) place_of (rows_at a) (λ r s p q h. h (p ∙ sym q))
        (All-In _ (λ r m. ground (arith, (In-keep _ tables.address_transactions m).1)))
        (keep-IsApart _ _ tables.address_transactions rows_differ))

  -- A row of one of the addresses is the place of a transaction of the history.
  row-known : {a : ℕ} (r : AddressTx) → In a ids → In r (rows_at a) → In (place_of r) places
  row-known {a} r i m =
      let (found, test) =
        In-keep (λ r. r.address_id == a && past position (place_of r)) tables.address_transactions
          m in
      let (t, at, same, height) =
        In-All (IsKnown tables) tables.address_transactions rows_known found in
      let mine : r.address_id ≡ a = ground arith in
      let after : past position (place_of r) ≡ true = ground arith in
      let in_ids : among ids r.address_id ≡ true =
        subst (λ b. among ids b ≡ true) (sym mine) (among-In ids i) in
      let here_key = key_of-row t r same height in
      let touched =
        any-In (λ r. r.tx_id == t.id && among ids r.address_id) tables.address_transactions found
          (rw in_ids (ground arith)) in
      let listed =
        In-remaining tables indexed ids position at (rw (height, touched))
          (subst (λ p. past position p ≡ true) (sym here_key) after) in
      subst (λ p. In p places) here_key (In-map key (remaining tables ids position) listed)

  sorted_at-IsPart : (a : ℕ) → In a ids → IsPart (sorted_at a) places
  sorted_at-IsPart a i x m =
      let (r, e, at) = In-of-map place_of (rows_at a) (In-sort_by place_order _ m) in
      subst (λ p. In p places) (sym e) (row-known r i at)

  -- A transaction of the history has a row at one of the addresses.
  row-of : (x : Place) → In x places → (a : ℕ) × In a ids × In x (sorted_at a)
  row-of x m =
      let (t, e, listed) = In-of-map key (remaining tables ids position) m in
      let (at, wallet, after) = of-remaining tables indexed ids position listed in
      let (r, found, test) =
        In-of-any (λ r. r.tx_id == t.id && among ids r.address_id) tables.address_transactions
          (ground (arith, wallet)) in
      let (u, at', same, height) =
        In-All (IsKnown tables) tables.address_transactions rows_known found in
      let one = apart-eq (λ v. v.id) tables.transactions ids_differ at' at (ground (arith, same)) in
      let same_key : key t ≡ place_of r = ap key (sym one) ∙ key_of-row u r same height in
      let in_ids = In-of-among ids {a = r.address_id} (ground (arith, test)) in
      let after' : past position (place_of r) ≡ true =
        subst (λ p. past position p ≡ true) same_key after in
      let at_r =
        In-of-keep (λ s. s.address_id == r.address_id && past position (place_of s))
          tables.address_transactions found (ground (arith, after')) in
      (
        r.address_id,
        in_ids,
        In-of-sort_by place_order _ (
            subst (λ p. In p (map place_of (rows_at r.address_id))) (sym (e ∙ same_key))
              (In-map place_of _ at_r)),
      )

  module _ (n : ℕ) where
    In-pages :
        (some_ids : List ℕ) {x : Place}
        → In x (per_address_pages tables position n some_ids)
        → (a : ℕ) × In a some_ids × In x (take n (sorted_at a))
    unfolding per_address_pages
    In-pages [] m = elim m [ ]
    In-pages (a ∷ more) m = elim (In-append (take n (sorted_at a)) _ m) [
      | inl l ↦ (a, here refl, l)
      | inr r ↦ let (b, i, h) = In-pages more r in (b, there i, h)
    ]

    In-of-pages :
        (some_ids : List ℕ) {a : ℕ} {x : Place}
        → In a some_ids
        → In x (take n (sorted_at a))
        → In x (per_address_pages tables position n some_ids)
    unfolding per_address_pages
    In-of-pages [] i m = elim i [ ]
    In-of-pages (b ∷ more) {a} {x} (here e) m =
        In-append_left _ _ (subst (λ c. In x (take n (sorted_at c))) e m)
    In-of-pages (b ∷ more) (there i) m = In-append_right _ _ (In-of-pages more i m)

    -- The merged page is the first n places of what remains of the history.
    pub address_tx_ids-eq-take :
        address_tx_ids tables position n ids ≡ map key (take n (remaining tables ids position))
    unfolding address_tx_ids
    address_tx_ids-eq-take =
        take-grouped places (places-AreDistinct tables indexed ids position) n
          (per_address_pages tables position n ids) (places-Fall tables indexed ids position)
          (λ x m.
            let (a, i, h) = In-pages ids m in sorted_at-IsPart a i x (In-take n (sorted_at a) h))
          (λ x m.
            let (a, i, h) = row-of x (In-take n places m) in
            In-of-pages ids i (
              In-take-IsPart is_after is_after_irrefl is_after_trans n (sorted_at a) places
                (sorted_at-Fall a) (places-Fall tables indexed ids position) (sorted_at-IsPart a i)
                h m))
        ∙ take-map n key (remaining tables ids position)

-- ===== src/Transactions/Wallet/Pages.antt =====
-- A page of a wallet is a run of its history, and the cursors of the pages lead through all of it.
use mathlib.Core.Option
use mathlib.Core.Path.{ap₂}
use mathlib.Core.List.{map-append, map-map}
use dashscan.Prelude.{
  ℕ, ◌+◌, ◌≤◌, ◌≡◌, ◌≢◌, refl, sym, ap, ◌∙◌, inl, inr, String, Bool, true, false, ◌&&◌, ◌||◌, not,
  Option, none, some, List, [], ◌∷◌, ◌++◌, map, keep, take, length, length-take, length-map, any,
  take_all, take-take, IsApart, sort_by, append-nil, sort_by-nil, Bool-cases, Option-cases, ◌==◌,
  ltb, is_some, arith, if◌then◌else◌, min, lt→ltb, tests,
}
use dashscan.Prelude.Order.{In, All-In, In-sort_by, In-keep, In-take}
use dashscan.Prelude.Falling.{
  IsPart, keep-IsApart, take-IsApart, keep-map, take-map, keep-All, last,
}
use dashscan.Models.Transactions.{Transaction, TransactionRow, Reader, from_row}
use dashscan.Transactions.Found.{shown}
use dashscan.Transactions.{Tables, TxRecord, owned, joined, newest_first, pending_transaction_ids}
use dashscan.Transactions.Wallet.{Place, CursorResultSet, cut_page, rows_of, page_ids, wallet_page}
use dashscan.Transactions.Wallet.History.{
  key, is_confirmed, remaining, IsIndexed, remaining-FallByKey, of-remaining,
}
use dashscan.Transactions.Wallet.Merge.{address_tx_ids-eq-take}
use dashscan.Transactions.Wallet.Chosen.{is_pending, chosen, confirmed-chosen, pending-chosen}

le→not-ltb : (a b : ℕ) → b ≤ a → ltb a b ≡ false
le→not-ltb a b h = ground arith

last-map {ℓ κ} :
    {A : Type ℓ} {B : Type κ} (f : A → B) (xs : List A) → last (map f xs) ≡ Option.map f (last xs)
last-map f [] = refl
last-map f (x ∷ xs) = ground (arith, last-map f xs, Option-cases (last xs))

module _ (tables : Tables) (ids : List ℕ) where
  -- A transaction without a block that pays to one of the addresses or spends from one.
  abbrev pub waits : TxRecord → Bool
  waits t =
      is_pending t
      && (any (λ o. o.tx_id == t.id && owned ids o.address_id) tables.outputs
          || any (λ i. i.tx_id == t.id && owned ids i.address_id) tables.inputs)

  abbrev pub waiting : List TxRecord
  waiting = sort_by newest_first (keep waits tables.transactions)

module _ (tables : Tables) {P : Type 0} (reader : Reader P) (limit : ℕ) where
  abbrev answer : List (Transaction P) → Option String → CursorResultSet (Transaction P)
  answer items cursor = record { result_set = items; limit = limit; next_cursor = cursor }

  -- A page of a run of the history, after the pending transactions.
  abbrev pub page_at : List TxRecord → List TxRecord → CursorResultSet (Transaction P)
  page_at pending rest = record {
    result_set = map (shown tables reader) (pending ++ take limit rest);
    limit = limit;
    next_cursor =
        if ltb limit (length rest) then Option.map (λ t. t.hash) (last (take limit rest)) else none;
  }

  -- The body of `cut_page`, of the pending and the confirmed rows.
  abbrev cut : List TransactionRow → List TransactionRow → CursorResultSet (Transaction P)
  cut pending confirmed =
      let page = if ltb limit (length confirmed) then take limit confirmed else confirmed in
      record {
        result_set = map (from_row reader) (pending ++ page);
        limit = limit;
        next_cursor =
            if ltb limit (length confirmed) then Option.map (λ r. r.hash) (last page) else none;
      }

  map-shown :
      (xs ys : List TxRecord)
      → map (from_row reader) (map (joined tables) xs ++ map (joined tables) ys)
        ≡ map (shown tables reader) (xs ++ ys)
  map-shown xs ys =
      ap (map (from_row reader)) (sym (map-append (joined tables) xs ys))
      ∙ map-map (from_row reader) (joined tables) (xs ++ ys)

  hash-joined :
      (o : Option TxRecord)
      → Option.map (λ r. r.hash) (Option.map (joined tables) o) ≡ Option.map (λ t. t.hash) o
  unfolding joined
  hash-joined none = refl
  hash-joined (some t) = refl

  cut-map :
      (pending rest : List TxRecord)
      → cut (map (joined tables) pending) (map (joined tables) (take (limit + 1) rest))
        ≡ page_at pending rest
  cut-map pending rest =
      let size : length (map (joined tables) (take (limit + 1) rest))
          ≡ min (limit + 1) (length rest) =
        length-map (take (limit + 1) rest) (joined tables) ∙ length-take (limit + 1) rest in
      elim (Bool-cases (ltb limit (length rest))) [
        | inl more ↦
            let more' : ltb limit (length (map (joined tables) (take (limit + 1) rest))) ≡ true =
              lt→ltb _ _ (omega (tests, size, more)) in
            let same : take limit (map (joined tables) (take (limit + 1) rest))
                ≡ map (joined tables) (take limit rest) =
              take-map limit (joined tables) (take (limit + 1) rest)
              ∙ ap (map (joined tables)) (take-take limit (limit + 1) rest (omega arith)) in
            rw (more', more, same)
              (ap₂ answer (map-shown pending (take limit rest)) (
                ap (Option.map (λ r. r.hash)) (last-map (joined tables) (take limit rest))
                ∙ hash-joined (last (take limit rest))))
        | inr last_page ↦
            let last_page' : ltb limit (length (map (joined tables) (take (limit + 1) rest)))
                ≡ false =
              le→not-ltb _ _ (omega (tests, size, last_page)) in
            let same : take (limit + 1) rest ≡ take limit rest =
              take_all (limit + 1) rest (omega (tests, last_page))
              ∙ sym (take_all limit rest (omega (tests, last_page))) in
            rw (last_page', last_page)
              (ap
                  (λ xs.
                    answer
                      (map (from_row reader)
                        (map (joined tables) pending ++ map (joined tables) xs))
                      none)
                  same
                ∙ ap (λ items. answer items none) (map-shown pending (take limit rest)))
      ]

  cut_page-map :
      (xs rest : List TxRecord)
      → keep is_confirmed xs ≡ take (limit + 1) rest
      → cut_page reader limit (map (joined tables) xs) ≡ page_at (keep is_pending xs) rest
  unfolding cut_page joined
  cut_page-map xs rest e =
      ap₂ cut (keep-map (λ r. not (is_some r.block_height)) (joined tables) xs)
        (keep-map (λ r. is_some r.block_height) (joined tables) xs ∙ ap (map (joined tables)) e)
      ∙ cut-map (keep is_pending xs) rest

module _ (tables : Tables) (indexed : IsIndexed tables) {P : Type 0} (reader : Reader P) (limit : ℕ)
    (ids : List ℕ) where
  open indexed use {ids_differ, hashes_differ}

  -- What the first page shows before the confirmed transactions.
  abbrev pub before : Bool → List TxRecord
  before true = waiting tables ids
  before false = []

  abbrev waiting_rows : Bool → List TxRecord
  waiting_rows true = keep (waits tables ids) tables.transactions
  waiting_rows false = []

  page_ids-eq-numbers :
      (first_page : Bool) (position : Option Place)
      → page_ids tables first_page position (limit + 1) ids
        ≡ map (λ p. p.tx_id) (map key (take (limit + 1) (remaining tables ids position)))
          ++ map (λ t. t.id) (waiting_rows first_page)
  unfolding page_ids pending_transaction_ids
  page_ids-eq-numbers true position =
      ap
        (λ ps.
          map (λ p. p.tx_id) ps ++ map (λ t. t.id) (keep (waits tables ids) tables.transactions))
        (address_tx_ids-eq-take tables indexed ids position (limit + 1))
  page_ids-eq-numbers false position =
      ap (λ ps. map (λ p. p.tx_id) ps)
        (address_tx_ids-eq-take tables indexed ids position (limit + 1))
      ∙ sym (append-nil _)

  waiting_rows-known : (first_page : Bool) → IsPart (waiting_rows first_page) tables.transactions
  waiting_rows-known true t m = (In-keep (waits tables ids) tables.transactions m).0
  waiting_rows-known false t m = elim m [ ]

  waiting_rows-pending :
      (first_page : Bool) (t : TxRecord) → In t (waiting_rows first_page) → is_pending t ≡ true
  waiting_rows-pending true t m =
      ground (arith, (In-keep (waits tables ids) tables.transactions m).1)
  waiting_rows-pending false t m = elim m [ ]

  waiting_rows-differ : (first_page : Bool) → IsApart (λ t u. t.id ≢ u.id) (waiting_rows first_page)
  waiting_rows-differ true = keep-IsApart _ (waits tables ids) tables.transactions ids_differ
  waiting_rows-differ false = tt

  sorted-before :
      (first_page : Bool)
      → keep is_pending (sort_by newest_first (waiting_rows first_page)) ≡ before first_page
  sorted-before true =
      keep-All is_pending _
        (All-In _ λ t m. waiting_rows-pending true t (In-sort_by newest_first _ m))
  sorted-before false = ap (keep is_pending) (sort_by-nil newest_first)

  -- A page is a run of what remains of the history, and on the first page what waits comes before it.
  pub wallet_page-eq-page_at :
      (first_page : Bool) (position : Option Place)
      → wallet_page tables reader first_page position limit ids
        ≡ page_at tables reader limit (before first_page) (remaining tables ids position)
  unfolding wallet_page rows_of
  wallet_page-eq-page_at first_page position =
      let merged = take (limit + 1) (remaining tables ids position) in
      let rows = waiting_rows first_page in
      let merged-known : IsPart merged tables.transactions =
        λ t m. (of-remaining tables indexed ids position (In-take (limit + 1) _ m)).0 in
      let merged-confirmed : (t : TxRecord) → In t merged → is_confirmed t ≡ true = λ t m.
        ground (arith, (of-remaining tables indexed ids position (In-take (limit + 1) _ m)).1) in
      let waiting-known = waiting_rows-known first_page in
      let waiting-pending = waiting_rows-pending first_page in
      let falls = take-IsApart _ (limit + 1) _ (remaining-FallByKey tables indexed ids position) in
      let confirmed =
        confirmed-chosen tables indexed merged rows merged-known waiting-known merged-confirmed
          waiting-pending falls in
      let pending =
        pending-chosen tables indexed merged rows merged-known waiting-known merged-confirmed
          waiting-pending (waiting_rows-differ first_page) in
      ap (λ ns. cut_page reader limit (rows_of tables ns)) (page_ids-eq-numbers first_page position)
      ∙ cut_page-map tables reader limit
          (chosen tables indexed merged rows merged-known waiting-known merged-confirmed
            waiting-pending)
          (remaining tables ids position) confirmed
      ∙ ap (λ w. page_at tables reader limit w (remaining tables ids position))
          (pending ∙ sorted-before first_page)

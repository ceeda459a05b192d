-- ===== src/Transactions/Wallet/Follow.antt =====
-- A client that follows the cursors of `getXpubTransactions`: it gets the pending transactions and then the
-- whole history, each transaction once.
use mathlib.Core.Option
use mathlib.Core.Path.{ap₂}
use mathlib.Core.List.{map-append}
use dashscan.Prelude.{
  ℕ, zero, suc, ◌≤◌, ◌<◌, ◌≡◌, refl, sym, ap, ◌∙◌, inl, inr, String, Bool, true, false, ◌&&◌,
  Option, none, some, List, [], ◌∷◌, ◌++◌, map, take, drop, length, length-take, length-drop, any,
  take_all, take-append-drop, sort_by, append_assoc, sort_by-nil, Bool-cases, Option-cases, ◌==◌,
  ltb, is_some, arith, str_eq, eq_iff, tests,
}
use dashscan.Prelude.Order.{In, All-In, In-keep, In-take, In-sort_by}
use dashscan.Prelude.Falling.{keep_none, keep-All, keep-keep, apart-eq, last, In-last, keep-drop}
use dashscan.Models.Transactions.{Transaction, Reader}
use dashscan.Transactions.Found.{shown, find-In}
use dashscan.Transactions.{Tables, TxRecord, newest_first, among, owned}
use dashscan.Transactions.Wallet.{
  Place, CursorResultSet, Answer, page_of, invalid_cursor_error, past, is_after, wallet_page,
  position_of, get_xpub_transactions,
}
use dashscan.Transactions.Wallet.Places.{is_after_irrefl, is_after_trans}
use dashscan.Transactions.Wallet.History.{
  key, is_confirmed, in_wallet, history, remaining, IsIndexed, remaining-FallByKey, of-remaining,
}
use dashscan.Transactions.Wallet.Pages.{waits, waiting, page_at, wallet_page-eq-page_at}

last-none {ℓ} : {A : Type ℓ} (xs : List A) → last xs ≡ none → length xs ≡ 0
last-none [] h = refl
last-none (x ∷ xs) h = ground (arith, Option-cases (last xs), h)

module _ (tables : Tables) {P : Type 0} (reader : Reader P) (limit : ℕ) (ids : List ℕ) where
  -- What a page leads to: its items, and those of the pages that its cursor leads to.
  abbrev then_rest :
      (String → Option (List (Transaction P)))
      → CursorResultSet (Transaction P)
      → Option (List (Transaction P))
  then_rest rest page = elim page.next_cursor [
    | none ↦ some page.result_set
    | some cursor ↦ Option.map (λ items. page.result_set ++ items) (rest cursor)
  ]

  abbrev unless_refused :
      (String → Option (List (Transaction P)))
      → Answer (Transaction P)
      → Option (List (Transaction P))
  unless_refused rest invalid_cursor_error = none
  unless_refused rest (page_of page) = then_rest rest page

  -- All items from a cursor on, in at most so many requests, if none of them fails.
  unfoldable pub follow : ℕ → Option String → Option (List (Transaction P))
  follow zero cursor = none
  follow (suc requests) cursor =
      unless_refused (λ c. follow requests (some c))
        (get_xpub_transactions tables reader ids limit cursor)

module _ (tables : Tables) {P : Type 0} (reader : Reader P) (limit : ℕ) where
  get-cursor :
      (ids : List ℕ) (cursor : String) {p : Place}
      → 0 < length ids
      → position_of tables cursor ≡ some p
      → get_xpub_transactions tables reader ids limit (some cursor)
        ≡ page_of (wallet_page tables reader false (some p) limit ids)
  unfolding get_xpub_transactions
  get-cursor [] cursor h e = elim h [ ]
  get-cursor (a ∷ ids) cursor h e = rw (e, get_xpub_transactions)

  get-first :
      (ids : List ℕ)
      → 0 < length ids
      → get_xpub_transactions tables reader ids limit none
        ≡ page_of (wallet_page tables reader true none limit ids)
  unfolding get_xpub_transactions
  get-first [] h = elim h [ ]
  get-first (a ∷ ids) h = refl

further :
    (position : Option Place) (p q : Place)
    → past position p ≡ true
    → is_after p q ≡ true
    → past position q ≡ true
further none p q h k = refl
further (some o) p q h k = is_after_trans o p q h k

module _ (tables : Tables) (indexed : IsIndexed tables) {P : Type 0} (reader : Reader P) (limit : ℕ)
    (positive : 0 < limit) (ids : List ℕ) where
  open indexed use {hashes_differ}

  position_of-hash :
      (t : TxRecord)
      → In t tables.transactions
      → is_confirmed t ≡ true
      → position_of tables t.hash ≡ some (key t)
  unfolding position_of Option.bind
  position_of-hash t m c =
      let found =
        find-In (λ u. str_eq u.hash t.hash && is_some u.block_height) tables.transactions m
          (ground (arith, eq_iff t.hash t.hash, c))
          (λ u i h.
            apart-eq (λ v. v.hash) tables.transactions hashes_differ i m
              (ground (arith, eq_iff u.hash t.hash, h))) in
      rw found (ground (arith, Option-cases t.block_height, c))

  -- What remains below the last transaction of a page is what remains after the page.
  remaining-drop :
      (position : Option Place) (q : TxRecord)
      → last (take limit (remaining tables ids position)) ≡ some q
      → remaining tables ids (some (key q)) ≡ drop limit (remaining tables ids position)
  remaining-drop position q h =
      let listed = In-last (take limit (remaining tables ids position)) h in
      let (_, _, passed) = of-remaining tables indexed ids position (In-take limit _ listed) in
      sym (
        keep-keep (λ t. past (some (key q)) (key t)) (λ t. past position (key t))
          (history tables ids) (λ t after. further position (key q) (key t) passed after))
      ∙ keep-drop (λ t u. is_after (key t) (key u)) (λ t h. is_after_irrefl (key t) h)
          (λ t u v h k. is_after_trans (key t) (key u) (key v) h k) limit _
          (remaining-FallByKey tables indexed ids position) h

  -- If each cursor leads through what remains after it, the page leads through its rest.
  then_rest-eq :
      (n : ℕ) (position : Option Place) (pending : List TxRecord)
      → ((q : TxRecord)
          → In q (remaining tables ids position)
          → length (remaining tables ids (some (key q))) < n
          → follow tables reader limit ids n (some q.hash)
            ≡ some (map (shown tables reader) (remaining tables ids (some (key q)))))
      → length (remaining tables ids position) ≤ n
      → then_rest tables reader limit ids
          (λ c. follow tables reader limit ids n (some c))
          (page_at tables reader limit pending (remaining tables ids position))
        ≡ some (map (shown tables reader) (pending ++ remaining tables ids position))
  then_rest-eq n position pending ih size =
      let rest = remaining tables ids position in
      elim (Bool-cases (ltb limit (length rest))) [
        | inr last_page ↦ rw last_page (
            ap (λ xs. some (map (shown tables reader) (pending ++ xs)))
              (take_all limit rest (omega (tests, last_page))))
        | inl more ↦ elim (Option-cases (last (take limit rest))) [
          | inl nothing ↦
              absurd
                (omega (tests, more, length-take limit rest, last-none (take limit rest) nothing))
          | inr (q, e) ↦
              let dropped = remaining-drop position q e in
              let shorter = ap length dropped ∙ length-drop limit rest in
              let onward = ih q (In-take limit rest (In-last _ e)) (omega (tests, more, shorter)) in
              rw (more, e)
                (ap
                    (Option.map
                      (λ items. map (shown tables reader) (pending ++ take limit rest) ++ items))
                    onward
                  ∙ ap
                      (λ xs. some (
                        map (shown tables reader) (pending ++ take limit rest)
                        ++ map (shown tables reader) xs))
                      dropped
                  ∙ ap some (sym (map-append (shown tables reader) (pending ++ take limit rest) _))
                  ∙ ap (λ xs. some (map (shown tables reader) xs))
                      (append_assoc pending (take limit rest) (drop limit rest)
                        ∙ ap (λ xs. pending ++ xs) (take-append-drop limit rest)))
        ]
      ]

  -- From the cursor of a transaction of the history on, a client gets all that remains.
  follow-cursor :
      (requests : ℕ) (q : TxRecord)
      → 0 < length ids
      → In q (history tables ids)
      → length (remaining tables ids (some (key q))) < requests
      → follow tables reader limit ids requests (some q.hash)
        ≡ some (map (shown tables reader) (remaining tables ids (some (key q))))
  unfolding follow
  follow-cursor zero q some_ids m h = elim h [ ]
  follow-cursor (suc n) q some_ids m h =
      let (known, wallet) =
        In-keep (in_wallet tables ids) tables.transactions (In-sort_by newest_first _ m) in
      let at = position_of-hash q known (ground (arith, wallet)) in
      ap (unless_refused tables reader limit ids (λ c. follow tables reader limit ids n (some c))) (
        get-cursor tables reader limit ids q.hash some_ids at
        ∙ ap page_of (wallet_page-eq-page_at tables indexed reader limit ids false (some (key q))))
      ∙ (then_rest-eq n (some (key q)) []
          (λ r i l. follow-cursor n r some_ids (In-keep _ (history tables ids) i).0 l)
          (omega arith))

  follow-first :
      (requests : ℕ)
      → 0 < length ids
      → length (history tables ids) < requests
      → follow tables reader limit ids requests none
        ≡ some (map (shown tables reader) (waiting tables ids ++ history tables ids))
  unfolding follow
  follow-first zero some_ids h = elim h [ ]
  follow-first (suc n) some_ids h =
      let whole : remaining tables ids none ≡ history tables ids =
        keep-All (λ t. past none (key t)) (history tables ids) (All-In _ (λ _ _. refl)) in
      let size = ap length whole in
      ap (unless_refused tables reader limit ids (λ c. follow tables reader limit ids n (some c))) (
        get-first tables reader limit ids some_ids
        ∙ ap page_of (wallet_page-eq-page_at tables indexed reader limit ids true none))
      ∙ (then_rest-eq n none (waiting tables ids)
            (λ r i l.
              follow-cursor n r some_ids (In-keep (λ t. past none (key t)) (history tables ids) i).0
                l)
            (omega (arith, size))
          ∙ ap (λ xs. some (map (shown tables reader) (waiting tables ids ++ xs))) whole)

any-false {ℓ} :
    {A : Type ℓ} (p : A → Bool) (xs : List A) → ((x : A) → p x ≡ false) → any p xs ≡ false
any-false p [] h = refl
any-false p (x ∷ xs) h = rw (h x) (any-false p xs h)

module _ (tables : Tables) where
  -- No transaction is that of no addresses.
  in_wallet-none : (t : TxRecord) → in_wallet tables [] t ≡ false
  in_wallet-none t = ground (
    arith,
    any-false (λ r. r.tx_id == t.id && among [] r.address_id) tables.address_transactions
        (λ r. ground arith),
  )

  owned-none : (o : Option ℕ) → owned [] o ≡ false
  owned-none none = refl
  owned-none (some a) = refl

  waits-none : (t : TxRecord) → waits tables [] t ≡ false
  waits-none t = ground (
    arith,
    any-false (λ o. o.tx_id == t.id && owned [] o.address_id) tables.outputs
        (λ o. ground (arith, owned-none o.address_id)),
    any-false (λ i. i.tx_id == t.id && owned [] i.address_id) tables.inputs
        (λ i. ground (arith, owned-none i.address_id)),
  )

  history-none : waiting tables [] ++ history tables [] ≡ []
  history-none =
      let w =
        ap (sort_by newest_first) (keep_none (waits tables []) tables.transactions waits-none)
        ∙ sort_by-nil newest_first in
      let h =
        ap (sort_by newest_first)
          (keep_none (in_wallet tables []) tables.transactions in_wallet-none)
        ∙ sort_by-nil newest_first in
      ap₂ (λ xs ys. xs ++ ys) w h

-- Where the tables are as the indexer keeps them and the limit is positive, a client that starts
-- without a cursor and follows the cursors it is given, with more requests at hand than the wallet has
-- confirmed transactions, is refused nowhere and gets in all: the wallet's pending transactions and then
-- its confirmed ones, by block and number from the newest on, each once.
pub follow-history :
    (tables : Tables) {P : Type 0} (reader : Reader P) (limit : ℕ) (ids : List ℕ) (requests : ℕ)
    → IsIndexed tables
    → 0 < limit
    → length (history tables ids) < requests
    → follow tables reader limit ids requests none
      ≡ some (map (shown tables reader) (waiting tables ids ++ history tables ids))
unfolding follow get_xpub_transactions
follow-history tables reader limit [] zero indexed positive h = elim h [ ]
follow-history tables reader limit [] (suc n) indexed positive h =
    ap (λ xs. some (map (shown tables reader) xs)) (sym (history-none tables))
follow-history tables reader limit (a ∷ ids) requests indexed positive h =
    follow-first tables indexed reader limit positive (a ∷ ids) requests (omega arith) h

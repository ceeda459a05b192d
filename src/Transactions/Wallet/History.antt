-- ===== src/Transactions/Wallet/History.antt =====
-- The history that the pages of a wallet are cut from: its confirmed transactions, newest first.
use dashscan.Prelude.{
  ℕ, ◌≡◌, ◌≢◌, refl, sym, inl, inr, Bool, true, false, ◌&&◌, Option, some, List, [], ◌∷◌, map, keep,
  any, All, IsApart, sort_by, sort_by-IsApart, sort_by-IsSorted, Bool-cases, Option-cases, ◌==◌,
  is_some, get_or_else, arith, subst,
}
use dashscan.Prelude.Order.{
  In, here, there, All-In, In-All, In-sort_by, In-of-sort_by, In-keep, In-of-keep,
}
use dashscan.Prelude.Falling.{IsApart-both, IsApart-map, keep-IsApart}
use dashscan.Transactions.{Tables, TxRecord, AddressTx, among, newest_first}
use dashscan.Transactions.Wallet.{Place, is_after, past}
use dashscan.Transactions.Wallet.Places.{AreDistinct, Fall}

abbrev pub is_confirmed : TxRecord → Bool
is_confirmed t = is_some t.block_height

abbrev pub key : TxRecord → Place
key t = record { block_height = get_or_else t.block_height 0; tx_id = t.id }

module _ (tables : Tables) (ids : List ℕ) where
  abbrev pub in_wallet : TxRecord → Bool
  in_wallet t =
      is_confirmed t
      && any (λ r. r.tx_id == t.id && among ids r.address_id) tables.address_transactions

  abbrev pub history : List TxRecord
  history = sort_by newest_first (keep in_wallet tables.transactions)

  abbrev pub remaining : Option Place → List TxRecord
  remaining position = keep (λ t. past position (key t)) history

-- There is a transaction with the number and the height of the row.
abbrev pub IsKnown : Tables → AddressTx → Type 0
IsKnown tables r =
    (t : TxRecord) × In t tables.transactions
    × (t.id ≡ r.tx_id)
    × (t.block_height ≡ some r.block_height)

-- What the indexer keeps: numbers and hashes are unique, `address_transactions` has one row for an
-- address and a transaction, and its rows have the heights of confirmed transactions.
pub record IsIndexed (tables : Tables) : Type 0 where
  pub ids_differ : IsApart (λ t u. t.id ≢ u.id) tables.transactions
  pub hashes_differ : IsApart (λ t u. t.hash ≢ u.hash) tables.transactions
  pub rows_differ :
      IsApart (λ r s. r.address_id ≡ s.address_id → r.tx_id ≢ s.tx_id) tables.address_transactions
  pub rows_known : All (IsKnown tables) tables.address_transactions

pub newest_total : (t u : TxRecord) → newest_first t u ≡ false → newest_first u t ≡ true
unfolding newest_first
newest_total t u h = ground (arith, Option-cases t.block_height, Option-cases u.block_height)

pub newest_trans :
    (t u v : TxRecord) → newest_first t u ≡ true → newest_first u v ≡ true → newest_first t v ≡ true
unfolding newest_first
newest_trans t u v h k =
    ground
      (arith, Option-cases t.block_height, Option-cases u.block_height, Option-cases v.block_height)

pub after-of-newest :
    (t u : TxRecord)
    → is_confirmed t ≡ true
    → is_confirmed u ≡ true
    → newest_first t u ≡ true
    → t.id ≢ u.id
    → is_after (key t) (key u) ≡ true
unfolding newest_first
after-of-newest t u p q h k =
    ground (arith, k, Option-cases t.block_height, Option-cases u.block_height)

abbrev pub FallByKey : List TxRecord → Type 0
FallByKey = IsApart (λ t u. is_after (key t) (key u) ≡ true)

-- Confirmed transactions of different numbers fall strictly, once sorted.
pub sort_by-FallByKey :
    (xs : List TxRecord)
    → All (λ t. is_confirmed t ≡ true) xs
    → IsApart (λ t u. t.id ≢ u.id) xs
    → FallByKey (sort_by newest_first xs)
sort_by-FallByKey xs c d =
    IsApart-both (λ t. is_confirmed t ≡ true) (λ t u. newest_first t u ≡ true) (λ t u. t.id ≢ u.id)
      _ _ after-of-newest
      (All-In _ (λ t m. In-All (λ t. is_confirmed t ≡ true) xs c (In-sort_by newest_first xs m)))
      (sort_by-IsSorted newest_first newest_total newest_trans xs)
      (sort_by-IsApart newest_first (λ t u. t.id ≢ u.id) (λ t u h e. h (sym e)) xs d)

pub In-of-among : (ids : List ℕ) {a : ℕ} → among ids a ≡ true → In a ids
In-of-among [] h = absurd (cc h)
In-of-among (b ∷ ids) {a} h = elim (Bool-cases (a == b)) [
  | inl e ↦ here (ground arith)
  | inr e ↦ there (In-of-among ids (rw e at h))
]

pub among-In : (ids : List ℕ) {a : ℕ} → In a ids → among ids a ≡ true
among-In [] m = elim m [ ]
among-In (b ∷ ids) {a} (here e) = ground arith
among-In (b ∷ ids) {a} (there m) = ground (arith, among-In ids m)

pub any-In {ℓ} :
    {A : Type ℓ} (p : A → Bool) (xs : List A) {x : A} → In x xs → p x ≡ true → any p xs ≡ true
any-In p [] m h = elim m [ ]
any-In p (y ∷ ys) {x} (here e) h = rw (subst (λ z. p z ≡ true) e h)
any-In p (y ∷ ys) {x} (there m) h = ground (arith, any-In p ys m h)

pub In-of-any {ℓ} :
    {A : Type ℓ} (p : A → Bool) (xs : List A) → any p xs ≡ true → (x : A) × In x xs × (p x ≡ true)
In-of-any p [] h = absurd (cc h)
In-of-any p (y ∷ ys) h = elim (Bool-cases (p y)) [
  | inl e ↦ (y, here refl, e)
  | inr e ↦ let (x, m, g) = In-of-any p ys (rw e at h) in (x, there m, g)
]

module _ (tables : Tables) (indexed : IsIndexed tables) (ids : List ℕ) where
  open indexed use {ids_differ}

  history-differ : IsApart (λ t u. t.id ≢ u.id) (keep (in_wallet tables ids) tables.transactions)
  history-differ =
      keep-IsApart (λ t u. t.id ≢ u.id) (in_wallet tables ids) tables.transactions ids_differ

  pub history-FallByKey : FallByKey (history tables ids)
  history-FallByKey =
      sort_by-FallByKey (keep (in_wallet tables ids) tables.transactions)
        (All-In _ (λ t m. ground (arith, (In-keep (in_wallet tables ids) tables.transactions m).1)))
        history-differ

  module _ (position : Option Place) where
    pub remaining-differ : IsApart (λ t u. t.id ≢ u.id) (remaining tables ids position)
    remaining-differ =
        keep-IsApart (λ t u. t.id ≢ u.id) (λ t. past position (key t)) (history tables ids)
          (sort_by-IsApart newest_first (λ t u. t.id ≢ u.id) (λ t u h e. h (sym e)) _
            history-differ)

    pub remaining-FallByKey : FallByKey (remaining tables ids position)
    remaining-FallByKey =
        keep-IsApart (λ t u. is_after (key t) (key u) ≡ true) (λ t. past position (key t))
          (history tables ids) history-FallByKey

    pub places-Fall : Fall (map key (remaining tables ids position))
    places-Fall =
        IsApart-map (λ _. Unit {0}) (λ t u. is_after (key t) (key u) ≡ true)
          (λ x y. is_after x y ≡ true) key _ (λ x y _ _ h. h) (All-In _ (λ _ _. tt))
          remaining-FallByKey

    pub places-AreDistinct : AreDistinct (map key (remaining tables ids position))
    places-AreDistinct =
        IsApart-map (λ _. Unit {0}) (λ t u. t.id ≢ u.id) (λ x y. x.tx_id ≢ y.tx_id) key _
          (λ x y _ _ h. h) (All-In _ (λ _ _. tt)) remaining-differ

  pub In-remaining :
      (position : Option Place) {t : TxRecord}
      → In t tables.transactions
      → in_wallet tables ids t ≡ true
      → past position (key t) ≡ true
      → In t (remaining tables ids position)
  In-remaining position m w p =
      In-of-keep (λ t. past position (key t)) (history tables ids)
        (In-of-sort_by newest_first _ (In-of-keep (in_wallet tables ids) tables.transactions m w)) p

  pub of-remaining :
      (position : Option Place) {t : TxRecord}
      → In t (remaining tables ids position)
      → In t tables.transactions × (in_wallet tables ids t ≡ true) × (past position (key t) ≡ true)
  of-remaining position m =
      let (listed, p) = In-keep (λ t. past position (key t)) (history tables ids) m in
      let (known, w) =
        In-keep (in_wallet tables ids) tables.transactions (In-sort_by newest_first _ listed) in
      (known, w, p)

-- ===== src/Transactions/Listing/Asked.antt =====
-- What a query of the listings asks for, in its own words: which transactions, and in which order.
use mathlib.Core.Option
use dashscan.Prelude.{
  ℕ, ◌≡◌, refl, ap, ◌∙◌, Bool, true, false, ◌&&◌, ◌||◌, not, Option, none, some, List, [], ◌∷◌,
  keep, length, sum_of, sum_of-sort_by, sort_by, is_some, get_or_else, leb, ltb, ◌==◌,
  if◌then◌else◌, arith,
}
use dashscan.Models.Transactions.{
  TransactionType, classic, provider_registration, provider_update_service,
  provider_update_registrar, provider_update_revocation, coinbase, quorum_commitment,
  masternode_hard_fork_signal, asset_lock, asset_unlock, type_name, type_number,
}
use dashscan.Prelude.Maps.{lookup}
use dashscan.Transactions.{TxRecord}
use dashscan.Transactions.Listing.{
  Direction, asc, desc, TransactionsQuery, where_number, where_flag, where_height, matches,
  filters_of, listing_order, block_order,
}

-- The number of a type on the chain.
abbrev pub number_of : TransactionType → ℕ
number_of classic = 0
number_of provider_registration = 1
number_of provider_update_service = 2
number_of provider_update_registrar = 3
number_of provider_update_revocation = 4
number_of coinbase = 5
number_of quorum_commitment = 6
number_of masternode_hard_fork_signal = 7
number_of asset_lock = 8
number_of asset_unlock = 9

abbrev pub is_of : Option TransactionType → TxRecord → Bool
is_of none t = true
is_of (some kind) t = t.kind == number_of kind

-- Whether a flag is as it is asked for.
abbrev pub agrees : Option Bool → Bool → Bool
agrees none flag = true
agrees (some true) flag = flag
agrees (some false) flag = not flag

abbrev pub stands_at : ℕ → TxRecord → Bool
stands_at at t = elim t.block_height [ none ↦ false | some height ↦ height == at ]

abbrev pub is_in : Option ℕ → TxRecord → Bool
is_in none t = true
is_in (some at) t = stands_at at t

abbrev pub is_asked : Option TransactionType → TransactionsQuery → TxRecord → Bool
is_asked kind q t =
    is_some t.block_height
    && ((is_of kind t && agrees q.coinjoin t.coinjoin)
        && (agrees q.multisig t.multisig && is_in q.block_height t))

-- Within a block: the coinbase first, and then by number.
abbrev pub precedes_in_block : Direction → TxRecord → TxRecord → Bool
precedes_in_block asc t u =
    (t.is_coinbase && not u.is_coinbase) || (leb t.id u.id && (t.is_coinbase || not u.is_coinbase))
precedes_in_block desc t u =
    (t.is_coinbase && not u.is_coinbase) || (leb u.id t.id && (t.is_coinbase || not u.is_coinbase))

-- By height, and within a block by number from the lowest one on.
abbrev pub height_of : TxRecord → ℕ
height_of t = get_or_else t.block_height 0

abbrev pub precedes : Direction → TxRecord → TxRecord → Bool
precedes asc t u =
    ltb (height_of t) (height_of u) || (height_of t == height_of u && precedes_in_block asc t u)
precedes desc t u =
    ltb (height_of u) (height_of t) || (height_of t == height_of u && precedes_in_block asc t u)

pub listing_order-eq : (d : Direction) (t u : TxRecord) → listing_order d t u ≡ precedes d t u
unfolding listing_order
listing_order-eq asc t u = ground arith
listing_order-eq desc t u = ground arith

pub block_order-eq : (d : Direction) (t u : TxRecord) → block_order d t u ≡ precedes_in_block d t u
unfolding block_order
block_order-eq asc t u = ground arith
block_order-eq desc t u = ground arith

type_number-name : (kind : TransactionType) → type_number (type_name kind) ≡ some (number_of kind)
unfolding type_number type_name lookup
type_number-name classic = refl
type_number-name provider_registration = refl
type_number-name provider_update_service = refl
type_number-name provider_update_registrar = refl
type_number-name provider_update_revocation = refl
type_number-name coinbase = refl
type_number-name quorum_commitment = refl
type_number-name masternode_hard_fork_signal = refl
type_number-name asset_lock = refl
type_number-name asset_unlock = refl

where_number-named :
    (kind : Option TransactionType) (t : TxRecord)
    → where_number (Option.bind (Option.map type_name kind) type_number) t.kind ≡ is_of kind t
unfolding Option.bind
where_number-named none t = refl
where_number-named (some kind) t = ap (λ o. where_number o t.kind) (type_number-name kind)

where_flag-agrees : (o : Option Bool) (b : Bool) → where_flag o b ≡ agrees o b
where_flag-agrees none b = refl
where_flag-agrees (some true) true = refl
where_flag-agrees (some true) false = refl
where_flag-agrees (some false) true = refl
where_flag-agrees (some false) false = refl

pub where_height-stands_at :
    (at : ℕ) (o : Option ℕ)
    → where_height (some at) o ≡ (elim o [ none ↦ false | some height ↦ height == at ])
where_height-stands_at at none = refl
where_height-stands_at at (some height) = refl

where_height-is_in : (o : Option ℕ) (t : TxRecord) → where_height o t.block_height ≡ is_in o t
where_height-is_in none t = refl
where_height-is_in (some at) t = where_height-stands_at at t.block_height

pub matches-is_asked :
    (kind : Option TransactionType) (q : TransactionsQuery) (t : TxRecord)
    → q.transaction_type ≡ Option.map type_name kind
    → (is_some t.block_height && matches (filters_of q) t) ≡ is_asked kind q t
unfolding matches filters_of
matches-is_asked kind q t e =
    let named =
      ap (λ o. where_number (Option.bind o type_number) t.kind) e ∙ where_number-named kind t in
    cc (
      named,
      where_flag-agrees q.coinjoin t.coinjoin,
      where_flag-agrees q.multisig t.multisig,
      where_height-is_in q.block_height t,
    )

-- A kept list has each entry that passes as often as the list had it.
pub sum_of-kept :
    (p r : TxRecord → Bool) (le : TxRecord → TxRecord → Bool) (xs : List TxRecord)
    → ((t : TxRecord) → p t ≡ r t)
    → (f : TxRecord → ℕ)
    → sum_of f (sort_by le (keep p xs)) ≡ sum_of (λ t. if r t then f t else 0) xs
sum_of-kept p r le xs h f = sum_of-sort_by le f (keep p xs) ∙ kept xs
  where
    kept : (ys : List TxRecord) → sum_of f (keep p ys) ≡ sum_of (λ t. if r t then f t else 0) ys
    kept [] = refl
    kept (t ∷ ts) = ground (arith, kept ts, h t)

pub length-sum_of : (xs : List TxRecord) → length xs ≡ sum_of (λ _. 1) xs
length-sum_of [] = refl
length-sum_of (x ∷ xs) = omega (arith, length-sum_of xs)

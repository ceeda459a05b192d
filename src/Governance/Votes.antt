-- ===== src/Governance/Votes.antt =====
-- api/src/models/ProposalVote.ts: a vote as Dash Core prints it, and the tally of votes.
use dashscan.Prelude.{
  ℕ, zero, suc, ◌+◌, ◌*◌, ◌≡◌, String, Option, none, some, List, [], ◌∷◌, arith, str_eq,
  if◌then◌else◌,
}
use Prim.Native.String.{slice, len}
use text.Mathlib.Text.{find?}

pub record ProposalVote : Type 0 where
  pub outpoint : String
  pub time : ℕ
  pub outcome : String
  pub signal : String
  pub pro_tx_hash : Option String
  pub proposal_hash : Option String

-- value.split(':'), which needs no more rounds than the text has bytes
unfoldable pub split_fields : ℕ → String → List String
split_fields zero value = value ∷ []
split_fields (suc fuel) value = elim (find? value ":") [
  | none ↦ value ∷ []
  | some i ↦ slice value 0 i ∷ split_fields fuel (slice value (i + 1) (len value))
]

-- `Number` of a text, where it is finite: the votes' times are whole seconds.
module _ (number : String → Option ℕ) where
  abbrev from_time : String → String → String → Option ℕ → Option ProposalVote
  from_time outpoint outcome signal none = none
  from_time outpoint outcome signal (some seconds) = some (record {
    outpoint = outpoint;
    time = seconds * 1000;
    outcome = outcome;
    signal = signal;
    pro_tx_hash = none;
    proposal_hash = none;
  })

  abbrev from_fields : List String → Option ProposalVote
  from_fields (outpoint ∷ time ∷ outcome ∷ signal ∷ rest) =
      from_time outpoint outcome signal (number time)
  from_fields fields = none

  unfoldable pub from_raw : String → Option ProposalVote
  unfolding split_fields
  from_raw value = from_fields (split_fields (len value) value)

pub record Tally : Type 0 where
  pub yes : ℕ
  pub no : ℕ
  pub abstain : ℕ

abbrev pub no_votes : Tally
no_votes = record { yes = 0; no = 0; abstain = 0 }

-- `yes += weight`, or whichever the outcome names
unfoldable pub add_vote : String → ℕ → Tally → Tally
add_vote outcome weight t =
    if str_eq outcome "yes"
    then record t { yes = t.yes + weight }
    else if str_eq outcome "no"
    then record t { no = t.no + weight }
    else if str_eq outcome "abstain"
    then record t { abstain = t.abstain + weight }
    else t

abbrev pub plus : Tally → Tally → Tally
plus a b = record { yes = a.yes + b.yes; no = a.no + b.no; abstain = a.abstain + b.abstain }

pub plus-add_vote-left :
    (o : String) (w : ℕ) (a b : Tally) → plus (add_vote o w a) b ≡ add_vote o w (plus a b)
unfolding add_vote
plus-add_vote-left o w a b = ground arith

pub plus-add_vote-right :
    (o : String) (w : ℕ) (a b : Tally) → plus a (add_vote o w b) ≡ add_vote o w (plus a b)
unfolding add_vote
plus-add_vote-right o w a b = ground arith

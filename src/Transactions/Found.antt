-- ===== src/Transactions/Found.antt =====
-- What a join on a unique column finds, and what the API shows of a transaction.
use dashscan.Prelude.{
  ◌≡◌, refl, ap, sym, subst, inl, inr, Bool, true, some, List, [], ◌∷◌, Bool-cases,
}
use dashscan.Prelude.Order.{In, here, there}
use dashscan.Models.Transactions.{Transaction, Reader, from_row}
use dashscan.Transactions.{Tables, TxRecord, find, joined}

-- What the API shows of a transaction.
abbrev pub shown : {P : Type 0} → Tables → Reader P → TxRecord → Transaction P
shown tables reader t = from_row reader (joined tables t)

pub find-In :
    {A : Type 0} (p : A → Bool) (xs : List A) {x : A}
    → In x xs
    → p x ≡ true
    → ((y : A) → In y xs → p y ≡ true → y ≡ x)
    → find p xs ≡ some x
unfolding find
find-In p [] m h only = elim m [ ]
find-In p (y ∷ ys) {x} (here e) h only =
    let holds : p y ≡ true = subst (λ z. p z ≡ true) e h in rw holds (ap some (sym e))
find-In p (y ∷ ys) {x} (there m) h only = elim (Bool-cases (p y)) [
  | inl holds ↦ rw holds (ap some (only y (here refl) holds))
  | inr fails ↦ rw fails (find-In p ys m h (λ z i. only z (there i)))
]

pub find-some :
    {A : Type 0} (p : A → Bool) (xs : List A) {x : A} → find p xs ≡ some x → In x xs × (p x ≡ true)
unfolding find
find-some p [] e = absurd (cc e)
find-some p (y ∷ ys) {x} e = elim (Bool-cases (p y)) [
  | inl holds ↦
      let same : y ≡ x = cc (holds, e) in (here (sym same), subst (λ z. p z ≡ true) same holds)
  | inr fails ↦ let (m, h) = find-some p ys (cc (fails, e)) in (there m, h)
]

-- ===== src/Prelude/Lists.antt =====
-- Lists measured and indexed by native numbers, under the library's names, with the array methods
-- of the source: `slice`, `filter`, and the mapping over consecutive indices.
use Prim.Native.Nat.{ℕ, zero, suc, ◌+◌, ◌-◌, ◌≤◌, ◌<◌, min}
use mathlib.Core.Path.{◌≡◌, refl, ap, ap₂, ◌∙◌}
use mathlib.Core.Bool.{Bool, true, false}
use mathlib.Core.List.{List, [], ◌∷◌, ◌++◌, map}
use mathlib.Core.Option.{Option, none, some}
use native.Mathlib.Omega.{arith}
use dashscan.Prelude.Tests.{if◌then◌else◌}

module _ {ℓ} {A : Type ℓ} where
  abbrev pub length : List A → ℕ
  length [] = 0
  length (x ∷ xs) = suc (length xs)

  abbrev pub get_elem? : List A → ℕ → Option A
  get_elem? [] i = none
  get_elem? (x ∷ xs) zero = some x
  get_elem? (x ∷ xs) (suc i) = get_elem? xs i

  abbrev pub take : ℕ → List A → List A
  take zero xs = []
  take (suc n) [] = []
  take (suc n) (x ∷ xs) = x ∷ take n xs

  abbrev pub drop : ℕ → List A → List A
  drop zero xs = xs
  drop (suc n) [] = []
  drop (suc n) (x ∷ xs) = drop n xs

  -- xs.slice(from, to), for 0 ≤ from
  abbrev pub slice : ℕ → ℕ → List A → List A
  slice from to xs = take (to - from) (drop from xs)

  -- xs.filter(p)
  abbrev pub keep : (A → Bool) → List A → List A
  keep p [] = []
  keep p (x ∷ xs) = if p x then x ∷ keep p xs else keep p xs

  abbrev pub any : (A → Bool) → List A → Bool
  any p [] = false
  any p (x ∷ xs) = if p x then true else any p xs

  abbrev pub All {κ} : (A → Type κ) → List A → Type κ
  All P [] = Unit
  All P (x ∷ xs) = P x × All P xs

  -- `f(from), f(from + 1), …`, n of them
  abbrev pub tabulate : ℕ → ℕ → (ℕ → A) → List A
  tabulate zero from f = []
  tabulate (suc n) from f = f from ∷ tabulate n (suc from) f

module _ {ℓ} {A : Type ℓ} where
  pub length-append : (xs ys : List A) → length (xs ++ ys) ≡ length xs + length ys
  length-append [] ys = omega arith
  length-append (x ∷ xs) ys = omega (arith, length-append xs ys)

  pub length-take : (n : ℕ) (xs : List A) → length (take n xs) ≡ min n (length xs)
  length-take zero xs = omega arith
  length-take (suc n) [] = omega arith
  length-take (suc n) (x ∷ xs) = omega (arith, length-take n xs)

  pub length-drop : (n : ℕ) (xs : List A) → length (drop n xs) ≡ length xs - n
  length-drop zero xs = omega arith
  length-drop (suc n) [] = omega arith
  length-drop (suc n) (x ∷ xs) = omega (arith, length-drop n xs)

  pub take_all : (n : ℕ) (xs : List A) → length xs ≤ n → take n xs ≡ xs
  take_all zero [] h = refl
  take_all (suc n) [] h = refl
  take_all zero (x ∷ xs) h = absurd (omega arith)
  take_all (suc n) (x ∷ xs) h = ap (λ ys. x ∷ ys) (take_all n xs (omega arith))

  pub take-take : (n m : ℕ) (xs : List A) → n ≤ m → take n (take m xs) ≡ take n xs
  take-take zero m xs h = refl
  take-take (suc n) zero xs h = elim h [ ]
  take-take (suc n) (suc m) [] h = refl
  take-take (suc n) (suc m) (x ∷ xs) h = ap (λ ys. x ∷ ys) (take-take n m xs (omega arith))

  pub take-append-drop : (n : ℕ) (xs : List A) → take n xs ++ drop n xs ≡ xs
  take-append-drop zero xs = refl
  take-append-drop (suc n) [] = refl
  take-append-drop (suc n) (x ∷ xs) = ap (λ ys. x ∷ ys) (take-append-drop n xs)

  pub length-map {κ} : {B : Type κ} (xs : List A) (f : A → B) → length (map f xs) ≡ length xs
  length-map [] f = refl
  length-map (x ∷ xs) f = ap suc (length-map xs f)

  pub length-tabulate : (n from : ℕ) (f : ℕ → A) → length (tabulate n from f) ≡ n
  length-tabulate zero from f = refl
  length-tabulate (suc n) from f = ap suc (length-tabulate n (suc from) f)

  pub get_elem?-tabulate :
      (n from i : ℕ) (f : ℕ → A) → i < n → get_elem? (tabulate n from f) i ≡ some (f (from + i))
  get_elem?-tabulate zero from i f h = elim h [ ]
  get_elem?-tabulate (suc n) from zero f h = ap (λ k. some (f k)) (omega arith)
  get_elem?-tabulate (suc n) from (suc i) f h =
      let e : suc from + i ≡ from + suc i = omega arith in
      ground (arith, get_elem?-tabulate n (suc from) i f (omega arith), ap (λ k. some (f k)) e)

  pub tabulate_cong :
      {n n' from from' : ℕ} (f : ℕ → A)
      → n ≡ n'
      → from ≡ from'
      → tabulate n from f ≡ tabulate n' from' f
  tabulate_cong f p q = ap₂ (λ n from. tabulate n from f) p q

  pub tabulate_ext :
      (n from : ℕ) (f g : ℕ → A)
      → ((i : ℕ) → from ≤ i → i < from + n → f i ≡ g i)
      → tabulate n from f ≡ tabulate n from g
  tabulate_ext zero from f g h = refl
  tabulate_ext (suc n) from f g h =
      ap₂ (λ x xs. x ∷ xs) (h from (omega arith) (omega arith))
        (tabulate_ext n (suc from) f g (λ i p q. h i (omega arith) (omega arith)))

  pub tabulate-append :
      (n m from : ℕ) (f : ℕ → A)
      → tabulate n from f ++ tabulate m (from + n) f ≡ tabulate (n + m) from f
  tabulate-append zero m from f = tabulate_cong f (omega arith) (omega arith)
  tabulate-append (suc n) m from f =
      ap (λ xs. f from ∷ xs)
        (ap (λ ys. tabulate n (suc from) f ++ ys)
            (tabulate_cong {n = m} {from = from + suc n} {from' = suc from + n} f refl
              (omega arith))
          ∙ tabulate-append n m (suc from) f)
      ∙ tabulate_cong {n = suc (n + m)} {n' = suc n + m} f (omega arith) refl

  pub take-tabulate :
      (k n from : ℕ) (f : ℕ → A) → k ≤ n → take k (tabulate n from f) ≡ tabulate k from f
  take-tabulate zero n from f h = refl
  take-tabulate (suc k) zero from f h = elim h [ ]
  take-tabulate (suc k) (suc n) from f h =
      ap (λ xs. f from ∷ xs) (take-tabulate k n (suc from) f (omega arith))

  pub drop-tabulate :
      (k n from : ℕ) (f : ℕ → A) → drop k (tabulate n from f) ≡ tabulate (n - k) (from + k) f
  drop-tabulate zero n from f = tabulate_cong f (omega arith) (omega arith)
  drop-tabulate (suc k) zero from f =
      tabulate_cong {n = 0} {from = from + suc k} f (omega arith) refl
  drop-tabulate (suc k) (suc n) from f =
      drop-tabulate k n (suc from) f ∙ tabulate_cong f (omega arith) (omega arith)

  pub slice-tabulate :
      (from to n : ℕ) (f : ℕ → A)
      → to ≤ n
      → slice from to (tabulate n 0 f) ≡ tabulate (to - from) from f
  slice-tabulate from to n f h =
      ap (take (to - from)) (drop-tabulate from n 0 f)
      ∙ take-tabulate (to - from) (n - from) (0 + from) f (omega arith)
      ∙ tabulate_cong f refl (omega arith)

-- ===== src/Prelude/Windows.antt =====
-- Windows of time, with both ends or without the last moment, and how they join.
use dashscan.Prelude.Tests.{ltb, leb, if◌then◌else◌}
use dashscan.Prelude.Lists.{All}
use dashscan.Prelude.Sort.{sum_of}
use Prim.Native.Nat.{ℕ, ◌+◌, ◌≤◌}
use mathlib.Core.Path.{◌≡◌}
use mathlib.Core.Bool.{Bool, true, false, ◌&&◌}
use mathlib.Core.List.{List, [], ◌∷◌, ◌++◌}
use native.Mathlib.Omega.{arith}

pub record Window : Type 0 where
  pub from : ℕ
  pub to : ℕ

-- if (test) windows.push({ from, to })
abbrev pub pushed : Bool → ℕ → ℕ → List Window
pushed test from to = if test then record { from = from; to = to } ∷ [] else []

-- Whether a window has a moment, its end with it, and without.
abbrev pub has_closed : ℕ → Window → ℕ
has_closed t w = if leb w.from t && leb t w.to then 1 else 0

abbrev pub has_open : ℕ → Window → ℕ
has_open t w = if leb w.from t && ltb t w.to then 1 else 0

-- 1 for a moment from `a` on and before `b`, and 0 for others
abbrev pub between : ℕ → ℕ → ℕ → ℕ
between a b t = if leb a t && ltb t b then 1 else 0

pub between-join : (a b c t : ℕ) → a ≤ b → b ≤ c → between a b t + between b c t ≡ between a c t
between-join a b c t h k = ground arith

pub pushed-open : (a b t : ℕ) → sum_of (has_open t) (pushed (ltb a b) a b) ≡ between a b t
pushed-open a b t = ground arith

pub sum_of-append :
    {A : Type 0} (f : A → ℕ) (xs ys : List A) → sum_of f (xs ++ ys) ≡ sum_of f xs + sum_of f ys
sum_of-append f [] ys = omega arith
sum_of-append f (x ∷ xs) ys = omega (arith, sum_of-append f xs ys)

pub All-append :
    {A : Type 0} (P : A → Type 0) (xs ys : List A) → All P xs → All P ys → All P (xs ++ ys)
All-append P [] ys a b = b
All-append P (x ∷ xs) ys a b = (a.0, All-append P xs ys a.1 b)

pub pushed-All :
    (P : Window → Type 0) (test : Bool) (from to : ℕ)
    → P (record { from = from; to = to })
    → All P (pushed test from to)
pushed-All P true from to h = (h, tt)
pushed-All P false from to h = tt

-- ===== src/Prelude/Ints.antt =====
-- Whole numbers below zero too, with the order on them.
use dashscan.Prelude.Tests.{leb, ltb, if◌then◌else◌}
use Prim.Native.Nat.{ℕ, ◌-◌}
use mathlib.Core.Path.{◌≡◌, refl}
use mathlib.Core.Bool.{Bool, true, false}
use native.Mathlib.Omega.{arith}

pub data ℤ : Type 0 where
  pos : ℕ → ℤ
  negsuc : ℕ → ℤ

-- a - b
abbrev pub minus : ℕ → ℕ → ℤ
minus a b = if ltb a b then negsuc (b - a - 1) else pos (a - b)

unfoldable pub leb_int : ℤ → ℤ → Bool
leb_int (pos a) (pos b) = leb a b
leb_int (pos a) (negsuc b) = false
leb_int (negsuc a) (pos b) = true
leb_int (negsuc a) (negsuc b) = leb b a

pub leb_int_total : (a b : ℤ) → leb_int a b ≡ false → leb_int b a ≡ true
unfolding leb_int
leb_int_total (pos a) (pos b) h = ground arith
leb_int_total (pos a) (negsuc b) h = refl
leb_int_total (negsuc a) (pos b) h = absurd (cc h)
leb_int_total (negsuc a) (negsuc b) h = ground arith

pub leb_int_trans : (a b c : ℤ) → leb_int a b ≡ true → leb_int b c ≡ true → leb_int a c ≡ true
unfolding leb_int
leb_int_trans (pos a) (pos b) (pos c) h k = ground arith
leb_int_trans (pos a) (pos b) (negsuc c) h k = absurd (cc k)
leb_int_trans (pos a) (negsuc b) c h k = absurd (cc h)
leb_int_trans (negsuc a) b (pos c) h k = refl
leb_int_trans (negsuc a) (pos b) (negsuc c) h k = absurd (cc k)
leb_int_trans (negsuc a) (negsuc b) (negsuc c) h k = ground arith

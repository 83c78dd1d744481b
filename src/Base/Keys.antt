-- ===== src/Base/Keys.antt =====
-- Go's comparable types, with `==`: what the keys of the program's maps are made of.
use Prim.Native.Nat.{ℕ}
use Prim.Native.String.{String}
use mathlib.Core.Path.{◌≡◌}
use mathlib.Core.Logic.{◌↔◌}
use mathlib.Core.Bool.{Bool, true}
use native.Mathlib.Omega.{arith}
use text.Mathlib.Text.{◌==◌ as text_equal}
use text.Mathlib.TextEquality.{eq_iff as text_equal_iff}
use pontifex.Base.Tests.{nat_equal}

pub record Comparable (K : Type 0) : Type 0 where
  pub equal : K → K → Bool
  pub equal_iff : (j k : K) → (equal j k ≡ true) ↔ (j ≡ k)

pub nat_equal_iff : (m n : ℕ) → (nat_equal m n ≡ true) ↔ (m ≡ n)
nat_equal_iff m n = ground arith

instance abbrev pub comparable_string : Comparable String
comparable_string = record { equal = text_equal; equal_iff = text_equal_iff }

instance abbrev pub comparable_number : Comparable ℕ
comparable_number = record { equal = nat_equal; equal_iff = nat_equal_iff }

infix 50 ◌==◌
abbrev pub ◌==◌ : {K : Type 0} ⦃c : Comparable K⦄ → K → K → Bool
◌==◌ ⦃c⦄ j k = c.equal j k

pub ==-self : {K : Type 0} ⦃c : Comparable K⦄ (k : K) → (k == k) ≡ true
==-self ⦃c⦄ k = (c.equal_iff k k).1 (λ i. k)

-- ===== src/LeaderBoard/Ieee.antt =====
-- The laws of `float64` that the points depend on.
use try_it.Prelude
use try_it.Prelude.{
  ℕ, ◌≤◌, ◌≡◌, refl, sym, ap, subst, ◌∙◌, ◌⊎◌, inl, inr, Bool, true, false, not, Option, none, some,
  List, [], ◌∷◌, arith, done, Returns, All, Bool-cases, if◌then◌else◌, panics,
}
use try_it.Prelude.Int.{ℤ, pos, ◌≤ℤ◌}
use try_it.LeaderBoard.{Float64}

module _ {F : Type 0} (float : Float64 F) where
  open float use {of_int, sub, mul, div, lt, leb, to_int, seconds}

  -- What IEEE 754 says of the operations where the service uses them: they are monotone, and exact
  -- on the small integers.
  pub record Ieee : Type 0 where
    pub leb_trans : (a b c : F) → leb a b ≡ true → leb b c ≡ true → leb a c ≡ true
    -- a number that is at least 0 is no NaN
    pub lt_leb :
        (p : F)
        → leb (of_int (pos 0)) p ≡ true
        → lt (of_int (pos 1)) p ≡ not (leb p (of_int (pos 1)))
    pub leb_int :
        (m n : ℕ) → m ≤ 1000 → n ≤ 1000 → leb (of_int (pos m)) (of_int (pos n)) ≡ Prelude.leb m n
    pub seconds_mono : (a b : ℤ) → a ≤ℤ b → leb (seconds a) (seconds b) ≡ true
    pub div_mono :
        (a b : F) → leb a b ≡ true → leb (div a (of_int (pos 20))) (div b (of_int (pos 20))) ≡ true
    pub sub_anti :
        (a b : F) → leb a b ≡ true → leb (sub (of_int (pos 1)) b) (sub (of_int (pos 1)) a) ≡ true
    pub mul_mono :
        (a b : F)
        → leb a b ≡ true
        → leb (mul (of_int (pos 1000)) a) (mul (of_int (pos 1000)) b) ≡ true
    -- a conversion is cut off towards 0, and defined where the result fits
    pub to_int_mono :
        (a b : F)
        → leb (of_int (pos 0)) a ≡ true
        → leb b (of_int (pos 1000)) ≡ true
        → leb a b ≡ true
        → to_int a ≤ℤ to_int b
    pub to_int_of_int : (n : ℕ) → n ≤ 1000 → to_int (of_int (pos n)) ≡ pos n
    pub seconds_0 : seconds (pos 0) ≡ of_int (pos 0)
    pub seconds_20 : seconds (pos 20000000000) ≡ of_int (pos 20)
    pub div_0 : div (of_int (pos 0)) (of_int (pos 20)) ≡ of_int (pos 0)
    pub div_20 : div (of_int (pos 20)) (of_int (pos 20)) ≡ of_int (pos 1)
    pub sub_0 : sub (of_int (pos 1)) (of_int (pos 0)) ≡ of_int (pos 1)
    pub sub_1 : sub (of_int (pos 1)) (of_int (pos 1)) ≡ of_int (pos 0)
    pub mul_0 : mul (of_int (pos 1000)) (of_int (pos 0)) ≡ of_int (pos 0)
    pub mul_1 : mul (of_int (pos 1000)) (of_int (pos 1)) ≡ of_int (pos 1000)

-- ===== src/LeaderBoard/Scale.antt =====
-- The two ends of the scale of points, and differences of times.
use try_it.Prelude.{◌≡◌, ap, arith, if◌then◌else◌}
use try_it.Prelude.Int.{ℤ, pos, negsuc, ◌≤ℤ◌, ◌+ℤ◌, leb_ℤ}
use try_it.LeaderBoard.{Float64, points_after, time_sub}

-- The two last tests of the loop.
unfoldable pub clamp : ℤ → ℤ
clamp x =
    let floored = (if leb_ℤ x (pos 0) then pos 0 else x) in
    if leb_ℤ (pos 1000) floored then pos 1000 else floored

pub clamp-bounds : (x : ℤ) → (pos 0 ≤ℤ clamp x) × (clamp x ≤ℤ pos 1000)
unfolding clamp
clamp-bounds (pos n) = ground arith
clamp-bounds (negsuc n) = ground arith

pub clamp_mono : (x y : ℤ) → x ≤ℤ y → clamp x ≤ℤ clamp y
unfolding clamp
clamp_mono (pos m) (pos n) h = ground arith
clamp_mono (pos m) (negsuc n) h = ground arith
clamp_mono (negsuc m) (pos n) h = ground arith
clamp_mono (negsuc m) (negsuc n) h = ground arith

pub time_sub_mono : (t u b : ℤ) → t ≤ℤ u → time_sub t b ≤ℤ time_sub u b
unfolding time_sub
time_sub_mono t u b h = ground arith

pub time_sub_self : (t : ℤ) → time_sub t t ≡ pos 0
unfolding time_sub
time_sub_self (pos n) = ground arith
time_sub_self (negsuc n) = ground arith

pub time_sub-late : (t b : ℤ) → b +ℤ pos 20000000000 ≤ℤ t → pos 20000000000 ≤ℤ time_sub t b
unfolding time_sub
time_sub-late t b h = ground arith

pub pos_0-antisym : (x : ℤ) → pos 0 ≤ℤ x → x ≤ℤ pos 0 → x ≡ pos 0
pos_0-antisym (pos n) low high = ap pos (omega arith)
pos_0-antisym (negsuc n) low high = ground arith

pub points_after-bounds :
    {F : Type 0} (float : Float64 F) (d : ℤ)
    → (pos 0 ≤ℤ points_after float d) × (points_after float d ≤ℤ pos 1000)
unfolding points_after clamp
points_after-bounds float d = search clamp-bounds

-- ===== src/LeaderBoard/Points.antt =====
-- The points of `ComputeLeaderBoard`: their bounds, and how they depend on the time of an answer.
use try_it.Prelude.{
  ℕ, ◌≤◌, ◌≡◌, refl, ◌∙◌, ◌⊎◌, inl, inr, true, false, arith, Bool-cases, if◌then◌else◌,
}
use try_it.Prelude.Int.{ℤ, pos, negsuc, ◌≤ℤ◌, ◌+ℤ◌}
use try_it.Shared.Scores.{Answer}
use try_it.LeaderBoard.{Float64, points_after, user_point, time_sub}
use try_it.LeaderBoard.Ieee.{Ieee}
use try_it.LeaderBoard.Scale.{
  clamp, clamp_mono, time_sub_mono, time_sub_self, time_sub-late, pos_0-antisym,
  points_after-bounds,
}

-- Whatever the arithmetic gives, the points of an answer are between 0 and 1000; one that is wrong
-- has none.
pub user_point-bounds :
    {F : Type 0} (float : Float64 F) (best : ℤ) (u : Answer)
    → (pos 0 ≤ℤ (user_point float best u).score)
      × ((user_point float best u).score ≤ℤ (if u.correct then pos 1000 else pos 0))
unfolding user_point
user_point-bounds float best u = elim (Bool-cases u.correct) [
  | inl e ↦ rw e (points_after-bounds float (time_sub u.timestamp best))
  | inr e ↦ rw e (omega arith, omega arith)
]

module _ {F : Type 0} (float : Float64 F) (ieee : Ieee float) where
  open float use {of_int, sub, mul, div, lt, leb, to_int, seconds}
  open ieee use {
    leb_trans, lt_leb, leb_int, seconds_mono, div_mono, sub_anti, mul_mono, to_int_mono,
    to_int_of_int, seconds_0, seconds_20, div_0, div_20, sub_0, sub_1, mul_0, mul_1,
  }

  elapsed : ℤ → F
  elapsed d = if leb (seconds d) (of_int (pos 0)) then of_int (pos 0) else seconds d

  capped : F → F
  capped p = if lt (of_int (pos 1)) p then of_int (pos 1) else p

  raw : ℤ → F
  unfolding elapsed capped
  raw d =
      mul (of_int (pos 1000)) (sub (of_int (pos 1)) (capped (div (elapsed d) (of_int (pos 20)))))

  points_after-clamp : (d : ℤ) → points_after float d ≡ clamp (to_int (raw d))
  unfolding points_after clamp raw elapsed capped
  points_after-clamp d = refl

  zero_seconds : (d : ℤ) → (d ≤ℤ pos 0) ⊎ (pos 0 ≤ℤ d)
  zero_seconds (pos n) = inr (omega arith)
  zero_seconds (negsuc n) = inl (omega arith)

  elapsed-low : (d : ℤ) → leb (seconds d) (of_int (pos 0)) ≡ true → elapsed d ≡ of_int (pos 0)
  unfolding elapsed
  elapsed-low d e = rw e refl

  elapsed-high : (d : ℤ) → leb (seconds d) (of_int (pos 0)) ≡ false → elapsed d ≡ seconds d
  unfolding elapsed
  elapsed-high d e = rw e refl

  elapsed-nonneg : (d : ℤ) → leb (of_int (pos 0)) (elapsed d) ≡ true
  unfolding elapsed
  elapsed-nonneg d = elim (zero_seconds d) [
    | inl low ↦
        let e : leb (seconds d) (of_int (pos 0)) ≡ true =
          rw seconds_0 at (seconds_mono d (pos 0) low) in
        rw e (leb_int 0 0 (omega arith) (omega arith))
    | inr high ↦ elim (Bool-cases (leb (seconds d) (of_int (pos 0)))) [
      | inl e ↦ rw e (leb_int 0 0 (omega arith) (omega arith))
      | inr e ↦ rw e (rw seconds_0 at (seconds_mono (pos 0) d high))
    ]
  ]

  elapsed_mono : (d e : ℤ) → d ≤ℤ e → leb (elapsed d) (elapsed e) ≡ true
  elapsed_mono d e h = elim (Bool-cases (leb (seconds d) (of_int (pos 0)))) [
    | inl now ↦ rw (elapsed-low d now) (elapsed-nonneg e)
    | inr later ↦ elim (Bool-cases (leb (seconds e) (of_int (pos 0)))) [
      | inl now ↦
          let both = leb_trans (seconds d) (seconds e) (of_int (pos 0)) (seconds_mono d e h) now in
          cc
      | inr both ↦ rw (elapsed-high d later, elapsed-high e both) (seconds_mono d e h)
    ]
  ]

  penalty-nonneg : (d : ℤ) → leb (of_int (pos 0)) (div (elapsed d) (of_int (pos 20))) ≡ true
  penalty-nonneg d = rw div_0 at (div_mono (of_int (pos 0)) (elapsed d) (elapsed-nonneg d))

  -- The capped penalty of a number that is at least 0.
  capped-cases :
      (p : F)
      → leb (of_int (pos 0)) p ≡ true
      → ((capped p ≡ of_int (pos 1)) × (leb p (of_int (pos 1)) ≡ false))
        ⊎ ((capped p ≡ p) × (leb p (of_int (pos 1)) ≡ true))
  unfolding capped
  capped-cases p h = elim (Bool-cases (leb p (of_int (pos 1)))) [
    | inl e ↦ inr (rw (lt_leb p h, e) refl, e)
    | inr e ↦ inl (rw (lt_leb p h, e) refl, e)
  ]

  capped-range :
      (p : F)
      → leb (of_int (pos 0)) p ≡ true
      → (leb (of_int (pos 0)) (capped p) ≡ true) × (leb (capped p) (of_int (pos 1)) ≡ true)
  capped-range p h = elim (capped-cases p h) [
    | inl (e, high) ↦
        rw e (leb_int 0 1 (omega arith) (omega arith), leb_int 1 1 (omega arith) (omega arith))
    | inr (e, low) ↦ rw e (h, low)
  ]

  capped_mono :
      (p q : F) → leb (of_int (pos 0)) p ≡ true → leb p q ≡ true → leb (capped p) (capped q) ≡ true
  capped_mono p q h le = elim (capped-cases q (leb_trans (of_int (pos 0)) p q h le)) [
    | inl (e, high) ↦ rw e (capped-range p h).1
    | inr (e, low) ↦ elim (capped-cases p h) [
      | inr (f, same) ↦ rw (e, f) le
      | inl (f, high) ↦ let both = leb_trans p q (of_int (pos 1)) le low in cc
    ]
  ]

  raw-range :
      (d : ℤ) → (leb (of_int (pos 0)) (raw d) ≡ true) × (leb (raw d) (of_int (pos 1000)) ≡ true)
  unfolding raw
  raw-range d =
      let c = capped (div (elapsed d) (of_int (pos 20))) in
      let (low, high) = capped-range (div (elapsed d) (of_int (pos 20))) (penalty-nonneg d) in
      (
        rw mul_0 at (
            mul_mono (of_int (pos 0)) (sub (of_int (pos 1)) c)
              (rw sub_1 at (sub_anti c (of_int (pos 1)) high))),
        rw mul_1 at (
            mul_mono (sub (of_int (pos 1)) c) (of_int (pos 1))
              (rw sub_0 at (sub_anti (of_int (pos 0)) c low))),
      )

  raw-anti : (d e : ℤ) → d ≤ℤ e → leb (raw e) (raw d) ≡ true
  unfolding raw
  raw-anti d e h =
      mul_mono _ _
        (sub_anti _ _ (capped_mono _ _ (penalty-nonneg d) (div_mono _ _ (elapsed_mono d e h))))

  points_after-anti : (d e : ℤ) → d ≤ℤ e → points_after float e ≤ℤ points_after float d
  points_after-anti d e h =
      rw (points_after-clamp d, points_after-clamp e)
        (clamp_mono (to_int (raw e)) (to_int (raw d))
          (to_int_mono (raw e) (raw d) (raw-range e).0 (raw-range d).1 (raw-anti d e h)))

  capped-small : (n : ℕ) → n ≤ 1 → capped (of_int (pos n)) ≡ of_int (pos n)
  unfolding capped
  capped-small n h =
      elim (capped-cases (of_int (pos n))
        (leb_int 0 n (omega arith) (omega arith) ∙ ground arith)) [
          | inl (e, high) ↦
              let low : leb (of_int (pos n)) (of_int (pos 1)) ≡ true =
                leb_int n 1 (omega arith) (omega arith) ∙ ground arith in
              cc
          | inr (e, low) ↦ e
        ]

  points_after-0 : points_after float (pos 0) ≡ pos 1000
  unfolding raw clamp
  points_after-0 =
      let now : leb (seconds (pos 0)) (of_int (pos 0)) ≡ true =
        rw seconds_0 (leb_int 0 0 (omega arith) (omega arith)) in
      points_after-clamp (pos 0)
      ∙ (rw (elapsed-low (pos 0) now, raw)
          (rw div_0 (
            rw (capped-small 0 (omega arith))
              (rw sub_0 (rw mul_1 (rw (to_int_of_int 1000 (omega arith)) refl))))))

  points_after-20 : points_after float (pos 20000000000) ≡ pos 0
  unfolding raw clamp
  points_after-20 =
      let later : leb (seconds (pos 20000000000)) (of_int (pos 0)) ≡ false =
        rw seconds_20 (leb_int 20 0 (omega arith) (omega arith)) in
      points_after-clamp (pos 20000000000)
      ∙ (rw (elapsed-high (pos 20000000000) later, raw)
          (rw seconds_20 (
            rw div_20 (
              rw (capped-small 1 (omega arith))
                (rw sub_1 (rw mul_0 (rw (to_int_of_int 0 (omega arith)) refl)))))))

  -- Of two correct answers to a question the earlier one gets at least as many points.
  pub user_point-anti :
      (best : ℤ) (u v : Answer)
      → u.correct ≡ true
      → v.correct ≡ true
      → u.timestamp ≤ℤ v.timestamp
      → (user_point float best v).score ≤ℤ (user_point float best u).score
  unfolding user_point
  user_point-anti best u v cu cv h =
      rw (cu, cv)
        (points_after-anti (time_sub u.timestamp best) (time_sub v.timestamp best)
          (time_sub_mono u.timestamp v.timestamp best h))

  -- The first answer of a question, if it is correct, gets all 1000 points, and one that comes 20
  -- seconds or more after the first gets none.
  pub user_point-ends :
      (best : ℤ) (u v : Answer)
      → u.correct ≡ true
      → u.timestamp ≡ best
      → best +ℤ pos 20000000000 ≤ℤ v.timestamp
      → ((user_point float best u).score ≡ pos 1000) × ((user_point float best v).score ≡ pos 0)
  unfolding user_point
  user_point-ends best u v cu tu late = (
    rw (cu, tu, time_sub_self best) points_after-0,
    elim (Bool-cases v.correct) [
      | inr wrong ↦ rw wrong refl
      | inl right ↦ rw right (
          pos_0-antisym (points_after float (time_sub v.timestamp best))
            (points_after-bounds float (time_sub v.timestamp best)).0
            (rw points_after-20 at (
              points_after-anti (pos 20000000000) (time_sub v.timestamp best)
                (time_sub-late v.timestamp best late))))
    ],
  )

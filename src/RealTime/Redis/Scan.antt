-- ===== src/RealTime/Redis/Scan.antt =====
-- The loop over the cursor of SCAN in backend-go/real_time/cache/redis/redis.go: it ends, and it does
-- what its body does on all keys at once.
use try_it.Prelude.{ℕ, zero, suc, ◌≤◌, String, ◌≡◌, refl, sym, ap, ◌∙◌, inl, inr, List, ◌++◌, arith}
use try_it.Shared.Errors.{Result, Result-cases}
use try_it.RealTime.Redis.{RedisCommands, scan_loop, then_result}
use try_it.RealTime.Redis.Laws.{Pages, last, more}

module _ {R : Type 0} (redis : RedisCommands R) (r : R) (pattern : String) where
  -- Where the pages of an iteration end within the fuel, and the body treats two pages one after the
  -- other as it treats the two as one page, the loop gives what the body gives on all keys, whatever
  -- the fuel and the size of the pages.
  pub scan_loop_lem :
      {S : Type 0} (round : S → List String → Result S)
      → ((s : S) (xs ys : List String)
          → round s (xs ++ ys) ≡ then_result (round s xs) (λ s'. round s' ys))
      → (cursor n fuel : ℕ) (keys : List String) (s : S) → Pages redis r pattern cursor keys n
      → n ≤ fuel
      → scan_loop redis round r pattern fuel cursor s ≡ round s keys
  unfolding scan_loop
  scan_loop_lem round split _ _ zero _ s (last c keys e) h = absurd (omega arith)
  scan_loop_lem round split _ _ zero _ s (more c next keys rest n e p) h = absurd (omega arith)
  scan_loop_lem {S} round split _ _ (suc fuel) _ s (last c keys e) h =
      rw (e, scan_loop)
        (elim (Result-cases (round s keys)) [ inl (s', g) ↦ rw g refl | inr (text, g) ↦ rw g refl ])
  scan_loop_lem {S} round split _ _ (suc fuel) _ s (more c next keys rest n e p) h =
      rw (e, scan_loop)
        (elim (Result-cases (round s keys)) [
          | inl (s', g) ↦
              rw (g, scan_loop)
                (scan_loop_lem round split (suc next) n fuel rest s' p (omega arith)
                  ∙ sym (
                      split s keys rest
                      ∙ ap (λ (x : Result S). then_result x (λ s''. round s'' rest)) g))
          | inr (text, g) ↦
              rw (g, scan_loop)
                (sym (
                  split s keys rest
                  ∙ ap (λ (x : Result S). then_result x (λ s''. round s'' rest)) g))
        ])

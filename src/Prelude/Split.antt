-- ===== src/Prelude/Split.antt =====
-- Texts cut at a separator: `strings.Split` at a character, `strings.Replace` of the first one, and
-- the texts that do not have a character.
use Prim.Native.Nat.{ℕ}
use Prim.Native.Char.{Char, code}
use Prim.Native.String.{String}
use mathlib.Core.Path.{◌≡◌, refl, ap, ◌∙◌}
use mathlib.Core.Logic.{inl, inr}
use mathlib.Core.Bool.{Bool, true, false, ◌&&◌, not}
use mathlib.Core.List.{List, [], ◌∷◌}
use native.Mathlib.Omega.{arith}
use text.Mathlib.TextLemmas.{nil-append, cons-append, append_assoc}
use try_it.Prelude.Tests.{nat_eq, if◌then◌else◌, Bool-cases}
use try_it.Prelude.Text.{join}

-- No character of the text passes the test.
unfoldable pub lacks : (ℕ → Bool) → String → Bool
lacks p String.[] = true
lacks p (String.◌∷◌ c s) = not (p (code c)) && lacks p s

abbrev put_front : Char → List String → List String
put_front c [] = String.◌∷◌ c String.[] ∷ []
put_front c (w ∷ ws) = String.◌∷◌ c w ∷ ws

-- `strings.Split(s, sep)` for a separator of one character, given by its code.
unfoldable pub split : ℕ → String → List String
split sep String.[] = "" ∷ []
split sep (String.◌∷◌ c s) =
    let rest = split sep s in if nat_eq (code c) sep then "" ∷ rest else put_front c rest

-- `strings.Replace(s, old, new, 1)` for an old text of one character.
unfoldable pub replace_first : ℕ → String → String → String
replace_first old s String.[] = ""
replace_first old s (String.◌∷◌ c t) =
    let rest = replace_first old s t in if nat_eq (code c) old then join s t else String.◌∷◌ c rest

lacks_head :
    (p : ℕ → Bool) (c : Char) (s : String) → lacks p (String.◌∷◌ c s) ≡ true → p (code c) ≡ false
unfolding lacks
lacks_head p c s h = elim (Bool-cases (p (code c))) [
  | inl e ↦ absurd (ground (arith, h, e))
  | inr e ↦ e
]

lacks_tail :
    (p : ℕ → Bool) (c : Char) (s : String) → lacks p (String.◌∷◌ c s) ≡ true → lacks p s ≡ true
unfolding lacks
lacks_tail p c s h = let e = lacks_head p c s h in rw e at h

-- A text that lacks more characters.
pub lacks_mono :
    (p q : ℕ → Bool) (s : String)
    → ((n : ℕ) → p n ≡ false → q n ≡ false)
    → lacks p s ≡ true
    → lacks q s ≡ true
unfolding lacks
lacks_mono p q String.[] f h = refl
lacks_mono p q (String.◌∷◌ c s) f h =
    rw (f (code c) (lacks_head p c s h)) (lacks_mono p q s f (lacks_tail p c s h))

pub lacks-join :
    (p : ℕ → Bool) (s t : String) → lacks p s ≡ true → lacks p t ≡ true → lacks p (join s t) ≡ true
unfolding lacks
lacks-join p String.[] t hs ht = rw (nil-append t) ht
lacks-join p (String.◌∷◌ c s) t hs ht =
    rw (cons-append c s t) (rw (lacks_head p c s hs) (lacks-join p s t (lacks_tail p c s hs) ht))

abbrev pub is_char : Char → ℕ → Bool
is_char c n = nat_eq n (code c)

module _ (c : Char) where
  -- A text without the separator is its own only part.
  pub split_all : (s : String) → lacks (is_char c) s ≡ true → split (code c) s ≡ s ∷ []
  unfolding split
  split_all String.[] h = refl
  split_all (String.◌∷◌ d s) h =
      rw (lacks_head (is_char c) d s h)
        (ap (put_front d) (split_all s (lacks_tail (is_char c) d s h)))

  -- What is before the first separator is the first part.
  pub split_cons :
      (s t : String)
      → lacks (is_char c) s ≡ true
      → split (code c) (join s (String.◌∷◌ c t)) ≡ s ∷ split (code c) t
  unfolding split
  split_cons String.[] t h = rw (nil-append (String.◌∷◌ c t)) (ground (arith))
  split_cons (String.◌∷◌ d s) t h = rw (cons-append d s (String.◌∷◌ c t)) (
      rw (lacks_head (is_char c) d s h)
        (ap (put_front d) (split_cons s t (lacks_tail (is_char c) d s h))))

  -- The same for a text that ends in the separator.
  pub split_ends :
      (s t : String)
      → lacks (is_char c) s ≡ true
      → split (code c) (join (join s (String.◌∷◌ c "")) t) ≡ s ∷ split (code c) t
  split_ends s t h =
      ap (split (code c)) (
        append_assoc s (String.◌∷◌ c "") t
        ∙ ap (join s) (cons-append c "" t ∙ ap (String.◌∷◌ c) (nil-append t)))
      ∙ split_cons s t h

  pub replace_first_lem :
      (r s t : String)
      → lacks (is_char c) s ≡ true
      → replace_first (code c) r (join s (String.◌∷◌ c t)) ≡ join s (join r t)
  unfolding replace_first
  replace_first_lem r String.[] t h =
      rw (nil-append (String.◌∷◌ c t)) (rw (nil-append (join r t)) (ground arith))
  replace_first_lem r (String.◌∷◌ d s) t h = rw (cons-append d s (String.◌∷◌ c t)) (
      rw (lacks_head (is_char c) d s h) (
        rw (cons-append d s (join r t))
          (ap (String.◌∷◌ d) (replace_first_lem r s t (lacks_tail (is_char c) d s h)))))

-- ===== src/Session/Generator.antt =====
-- backend-go/SessionService/utils: the code of a new session. `intn i n` is what draw `i` of
-- `rand.Intn(n)` gives.
use Prim.Native.Char.{Char, code}
use Prim.Native.String
use text.Mathlib.TextLemmas.{length-nil, length-cons}
use try_it.Prelude.{
  ℕ, zero, suc, ◌<◌, ◌≡◌, refl, ap, ◌∙◌, String, Bool, true, not, ◌&&◌, ◌||◌, Option, none, some,
  Run, done, panics, or_panic, ◌>>=◌, Returns, Returns-bind, arith, leb,
}
use try_it.Prelude.Int.{ℤ, pos, negsuc}
use try_it.Prelude.Split.{lacks, lacks_mono}
use try_it.Shared.Name.{is_glob, is_special, IsName}

abbrev pub code_chars : String
code_chars = "ABCDEFGHIJKLMNOPQRSTUVWXYZ0123456789"

-- `codeChars[i]`
abbrev pub char_at : String → ℕ → Option Char
char_at String.[] i = none
char_at (String.◌∷◌ c s) zero = some c
char_at (String.◌∷◌ c s) (suc i) = char_at s i

-- The loop over `b`, with `left` places from index `i` on.
unfoldable pub fill : (ℕ → ℕ → ℕ) → ℕ → ℕ → Run String
fill intn zero i = done ""
fill intn (suc left) i = do
  c ← or_panic (char_at code_chars (intn i (Prim.Native.String.len code_chars)))
  rest ← fill intn left (suc i)
  done (String.◌∷◌ c rest)

-- `make` panics for a negative length.
unfoldable pub generate_session_code : (ℕ → ℕ → ℕ) → ℤ → Run String
unfolding fill
generate_session_code intn (pos n) = fill intn n 0
generate_session_code intn (negsuc n) = panics

-- A character of a code: an upper-case letter or a digit.
abbrev pub is_code_char : ℕ → Bool
is_code_char n = (leb b'A' n && leb n b'Z') || (leb b'0' n && leb n b'9')

-- What is known of a code of length `n`.
abbrev pub IsCode : ℕ → String → Type 0
IsCode n s = (Prim.Native.String.count s ≡ n) × (lacks (λ k. not (is_code_char k)) s ≡ true)

-- Every index below the length reads a character that passes what all do.
char_at-lt :
    (p : ℕ → Bool) (s : String) (i : ℕ)
    → lacks (λ k. not (p k)) s ≡ true
    → i < Prim.Native.String.count s
    → Returns (or_panic (char_at s i)) (λ c. p (code c) ≡ true)
unfolding lacks
char_at-lt p String.[] i h l = absurd (omega arith)
char_at-lt p (String.◌∷◌ c s) zero h l = ground (arith, h)
char_at-lt p (String.◌∷◌ c s) (suc i) h l =
    char_at-lt p s i (ground (arith, h)) (omega (arith, length-cons c s))

fill-IsCode :
    (intn : ℕ → ℕ → ℕ)
    → ((i n : ℕ) → 0 < n → intn i n < n)
    → (n i : ℕ) → Returns (fill intn n i) (IsCode n)
unfolding fill lacks
fill-IsCode intn h zero i = (length-nil, refl)
fill-IsCode intn h (suc n) i =
    Returns-bind (or_panic (char_at code_chars (intn i 36)))
      (λ c. do rest ← fill intn n (suc i); done (String.◌∷◌ c rest))
      (λ c. is_code_char (code c) ≡ true) (IsCode (suc n))
      (char_at-lt is_code_char code_chars (intn i 36) refl (h i 36 (omega arith)))
      (λ c hc.
        Returns-bind (fill intn n (suc i)) (λ rest. done (String.◌∷◌ c rest)) (IsCode n)
          (IsCode (suc n)) (fill-IsCode intn h n (suc i))
          (λ rest hr. (length-cons c rest ∙ ap suc hr.0, rw hc hr.1)))

-- Where `rand.Intn(n)` gives a number below `n`, a code of any length that is not negative is made,
-- without a panic: it has that many characters, each an upper-case letter or a digit.
pub generate_session_code_lem :
    (intn : ℕ → ℕ → ℕ)
    → ((i n : ℕ) → 0 < n → intn i n < n)
    → (n : ℕ) → Returns (generate_session_code intn (pos n)) (IsCode n)
unfolding generate_session_code
generate_session_code_lem intn h n = fill-IsCode intn h n 0

-- A code is one word of a routing key and one part of a key of the store.
pub IsCode-IsName : (n : ℕ) (s : String) → IsCode n s → IsName s
unfolding is_special is_glob
IsCode-IsName n s h =
    lacks_mono (λ k. not (is_code_char k)) is_special s (λ k e. ground (arith, e)) h.1

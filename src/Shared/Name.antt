-- ===== src/Shared/Name.antt =====
-- Names: the texts that are one word of a routing key and one part of a key of the store, and that
-- a pattern of the store reads as they are.
use try_it.Prelude.{ℕ, ◌≡◌, String, Bool, true, ◌||◌, nat_eq, arith}
use try_it.Prelude.Split.{lacks, lacks_mono, is_char}

-- The characters that patterns of the store read in a way of their own.
unfoldable pub is_glob : ℕ → Bool
is_glob n = nat_eq n b'*' || nat_eq n b'?' || nat_eq n b'[' || nat_eq n b'\\'

-- The wildcards of a binding key of the broker.
unfoldable pub is_wild : ℕ → Bool
is_wild n = nat_eq n b'*' || nat_eq n b'#'

-- Those, the separators of the two kinds of keys, and the other wildcard of a binding key.
unfoldable pub is_special : ℕ → Bool
unfolding is_glob
is_special n = nat_eq n b'.' || nat_eq n b':' || nat_eq n b'#' || is_glob n

abbrev pub IsName : String → Type 0
IsName s = lacks is_special s ≡ true

abbrev pub IsPlain : String → Type 0
IsPlain s = lacks is_glob s ≡ true

pub IsName-no_colon : (s : String) → IsName s → lacks (is_char ":") s ≡ true
unfolding is_special
IsName-no_colon s h = lacks_mono is_special (is_char ":") s (λ n e. ground (arith, e)) h

pub IsName-no_dot : (s : String) → IsName s → lacks (is_char ".") s ≡ true
unfolding is_special
IsName-no_dot s h = lacks_mono is_special (is_char ".") s (λ n e. ground (arith, e)) h

pub IsName-IsPlain : (s : String) → IsName s → IsPlain s
unfolding is_special
IsName-IsPlain s h = lacks_mono is_special is_glob s (λ n e. ground (arith, e)) h

pub IsName-no_wild : (s : String) → IsName s → lacks is_wild s ≡ true
unfolding is_special is_glob is_wild
IsName-no_wild s h = lacks_mono is_special is_wild s (λ n e. ground (arith, e)) h

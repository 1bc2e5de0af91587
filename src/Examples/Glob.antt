-- ===== src/Examples/Glob.antt =====
-- Patterns with one star, for the server of the examples.
use Prim.Native.Char.{Char, code}
use text.Mathlib.TextEquality.{Char-path}
use text.Mathlib.TextLemmas.{nil-append, cons-append}
use try_it.Prelude.{
  ◌≡◌, ◌≢◌, ◌↔◌, refl, sym, ap, ◌∙◌, inl, inr, String, Bool, true, false, ◌||◌, Option, none, some,
  List, [], ◌∷◌, arith, ◌==◌, eq_iff, eq_refl, if◌then◌else◌, nat_eq, Bool-cases, Option-cases,
}
use try_it.Prelude.Dict
use try_it.Prelude.Dict.{Dict, get-put, get-remove}
use try_it.Prelude.Text.{join, is_in}
use try_it.Prelude.Split.{lacks, split, is_char, split_cons, split_all, lacks_mono}
use try_it.Shared.Name.{is_glob, IsPlain}
use try_it.RealTime.Redis.Laws.{Entry}

-- What stands behind a prefix.
strip : String → String → Option String
strip String.[] s = some s
strip (String.◌∷◌ c p) String.[] = none
strip (String.◌∷◌ c p) (String.◌∷◌ d s) =
    let rest = strip p s in if nat_eq (code c) (code d) then rest else none

strip-join : (p t : String) → strip p (join p t) ≡ some t
unfolding strip
strip-join String.[] t = ap some (nil-append t)
strip-join (String.◌∷◌ c p) t = rw (cons-append c p t) (ground (arith, strip-join p t))

same_char : (c d : Char) → nat_eq (code c) (code d) ≡ true → c ≡ d
same_char c d h = Char-path c d (ground (arith, h))

strip_lem : (p s t : String) → strip p s ≡ some t → s ≡ join p t
unfolding strip
strip_lem String.[] s t h = let e : s ≡ t = cc h in e ∙ sym (nil-append t)
strip_lem (String.◌∷◌ c p) String.[] t h = absurd (cc h)
strip_lem (String.◌∷◌ c p) (String.◌∷◌ d s) t h = elim (Bool-cases (nat_eq (code c) (code d))) [
  | inl e ↦
      ap (λ (x : Char). String.◌∷◌ x s) (sym (same_char c d e))
      ∙ ap (String.◌∷◌ c) (strip_lem p s t (rw e at h))
      ∙ sym (cons-append c p t)
  | inr e ↦ let h' : none ≡ some t = (rw e at h) in cc h'
]

-- The text ends in the suffix.
ends : String → String → Bool
ends q String.[] = q == ""
ends q (String.◌∷◌ c s) = q == String.◌∷◌ c s || ends q s

ends_self : (q : String) → ends q q ≡ true
unfolding ends
ends_self String.[] = eq_refl ""
ends_self (String.◌∷◌ c s) = rw (eq_refl (String.◌∷◌ c s)) refl

ends-join : (m q : String) → ends q (join m q) ≡ true
unfolding ends
ends-join String.[] q = rw (nil-append q) (ends_self q)
ends-join (String.◌∷◌ c m) q = rw (cons-append c m q) (ground (arith, ends-join m q))

ends_lem : (q s : String) → ends q s ≡ true → (m : String) × (s ≡ join m q)
unfolding ends
ends_lem q String.[] h = ("", sym (nil-append q ∙ (eq_iff q "").0 h))
ends_lem q (String.◌∷◌ c s) h = elim (Bool-cases (q == String.◌∷◌ c s)) [
  | inl e ↦ ("", sym (nil-append q ∙ (eq_iff q (String.◌∷◌ c s)).0 e))
  | inr e ↦
      let (m, r) = ends_lem q s (rw e at h) in
      (String.◌∷◌ c m, ap (String.◌∷◌ c) r ∙ sym (cons-append c m q))
]

-- The text has the pattern.
pub fits : List String → String → Bool
fits (pre ∷ suf ∷ []) k = elim (strip pre k) [ none ↦ false | some rest ↦ ends suf rest ]
fits pieces k = false

pub fits_iff :
    (pre suf k : String)
    → (fits (pre ∷ suf ∷ []) k ≡ true) ↔ ((m : String) × (k ≡ join pre (join m suf)))
unfolding fits
fits_iff pre suf k = (
  λ h. elim (Option-cases (strip pre k)) [
    | inl e ↦ absurd (ground (arith, h, e))
    | inr (rest, e) ↦
        let (m, r) = ends_lem suf rest (rw (e, fits) at h) in
        (m, strip_lem pre k rest e ∙ ap (join pre) r)
  ],
  λ (m, e). rw (e, strip-join pre (join m suf), fits) (ends-join m suf),
)

pub pieces :
    (pre suf : String)
    → IsPlain pre
    → IsPlain suf
    → split b'*' (join pre (join "*" suf)) ≡ pre ∷ suf ∷ []
unfolding is_glob
pieces pre suf h g =
    ap (λ (t : String). split b'*' (join pre t))
      (cons-append "*" "" suf ∙ ap (String.◌∷◌ "*") (nil-append suf))
    ∙ split_cons "*" pre suf (no_star pre h)
    ∙ ap (◌∷◌ pre) (split_all "*" suf (no_star suf g))
  where
    no_star : (s : String) → IsPlain s → lacks (is_char "*") s ≡ true
    no_star s p = lacks_mono is_glob (is_char "*") s (λ n e. ground (arith, e)) p

abbrev pub Memory : Type 0
Memory = Dict Entry

-- The keys that have a pattern, in their order.
pub matching : List String → Memory → List String
matching pat [] = []
matching pat ((k, e) ∷ r) = let rest = matching pat r in if fits pat k then k ∷ rest else rest

some_not_none : (v : Entry) → ◌≢◌ {A = Option Entry} (some v) none
some_not_none v e = cc e

pub matching_iff :
    (pat : List String) (r : Memory) (k : String)
    → (is_in k (matching pat r) ≡ true) ↔ ((Dict.get r k ≢ none) × (fits pat k ≡ true))
unfolding matching is_in Dict.get
matching_iff pat [] k = (λ h. absurd (ground (arith, h)), λ h. absurd (h.0 refl))
matching_iff pat ((j, e) ∷ r) k = elim (Bool-cases (j == k)) [
  | inl same ↦
      let back : (k == j) ≡ true = (eq_iff k j).1 (sym ((eq_iff j k).0 same)) in
      let fit : fits pat j ≡ fits pat k = ap (fits pat) ((eq_iff j k).0 same) in
      rw (same, fit)
        (elim (Bool-cases (fits pat k)) [
          | inl f ↦ rw (f, back) ((λ h. ((λ g. some_not_none e g), refl)), λ h. refl)
          | inr f ↦ (
            (λ h.
                let h' : is_in k (matching pat r) ≡ true = (rw f at h) in
                absurd (ground (arith, f, ((matching_iff pat r k).0 h').1))),
            λ h. absurd (ground (arith, f, h.1)),
          )
        ])
  | inr other ↦
      let back : (k == j) ≡ false = ground (arith, eq_iff k j, eq_iff j k, other) in
      rw other (elim (Bool-cases (fits pat j)) [
        | inl f ↦ rw (f, back) (matching_iff pat r k)
        | inr f ↦ rw f (matching_iff pat r k)
      ])
]

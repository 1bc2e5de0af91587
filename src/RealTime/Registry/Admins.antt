-- ===== src/RealTime/Registry/Admins.antt =====
-- The loop of `BroadcastToSession` that takes the admin out of the receivers.
use mathlib.Core.List.{append_assoc, append-nil}
use try_it.Prelude.{
  ℕ, zero, suc, ◌+◌, ◌-◌, ◌≤◌, ◌≡◌, refl, ap, sym, ◌∙◌, true, false, not, List, [], ◌∷◌, ◌++◌,
  arith, All, take, drop, length, get_elem?, length-append, select, count_of, take-length-append,
  drop-suc-length-append, drop-add, length-drop, take-length, get_elem?-length-append, All-append,
  All-drop, some, done, panics, inl, inr, Bool-cases, leb,
}
use try_it.RealTime.Registry.{ConnectionContext, is_admin, without_admins, without_admins_from}

abbrev NoAdmin : List ConnectionContext → Type 0
NoAdmin = All (λ c. is_admin c ≡ false)

-- Where no admin is left to visit, the loop ends with what it has.
from_clean :
    (k i n : ℕ) (front rest : List ConnectionContext)
    → i ≡ length front
    → k ≤ length rest
    → NoAdmin rest
    → without_admins_from k i n (front ++ rest) ≡ done (take n (front ++ rest))
unfolding without_admins_from
from_clean zero i n front rest at h clean = refl
from_clean (suc k) i n front [] at h clean = absurd (omega arith)
from_clean (suc k) i n front (x ∷ rest) at h clean =
    let next =
      from_clean k (i + 1) n (front ++ x ∷ []) rest
        (omega (arith, at, length-append front (x ∷ []))) (omega arith) clean.1 in
    let regroup : (front ++ x ∷ []) ++ rest ≡ front ++ x ∷ rest =
      append_assoc front (x ∷ []) rest in
    let here : get_elem? (front ++ x ∷ rest) i ≡ some x =
      rw at (get_elem?-length-append front x rest) in
    rw (here, without_admins_from) (rw (clean.0) (rw regroup at next))

-- The backing array after the receiver `a` is cut out: the last place is stale.
abbrev cut :
    List ConnectionContext → ConnectionContext → List ConnectionContext → List ConnectionContext
cut front a ys = front ++ (ys ++ drop (length ys) (a ∷ ys))

shifted_lem :
    (i n : ℕ) (front : List ConnectionContext) (a : ConnectionContext) (ys : List ConnectionContext)
    → i ≡ length front
    → n ≡ length (front ++ a ∷ ys)
    → let arr = front ++ a ∷ ys in
      take i arr ++ (drop (i + 1) (take n arr) ++ drop (n - 1) arr) ≡ cut front a ys
shifted_lem i n front a ys at full =
    let whole : take n (front ++ a ∷ ys) ≡ front ++ a ∷ ys =
      rw full (take-length (front ++ a ∷ ys)) in
    let front_part : take i (front ++ a ∷ ys) ≡ front = rw at (take-length-append front (a ∷ ys)) in
    let next : i + 1 ≡ suc (length front) = omega (arith, at) in
    let last : n - 1 ≡ length ys + length front =
      omega (arith, full, length-append front (a ∷ ys)) in
    let tail : drop (length ys + length front) (front ++ a ∷ ys) ≡ drop (length ys) (a ∷ ys) =
      drop-add front (a ∷ ys) (length ys) in
    rw (front_part, whole, next, drop-suc-length-append front a ys, last, tail)

take-cut :
    (front : List ConnectionContext) (a : ConnectionContext) (ys : List ConnectionContext)
    → take (length front + length ys) (cut front a ys) ≡ front ++ ys
take-cut front a ys =
    let tail = drop (length ys) (a ∷ ys) in
    let regroup : cut front a ys ≡ (front ++ ys) ++ tail = sym (append_assoc front ys tail) in
    rw (regroup, ← length-append front ys) (take-length-append (front ++ ys) tail)

-- The rest of the loop after the cut, where no other receiver is an admin.
after_cut :
    (i : ℕ) (front : List ConnectionContext) (a : ConnectionContext) (ys : List ConnectionContext)
    → i ≡ length front
    → NoAdmin ys
    → without_admins_from (length ys) (i + 1) (length front + length ys) (cut front a ys)
      ≡ done (front ++ ys)
unfolding without_admins_from
after_cut i front a [] at clean = ap done (take-cut front a [])
after_cut i front a (y ∷ ys) at clean =
    let rest = ys ++ drop (length (y ∷ ys)) (a ∷ y ∷ ys) in
    let regroup : (front ++ y ∷ []) ++ rest ≡ cut front a (y ∷ ys) =
      append_assoc front (y ∷ []) rest in
    let stale : NoAdmin (drop (length ys) (y ∷ ys)) = All-drop _ (length ys) (y ∷ ys) clean in
    let quiet =
      from_clean (length (y ∷ ys)) (i + 1) (length front + length (y ∷ ys)) (front ++ y ∷ []) rest
        (omega (arith, at, length-append front (y ∷ [])))
        (omega
          (arith, length-append ys (drop (length ys) (y ∷ ys)), length-drop (length ys) (y ∷ ys)))
        (All-append _ ys _ clean.1 stale) in
    (rw regroup at quiet) ∙ ap done (take-cut front a (y ∷ ys))

-- From the first admin on.
from_admin :
    (i : ℕ) (front : List ConnectionContext) (a : ConnectionContext) (ys : List ConnectionContext)
    → i ≡ length front
    → is_admin a ≡ true
    → NoAdmin ys
    → without_admins_from (length (a ∷ ys)) i (length (front ++ a ∷ ys)) (front ++ a ∷ ys)
      ≡ done (front ++ ys)
unfolding without_admins_from
from_admin i front a ys at admin clean =
    let here : get_elem? (front ++ a ∷ ys) i ≡ some a =
      rw at (get_elem?-length-append front a ys) in
    let total : length (front ++ a ∷ ys) ≡ suc (length front + length ys) =
      omega (arith, length-append front (a ∷ ys)) in
    let fits : leb (i + 1) (length (front ++ a ∷ ys)) ≡ true = rw total (ground arith) in
    let shorter : length (front ++ a ∷ ys) - 1 ≡ length front + length ys = omega (arith, total) in
    rw (here, without_admins_from)
      (rw (admin, fits, shifted_lem i _ front a ys at refl, shorter)
        (after_cut i front a ys at clean))

-- The loop goes past the receivers `xs` who are no admins.
skip_all :
    (n : ℕ) (front xs rest : List ConnectionContext)
    → NoAdmin xs
    → without_admins_from (length (xs ++ rest)) (length front) n (front ++ (xs ++ rest))
      ≡ without_admins_from (length rest) (length (front ++ xs)) n ((front ++ xs) ++ rest)
unfolding without_admins_from
skip_all n front [] rest h = rw (append-nil front)
skip_all n front (x ∷ xs) rest h =
    let next = skip_all n (front ++ x ∷ []) xs rest h.1 in
    let at : length (front ++ x ∷ []) ≡ length front + 1 =
      omega (arith, length-append front (x ∷ [])) in
    let whole : (front ++ x ∷ []) ++ (xs ++ rest) ≡ front ++ x ∷ (xs ++ rest) =
      append_assoc front (x ∷ []) (xs ++ rest) in
    let moved : (front ++ x ∷ []) ++ xs ≡ front ++ x ∷ xs = append_assoc front (x ∷ []) xs in
    rw (get_elem?-length-append front x (xs ++ rest), without_admins_from)
      (rw (h.0) (rw (at, whole, moved) at next))

-- Receivers of whom none is an admin are kept.
without_admins-none : (cs : List ConnectionContext) → NoAdmin cs → without_admins cs ≡ done cs
unfolding without_admins
without_admins-none cs h =
    from_clean (length cs) 0 (length cs) [] cs refl (omega arith) h ∙ ap done (take-length cs)

-- The admin count of a list splits it at its admin.
count-NoAdmin : (cs : List ConnectionContext) → count_of is_admin cs ≡ 0 → NoAdmin cs
count-NoAdmin [] h = tt
count-NoAdmin (c ∷ cs) h = elim (Bool-cases (is_admin c)) [
  | inl e ↦ absurd (omega (arith, rw e at h))
  | inr e ↦ (e, count-NoAdmin cs (rw e at h))
]

select-NoAdmin : (cs : List ConnectionContext) → NoAdmin cs → select (λ c. not (is_admin c)) cs ≡ cs
select-NoAdmin [] h = refl
select-NoAdmin (c ∷ cs) h = rw (h.0) (ap (◌∷◌ c) (select-NoAdmin cs h.1))

-- A list with at most one admin has none, or one between two parts without.
data OneAdmin (cs : List ConnectionContext) : Type 0 where
  nobody : NoAdmin cs → OneAdmin cs
  single :
      (xs : List ConnectionContext) (a : ConnectionContext) (ys : List ConnectionContext)
      → cs ≡ xs ++ a ∷ ys
      → NoAdmin xs
      → is_admin a ≡ true
      → NoAdmin ys
      → OneAdmin cs

OneAdmin-cons :
    (c : ConnectionContext) (cs : List ConnectionContext)
    → is_admin c ≡ false
    → OneAdmin cs
    → OneAdmin (c ∷ cs)
OneAdmin-cons c cs e (nobody h) = nobody (e, h)
OneAdmin-cons c cs e (single xs a ys p hx ha hy) = single (c ∷ xs) a ys (ap (◌∷◌ c) p) (e, hx) ha hy

OneAdmin-of_count : (cs : List ConnectionContext) → count_of is_admin cs ≤ 1 → OneAdmin cs
OneAdmin-of_count [] h = nobody tt
OneAdmin-of_count (c ∷ cs) h = elim (Bool-cases (is_admin c)) [
  | inl e ↦ single [] c cs refl tt e (count-NoAdmin cs (omega (arith, rw e at h)))
  | inr e ↦ OneAdmin-cons c cs e (OneAdmin-of_count cs (rw e at h))
]

abbrev others : List ConnectionContext → List ConnectionContext
others = select (λ c. not (is_admin c))

others-single :
    (xs : List ConnectionContext) (a : ConnectionContext) (ys : List ConnectionContext)
    → NoAdmin xs
    → is_admin a ≡ true
    → NoAdmin ys
    → others (xs ++ a ∷ ys) ≡ xs ++ ys
others-single [] a ys hx ha hy = rw ha (select-NoAdmin ys hy)
others-single (x ∷ xs) a ys hx ha hy = rw (hx.0) (ap (◌∷◌ x) (others-single xs a ys hx.1 ha hy))

without_admins-OneAdmin :
    (cs : List ConnectionContext) → OneAdmin cs → without_admins cs ≡ done (others cs)
without_admins-OneAdmin cs (nobody h) =
    without_admins-none cs h ∙ ap done (sym (select-NoAdmin cs h))
without_admins-OneAdmin cs (single xs a ys p hx ha hy) =
    rw (p, others-single xs a ys hx ha hy)
      (unfold without_admins in
        skip_all (length (xs ++ a ∷ ys)) [] xs (a ∷ ys) hx
        ∙ from_admin (length xs) xs a ys refl ha hy)

-- The receivers of a session with at most one admin connection: the loop returns those who are not
-- admins, in their order.
pub without_admins_lem :
    (cs : List ConnectionContext)
    → count_of is_admin cs ≤ 1
    → without_admins cs ≡ done (select (λ c. not (is_admin c)) cs)
without_admins_lem cs h = without_admins-OneAdmin cs (OneAdmin-of_count cs h)

two_left :
    (xs : List ConnectionContext) (a b : ConnectionContext)
    → is_admin a ≡ true
    → is_admin b ≡ true
    → without_admins_from 2 (length xs) (length (xs ++ a ∷ b ∷ [])) (xs ++ a ∷ b ∷ []) ≡ panics
unfolding without_admins_from
two_left xs a b ha hb =
    let total : length (xs ++ a ∷ b ∷ []) ≡ length xs + 2 = length-append xs (a ∷ b ∷ []) in
    let fits : leb (length xs + 1) (length (xs ++ a ∷ b ∷ [])) ≡ true = rw total (ground arith) in
    let past : leb (length xs + 1 + 1) (length (xs ++ a ∷ b ∷ []) - 1) ≡ false =
      rw total (ground arith) in
    let at : length (xs ++ b ∷ []) ≡ length xs + 1 = length-append xs (b ∷ []) in
    let stale : get_elem? (xs ++ b ∷ b ∷ []) (length xs + 1) ≡ some b =
      rw (append_assoc xs (b ∷ []) (b ∷ []), at) at (get_elem?-length-append (xs ++ b ∷ []) b []) in
    rw (get_elem?-length-append xs a (b ∷ []), without_admins_from)
      (rw (ha, fits, shifted_lem (length xs) _ xs a (b ∷ []) refl refl, stale) (rw (hb, past)))

-- The two last receivers are admins: the loop reads the second one again in the stale last place of
-- the array and panics, since the slice behind it begins past the end.
pub without_admins_two_last :
    (xs : List ConnectionContext) (a b : ConnectionContext)
    → NoAdmin xs
    → is_admin a ≡ true
    → is_admin b ≡ true
    → without_admins (xs ++ a ∷ b ∷ []) ≡ panics
without_admins_two_last xs a b h ha hb =
    unfold without_admins in
    skip_all (length (xs ++ a ∷ b ∷ [])) [] xs (a ∷ b ∷ []) h ∙ two_left xs a b ha hb

-- ===== src/RealTime/Redis/Keys.antt =====
-- The keys of backend-go/real_time/cache/redis/redis.go: different sessions have different keys, a key
-- of a quiz is no key of answers, and the parts of a key give back the ids that it was made of.
use Prim.Native.String
use text.Mathlib.TextLemmas.{
  append_assoc, append_cancel_left, append_cancel_right, append_inj, length-append, cons-append,
}
use try_it.Prelude.{◌≡◌, refl, sym, ap, ◌∙◌, ◌≢◌, String, [], ◌∷◌, arith, ◌==◌, eq_iff}
use try_it.Prelude.Text.{join}
use try_it.Prelude.Split.{split, lacks, lacks-join, split_cons, split_ends}
use try_it.Shared.Name.{is_glob, IsName, IsPlain, IsName-no_colon, IsName-IsPlain}
use try_it.RealTime.Redis.{quiz_key, answers_key, answers_pattern}

pub quiz_key_inj : (a b : String) → quiz_key a ≡ quiz_key b → a ≡ b
quiz_key_inj a b e = append_cancel_right a b _ (append_cancel_left _ _ _ e)

pub quiz_key-eq : (a b : String) → (quiz_key a == quiz_key b) ≡ (a == b)
quiz_key-eq a b = ground (
  arith,
  eq_iff a b,
  eq_iff (quiz_key a) (quiz_key b),
  quiz_key_inj a b,
  ap quiz_key {x = a} {y = b},
)

-- The last characters of two texts that are equal.
last_part :
    (s t c d : String)
    → join s c ≡ join t d
    → Prim.Native.String.count c ≡ Prim.Native.String.count d
    → c ≡ d
last_part s t c d e n =
    (append_inj {s₁ = s} {s₂ = t} {t₁ = c} {t₂ = d} e
      (omega (arith, n, length-append s c, length-append t d, ap Prim.Native.String.count e))).1

-- The two kinds of keys, cut before their last character.
quiz_key-last : (sid : String) → quiz_key sid ≡ join (join "session:" (join sid ":quiz_stat")) "e"
quiz_key-last sid = sym (
    append_assoc "session:" (join sid ":quiz_stat") "e"
    ∙ ap (join "session:") (append_assoc sid ":quiz_stat" "e"))

-- The prefix of the keys of the answers in a session.
abbrev pub answers_prefix : String → String
answers_prefix sid = join "session:" (join sid ":user:")

pub answers_key-prefix :
    (sid uid : String) → answers_key sid uid ≡ join (answers_prefix sid) (join uid ":answers")
answers_key-prefix sid uid = sym (
    append_assoc "session:" (join sid ":user:") (join uid ":answers")
    ∙ ap (join "session:") (append_assoc sid ":user:" (join uid ":answers")))

pub answers_key_inj : (sid a b : String) → answers_key sid a ≡ answers_key sid b → a ≡ b
answers_key_inj sid a b e =
    append_cancel_right a b _
      (append_cancel_left _ _ _ (sym (answers_key-prefix sid a) ∙ e ∙ answers_key-prefix sid b))

pub answers_pattern-prefix :
    (sid : String) → answers_pattern sid ≡ join (answers_prefix sid) (join "*" ":answers")
answers_pattern-prefix sid = sym (
    append_assoc "session:" (join sid ":user:") "*:answers"
    ∙ ap (join "session:") (append_assoc sid ":user:" "*:answers"))

answers_key-last :
    (sid uid : String)
    → answers_key sid uid ≡ join (join (answers_prefix sid) (join uid ":answer")) "s"
answers_key-last sid uid =
    answers_key-prefix sid uid
    ∙ sym (
        append_assoc (answers_prefix sid) (join uid ":answer") "s"
        ∙ ap (join (answers_prefix sid)) (append_assoc uid ":answer" "s"))

e_not_s : ◌≢◌ {A = String} "e" "s"
e_not_s = ground (arith, eq_iff "e" "s")

pub quiz_key-ne-answers_key : (a sid uid : String) → quiz_key a ≢ answers_key sid uid
quiz_key-ne-answers_key a sid uid e = e_not_s (
    last_part (join "session:" (join a ":quiz_stat"))
      (join (answers_prefix sid) (join uid ":answer")) "e" "s"
      (sym (quiz_key-last a) ∙ e ∙ answers_key-last sid uid) refl)

pub answers_prefix-IsPlain : (sid : String) → IsName sid → IsPlain (answers_prefix sid)
unfolding lacks is_glob
answers_prefix-IsPlain sid h =
    lacks-join is_glob "session:" (join sid ":user:") refl
      (lacks-join is_glob sid ":user:" (IsName-IsPlain sid h) refl)

-- The parts of the key of a quiz.
pub split-quiz_key :
    (sid : String) → IsName sid → split b':' (quiz_key sid) ≡ "session" ∷ sid ∷ "quiz_state" ∷ []
unfolding lacks split
split-quiz_key sid h =
    split_ends ":" "session" (join sid ":quiz_state") refl
    ∙ ap (◌∷◌ "session") (split_cons ":" sid "quiz_state" (IsName-no_colon sid h))

-- The parts of the key of the answers of one user.
pub split-answers_key :
    (sid uid : String)
    → IsName sid
    → IsName uid
    → split b':' (answers_key sid uid) ≡ "session" ∷ sid ∷ "user" ∷ uid ∷ "answers" ∷ []
unfolding lacks split
split-answers_key sid uid h g =
    split_ends ":" "session" (join sid (join ":user:" (join uid ":answers"))) refl
    ∙ ap (λ (t : String). "session" ∷ split b':' (join sid t))
        (cons-append ":" "user:" (join uid ":answers"))
    ∙ ap (◌∷◌ "session") (
        split_cons ":" sid (join "user:" (join uid ":answers")) (IsName-no_colon sid h)
        ∙ ap (◌∷◌ sid) (
            split_ends ":" "user" (join uid ":answers") refl
            ∙ ap (◌∷◌ "user") (split_cons ":" uid "answers" (IsName-no_colon uid g))))

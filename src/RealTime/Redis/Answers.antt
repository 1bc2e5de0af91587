-- ===== src/RealTime/Redis/Answers.antt =====
-- `RecordAnswer` and `GetAllAnswers` of backend-go/real_time/cache/redis/redis.go.
use mathlib.Core.List.{Memᴰ}
use try_it.Prelude.{
  ◌≡◌, refl, sym, ap, subst, ◌∙◌, inl, inr, String, true, some, List, [], ◌∷◌, ◌++◌, ◌==◌, eq_iff,
  eq_refl, arith, Bool-cases, Option-cases,
}
use try_it.Prelude.Dict
use try_it.Prelude.Dict.{Dict, get-put}
use try_it.Prelude.Text.{is_in}
use try_it.Prelude.Split.{split}
use try_it.Shared.Errors.{Result, ok, Result-cases}
use try_it.Shared.Quiz.{UserAnswer}
use try_it.RealTime.Redis.{
  RedisCommands, Json, user_part, or_no_answers, then_result, add_answers, add_users,
}

-- The answers that a result has for a user.
abbrev pub given : Dict (List UserAnswer) → String → List UserAnswer
given m uid = or_no_answers (Dict.get m uid)

Mem-before : (a : UserAnswer) (xs ys : List UserAnswer) → Memᴰ a xs → Memᴰ a (xs ++ ys)
Mem-before a _ ys (Memᴰ.head e) = Memᴰ.head e
Mem-before a _ ys (Memᴰ.tail h) = Memᴰ.tail (Mem-before a _ ys h)

Mem-last : (a : UserAnswer) (xs : List UserAnswer) → Memᴰ a (xs ++ a ∷ [])
Mem-last a [] = Memᴰ.head refl
Mem-last a (x ∷ xs) = Memᴰ.tail (Mem-last a xs)

module _ {R : Type 0} (redis : RedisCommands R) (json : Json UserAnswer) where
  -- One more answer of a user, seen by any user.
  put-kept :
      (m : Dict (List UserAnswer)) (uid u : String) (ans a : UserAnswer)
      → Memᴰ a (given m u)
      → Memᴰ a (given (Dict.put m uid (given m uid ++ ans ∷ [])) u)
  put-kept m uid u ans a h = rw get-put (elim (Bool-cases (uid == u)) [
    | inl e ↦ rw e (
        Mem-before a (given m uid) (ans ∷ [])
          (subst (λ (k : String). Memᴰ a (given m k)) (sym ((eq_iff uid u).0 e)) h))
    | inr e ↦ rw e h
  ])

  add_answers-kept :
      (raws : List String) (m : Dict (List UserAnswer)) (uid u : String) (a : UserAnswer)
      → Memᴰ a (given m u)
      → Memᴰ a (given (add_answers redis json m uid raws) u)
  unfolding add_answers
  add_answers-kept [] m uid u a h = h
  add_answers-kept (raw ∷ raws) m uid u a h = elim (Result-cases (json.unmarshal raw)) [
    | inl (ans, e) ↦
        rw (e, add_answers)
          (add_answers-kept raws (Dict.put m uid (given m uid ++ ans ∷ [])) uid u a
            (put-kept m uid u ans a h))
    | inr (text, e) ↦ rw (e, add_answers) (add_answers-kept raws m uid u a h)
  ]

  add_answers-found :
      (raw : String) (a : UserAnswer) (raws : List String) (m : Dict (List UserAnswer))
      (uid : String)
      → Memᴰ raw raws
      → json.unmarshal raw ≡ ok a
      → Memᴰ a (given (add_answers redis json m uid raws) uid)
  unfolding add_answers
  add_answers-found raw a _ m uid (Memᴰ.head {xs = raws} e) read =
      let read' = ap json.unmarshal (sym e) ∙ read in
      rw (read', add_answers)
        (add_answers-kept raws (Dict.put m uid (given m uid ++ a ∷ [])) uid uid a
          (rw get-put (rw (eq_refl uid) (Mem-last a (given m uid)))))
  add_answers-found raw a _ m uid (Memᴰ.tail {x = other} {xs = raws} h) read =
      elim (Result-cases (json.unmarshal other)) [
        | inl (ans, e) ↦
            rw (e, add_answers)
              (add_answers-found raw a raws (Dict.put m uid (given m uid ++ ans ∷ [])) uid h read)
        | inr (text, e) ↦ rw (e, add_answers) (add_answers-found raw a raws m uid h read)
      ]

  module _ (r : R) where
    abbrev pub users : Dict (List UserAnswer) → List String → Result (Dict (List UserAnswer))
    users m keys = add_users redis json r m keys

    pub add_users-append :
        (m : Dict (List UserAnswer)) (xs ys : List String)
        → users m (xs ++ ys) ≡ then_result (users m xs) (λ m'. users m' ys)
    unfolding add_users
    add_users-append m [] ys = refl
    add_users-append m (key ∷ xs) ys = elim (Option-cases (user_part (split b':' key))) [
      | inl e ↦ rw (e, add_users) (add_users-append m xs ys)
      | inr (uid, e) ↦ elim (Result-cases (redis.hgetall r key)) [
        | inl (h, f) ↦
            rw (e, f, add_users)
              (add_users-append (add_answers redis json m uid (Dict.values h)) xs ys)
        | inr (text, f) ↦ rw (e, f, add_users) refl
      ]
    ]

    -- A key whose parts name a user, and whose hash is read.
    abbrev pub IsUser : String → Type 0
    IsUser key =
        (uid : String) × (user_part (split b':' key) ≡ some uid)
        × ((h : Dict String) × (redis.hgetall r key ≡ ok h))

    -- The loop over keys of users gives a result with all that was there before.
    pub add_users_total :
        (keys : List String) (m : Dict (List UserAnswer))
        → ((key : String) → is_in key keys ≡ true → IsUser key)
        → (m' : Dict (List UserAnswer)) × (users m keys ≡ ok m')
          × ((u : String) (a : UserAnswer) → Memᴰ a (given m u) → Memᴰ a (given m' u))
          × ((key uid raw : String) (h : Dict String) (a : UserAnswer)
              → is_in key keys ≡ true
              → user_part (split b':' key) ≡ some uid
              → redis.hgetall r key ≡ ok h
              → Memᴰ raw (Dict.values h)
              → json.unmarshal raw ≡ ok a
              → Memᴰ a (given m' uid))
    unfolding add_users is_in
    add_users_total [] m all =
        (m, refl, (λ u a h. h), λ key uid raw h a there. absurd (ground (arith, there)))
    add_users_total (key ∷ keys) m all =
        let (uid, parts, (h, read)) = all key (rw (eq_refl key) refl) in
        let m1 = add_answers redis json m uid (Dict.values h) in
        let (m', made, kept, found) = add_users_total keys m1 (λ k there.
          all k (elim (Bool-cases (k == key)) [ inl e ↦ rw e refl | inr e ↦ rw e there ])) in
        (
          m',
          rw (parts, read, add_users) made,
          λ u a old. kept u a (add_answers-kept (Dict.values h) m uid u a old),
          λ k u raw hk a there parts' read' stored decodes. elim (Bool-cases (k == key)) [
            | inl e ↦
                let same = (eq_iff k key).0 e in
                let parts2 : user_part (split b':' key) ≡ some u =
                  subst (λ (x : String). user_part (split b':' x) ≡ some u) same parts' in
                let read2 : redis.hgetall r key ≡ ok hk =
                  subst (λ (x : String). redis.hgetall r x ≡ ok hk) same read' in
                let name : uid ≡ u = cc (parts, parts2) in
                let hashes : h ≡ hk = cc (read, read2) in
                let stored2 =
                  subst (λ (x : Dict String). Memᴰ raw (Dict.values x)) (sym hashes) stored in
                kept u a (
                  subst (λ (x : String). Memᴰ a (given m1 x)) name
                    (add_answers-found raw a (Dict.values h) m uid stored2 decodes))
            | inr e ↦ found k u raw hk a (rw e at there) parts' read' stored decodes
          ],
        )

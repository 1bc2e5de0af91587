-- ===== src/RealTime/Redis/RoundTrip.antt =====
-- A round trip through the hashes of answers of backend-go/real_time/cache/redis/redis.go.
use mathlib.Core.List.{Memᴰ}
use try_it.Prelude.{
  ℕ, ◌≡◌, ◌≢◌, ◌↔◌, All, refl, sym, ap, subst, ◌∙◌, ◌⊎◌, inl, inr, String, true, false, Option,
  none, some, List, [], ◌∷◌, ◌==◌, eq_iff, eq_refl, arith, if◌then◌else◌, Bool-cases,
}
use try_it.Prelude.Int.{ℤ}
use try_it.Prelude.Dict
use try_it.Prelude.Dict.{Dict, get-put}
use try_it.Prelude.Text.{is_in, itoa}
use try_it.Prelude.Split.{lacks, split}
use try_it.Shared.Errors.{ok, ErrorOr}
use try_it.Shared.Name.{is_glob, IsName}
use try_it.Shared.Quiz.{UserAnswer}
use try_it.RealTime.Redis.{
  RedisCommands, Json, answers_key, answers_pattern, user_part, record_answer, add_users,
  get_all_answers,
}
use try_it.RealTime.Redis.Laws.{
  Entry, hash, hash_of, with_field, Pages, IsMatch, CommandLaws, JsonLaws,
}
use try_it.RealTime.Redis.Scan.{scan_loop_lem}
use try_it.RealTime.Redis.Keys.{
  answers_prefix, answers_prefix-IsPlain, answers_key-prefix, answers_pattern-prefix,
  split-answers_key, answers_key_inj,
}
use try_it.RealTime.Redis.Answers.{given, IsUser, add_users_total, add_users-append}

hash_not_none : (h : Dict String) → ◌≢◌ {A = Option Entry} (some (hash h)) none
hash_not_none h e = cc e

-- A field that is put is among the values.
put-value : (h : Dict String) (f v : String) → Memᴰ v (Dict.values (Dict.put h f v))
unfolding Dict.put Dict.values
put-value [] f v = Memᴰ.head refl
put-value ((j, w) ∷ h) f v = elim (Bool-cases (j == f)) [
  | inl e ↦ rw e (Memᴰ.head refl)
  | inr e ↦ rw e (Memᴰ.tail (put-value h f v))
]

module _ {R : Type 0} (redis : RedisCommands R) (rounds : R → ℕ) (laws : CommandLaws redis rounds)
    (json : Json UserAnswer) where
  abbrev answers_entry : R → String → String → Option Entry
  answers_entry r sid uid = laws.entry r (answers_key sid uid)

  -- The answers in a session are in hashes of users whose ids are names.
  abbrev pub HasAnswers : R → String → Type 0
  HasAnswers r sid =
      (uid : String)
      → (answers_entry r sid uid ≡ none)
        ⊎ (IsName uid × ((h : Dict String) × (answers_entry r sid uid ≡ some (hash h))))

  abbrev IsListed : R → String → List String → Type 0
  IsListed r sid keys =
      (key : String)
      → (is_in key keys ≡ true) ↔ IsMatch (laws.entry r) (answers_prefix sid) ":answers" key

  listed-IsUser :
      (r : R) (sid : String) (keys : List String)
      → IsName sid
      → HasAnswers r sid
      → IsListed r sid keys
      → (key : String) → is_in key keys ≡ true
      → IsUser redis json r key
  listed-IsUser r sid keys name s found key h =
      let (there, (uid, made)) = (found key).0 h in
      let same : key ≡ answers_key sid uid = made ∙ sym (answers_key-prefix sid uid) in
      elim (s uid) [
        | inl absent ↦ absurd (there (ap (laws.entry r) same ∙ absent))
        | inr (user, (hk, held)) ↦ (
          uid,
          ap (λ (k : String). user_part (split b':' k)) same
              ∙ ap user_part (split-answers_key sid uid name user),
          (
            hk,
            laws.hgetall_reads r key
                ∙ ap (λ (k : String). hash_of (laws.entry r k)) same
                ∙ ap hash_of held,
          ),
        )
      ]

  -- All that is in the hashes is given.
  get_all_answers-gives :
      (r : R) (sid : String)
      → IsName sid
      → HasAnswers r sid
      → (m : Dict (List UserAnswer)) × (get_all_answers redis json (rounds r) r sid ≡ ok m)
        × ((uid raw : String) (h : Dict String) (a : UserAnswer)
            → answers_entry r sid uid ≡ some (hash h)
            → Memᴰ raw (Dict.values h)
            → json.unmarshal raw ≡ ok a
            → Memᴰ a (given m uid))
  unfolding get_all_answers lacks is_glob
  get_all_answers-gives r sid name s =
      let (keys, n, pages, bound, found) =
        laws.scan_ends r (answers_prefix sid) ":answers" (answers_prefix-IsPlain sid name) refl in
      let pages' =
        subst (λ (p : String). Pages redis r p 0 keys n) (sym (answers_pattern-prefix sid)) pages in
      let (m, made, kept, gives) =
        add_users_total redis json r keys [] (listed-IsUser r sid keys name s found) in
      (
        m,
        scan_loop_lem redis r (answers_pattern sid)
              (λ (acc : Dict (List UserAnswer)) page. add_users redis json r acc page)
              (add_users-append redis json r) 0 n (rounds r) keys [] pages' bound
            ∙ made,
        λ uid raw h a held stored decodes. elim (s uid) [
          | inl absent ↦ absurd (hash_not_none h (sym held ∙ absent))
          | inr (user, other) ↦
              gives (answers_key sid uid) uid raw h a
                ((found (answers_key sid uid)).1
                  ((λ gone. hash_not_none h (sym held ∙ gone)), (uid, answers_key-prefix sid uid)))
                (ap user_part (split-answers_key sid uid name user))
                (laws.hgetall_reads r (answers_key sid uid) ∙ ap hash_of held) stored decodes
        ],
      )

  -- The hash of a user after one more answer.
  with_field-hash :
      (e : Option Entry) (h : Dict String) (f v : String)
      → (e ≡ none) ⊎ (e ≡ some (hash h))
      → (h' : Dict String) × (with_field e f v ≡ some (hash h')) × Memᴰ v (Dict.values h')
  unfolding Dict.values
  with_field-hash e h f v (inl absent) =
      ((f, v) ∷ [], ap (λ (o : Option Entry). with_field o f v) absent, Memᴰ.head refl)
  with_field-hash e h f v (inr held) =
      (Dict.put h f v, ap (λ (o : Option Entry). with_field o f v) held, put-value h f v)

  module _ (docs : JsonLaws json) (r : R) (sid uid : String) (n : ℤ) (a : UserAnswer) where
    abbrev body : String
    body = (docs.marshal_works a).0

    abbrev after : R
    after = (record_answer redis json r sid uid n a).0

    record_answer-hset :
        record_answer redis json r sid uid n a ≡ redis.hset r (answers_key sid uid) (itoa n) body
    unfolding record_answer
    record_answer-hset = rw ((docs.marshal_works a).1, record_answer) refl

    after-entry :
        (k : String)
        → laws.entry after k ≡ (
            if answers_key sid uid == k
            then with_field (answers_entry r sid uid) (itoa n) body
            else laws.entry r k)
    after-entry k =
        ap (λ (out : R × ErrorOr). laws.entry out.0 k) record_answer-hset
        ∙ laws.hset_writes r (answers_key sid uid) (itoa n) body k

    own_hash :
        HasAnswers r sid
        → (h' : Dict String) × (with_field (answers_entry r sid uid) (itoa n) body ≡ some (hash h'))
          × Memᴰ body (Dict.values h')
    own_hash s = elim (s uid) [
      | inl absent ↦ with_field-hash (answers_entry r sid uid) [] (itoa n) body (inl absent)
      | inr (user, (h, held)) ↦ with_field-hash (answers_entry r sid uid) h (itoa n) body (inr held)
    ]

    after-HasAnswers : IsName uid → HasAnswers r sid → HasAnswers after sid
    after-HasAnswers user s u =
        let (h', held, stored) = own_hash s in
        elim (Bool-cases (answers_key sid uid == answers_key sid u)) [
          | inl e ↦
              let same =
                answers_key_inj sid uid u
                  ((eq_iff (answers_key sid uid) (answers_key sid u)).0 e) in
              inr (subst IsName same user, (h', after-entry (answers_key sid u) ∙ rw e held))
          | inr e ↦
              let kept : answers_entry after sid u ≡ answers_entry r sid u =
                after-entry (answers_key sid u) ∙ rw e refl in
              elim (s u) [
                | inl absent ↦ inl (kept ∙ absent)
                | inr (name, (h, there)) ↦ inr (name, (h, kept ∙ there))
              ]
        ]

    -- An answer of another user in the session that is stored and decodes.
    pub record Earlier : Type 0 where
      pub user : String
      pub document : String
      pub fields : Dict String
      pub answer : UserAnswer
      pub other : (uid == user) ≡ false
      pub there : laws.entry r (answers_key sid user) ≡ some (hash fields)
      pub in_fields : Memᴰ document (Dict.values fields)
      pub decodes : json.unmarshal document ≡ ok answer

    other_key : (v u : String) → (v == u) ≡ false → (answers_key sid v == answers_key sid u) ≡ false
    other_key v u e = ground (
      arith,
      e,
      eq_iff v u,
      eq_iff (answers_key sid v) (answers_key sid u),
      answers_key_inj sid v u,
    )

    All-Earlier :
        (m : Dict (List UserAnswer)) (earlier : List Earlier)
        → ((u raw : String) (h : Dict String) (b : UserAnswer)
            → answers_entry after sid u ≡ some (hash h)
            → Memᴰ raw (Dict.values h)
            → json.unmarshal raw ≡ ok b
            → Memᴰ b (given m u))
        → All (λ (e : Earlier). Memᴰ e.answer (given m e.user)) earlier
    All-Earlier m [] gives = tt
    All-Earlier m (e ∷ earlier) gives = (
      gives e.user e.document e.fields e.answer
          (after-entry (answers_key sid e.user) ∙ rw (other_key uid e.user e.other) e.there)
          e.in_fields e.decodes,
      All-Earlier m earlier gives,
    )

    -- For a server that answers, with no key that expires between the two calls, documents that decode,
    -- and a session and a user whose ids are names, where the answers in the session, if there are any,
    -- are in hashes of such users: after `RecordAnswer`, `GetAllAnswers` ends without an error, whatever
    -- pages SCAN gives, and has the answer among those of the user, be it the first of the session or
    -- not; it still has each of any list of answers of other users that were in the store and decode;
    -- and the answers in the session are in such hashes again.
    pub record_answer-get_all_answers :
        (earlier : List Earlier)
        → IsName sid
        → IsName uid
        → HasAnswers r sid
        → (m : Dict (List UserAnswer)) × (get_all_answers redis json (rounds after) after sid
            ≡ ok m)
          × Memᴰ a (given m uid)
          × All (λ (e : Earlier). Memᴰ e.answer (given m e.user)) earlier
          × HasAnswers after sid
    record_answer-get_all_answers earlier name user s =
        let (h', held, stored) = own_hash s in
        let s' = after-HasAnswers user s in
        let (m, made, gives) = get_all_answers-gives after sid name s' in
        (
          m,
          made,
          gives uid body h' a
              (after-entry (answers_key sid uid) ∙ rw (eq_refl (answers_key sid uid)) held) stored
              (docs.unmarshal_reads a body (docs.marshal_works a).1),
          All-Earlier m earlier gives,
          s',
        )

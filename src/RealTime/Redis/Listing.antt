-- ===== src/RealTime/Redis/Listing.antt =====
-- `GetAllSessions` of backend-go/real_time/cache/redis/redis.go.
use try_it.Prelude.{
  ℕ, ◌≡◌, ◌↔◌, refl, sym, ap, subst, ◌∙◌, inl, inr, String, Bool, true, false, Option, none, some,
  List, [], ◌∷◌, ◌++◌, ◌==◌, ◌||◌, eq_refl, arith, eq_iff, if◌then◌else◌, Bool-cases,
}
use try_it.Prelude.Dict
use try_it.Prelude.Dict.{Dict, get-put, get-nil}
use try_it.Prelude.Text.{is_in}
use try_it.Prelude.Split.{lacks, split}
use try_it.Shared.Errors.{Result, ok}
use try_it.Shared.Name.{is_glob, IsName}
use try_it.Shared.Quiz.{OngoingQuiz}
use try_it.RealTime.Cache.{value_of}
use try_it.RealTime.Redis.{
  RedisCommands, Json, quiz_key, sessions_pattern, get_session_quiz, get_all_sessions, add_session,
  add_sessions, session_part, quiz_or_empty,
}
use try_it.RealTime.Redis.Laws.{Entry, IsMatch, CommandLaws}
use try_it.RealTime.Redis.Scan.{scan_loop_lem}
use try_it.RealTime.Redis.Keys.{quiz_key-eq, split-quiz_key}
use try_it.RealTime.Redis.Quizzes.{IsSound, quiz_from, get_session_quiz-entry}

module _ {R : Type 0} (redis : RedisCommands R) (json : Json OngoingQuiz) (r : R) where
  abbrev adds : Dict OngoingQuiz → List String → Dict OngoingQuiz
  adds m keys = add_sessions redis json r m keys

  add_sessions-append :
      (m : Dict OngoingQuiz) (xs ys : List String) → adds m (xs ++ ys) ≡ adds (adds m xs) ys
  unfolding add_sessions
  add_sessions-append m [] ys = refl
  add_sessions-append m (x ∷ xs) ys =
      add_sessions-append (add_session redis json r m (session_part (split b':' x))) xs ys

  abbrev stored_at : String → Option OngoingQuiz
  stored_at sid = value_of (get_session_quiz redis json r sid)

  -- A key of the list is the key of a quiz that reads back.
  abbrev IsStored : String → Type 0
  IsStored key =
      (sid : String) × IsName sid
      × (key ≡ quiz_key sid)
      × ((q : OngoingQuiz) × (get_session_quiz redis json r sid ≡ ok q))

  add_session-stored :
      (m : Dict OngoingQuiz) (key sid : String) (q : OngoingQuiz)
      → IsName sid
      → key ≡ quiz_key sid
      → get_session_quiz redis json r sid ≡ ok q
      → add_session redis json r m (session_part (split b':' key)) ≡ Dict.put m sid q
  unfolding add_session
  add_session-stored m key sid q name e got =
      ap (λ (k : String). add_session redis json r m (session_part (split b':' k))) e
      ∙ ap (λ (parts : List String). add_session redis json r m (session_part parts))
          (split-quiz_key sid name)
      ∙ ap (λ (x : Result OngoingQuiz). Dict.put m sid (quiz_or_empty x)) got

  -- The tests of one more key.
  one_more :
      (there : Bool) (m : Dict OngoingQuiz) (sid j : String) (q : OngoingQuiz)
      → get_session_quiz redis json r sid ≡ ok q
      → (if there then stored_at j else Dict.get (Dict.put m sid q) j)
        ≡ (if quiz_key j == quiz_key sid || there then stored_at j else Dict.get m j)
  one_more there m sid j q got =
      rw (quiz_key-eq j sid, get-put)
        (elim (Bool-cases (sid == j)) [
          | inl same ↦
              let e = (eq_iff sid j).0 same in
              let back : (j == sid) ≡ true = (eq_iff j sid).1 (sym e) in
              let read : some q ≡ stored_at j = sym (
                ap value_of
                  (subst (λ (k : String). get_session_quiz redis json r k ≡ ok q) e got)) in
              rw (same, back) (elim (Bool-cases there) [ inl t ↦ rw t refl | inr f ↦ rw f read ])
          | inr other ↦
              let back : (j == sid) ≡ false = ground (arith, eq_iff j sid, eq_iff sid j, other) in
              rw (other, back) refl
        ])

  -- The map after the keys of a list: the quizzes of the sessions in it, and what was there before.
  add_sessions-get :
      (keys : List String) (m : Dict OngoingQuiz) (j : String)
      → ((key : String) → is_in key keys ≡ true → IsStored key)
      → Dict.get (adds m keys) j ≡ (if is_in (quiz_key j) keys then stored_at j else Dict.get m j)
  unfolding add_sessions is_in add_session
  add_sessions-get [] m j h = refl
  add_sessions-get (key ∷ keys) m j h =
      let (sid, name, e, (q, got)) = h key (rw (eq_refl key) refl) in
      let rest = add_sessions-get keys (Dict.put m sid q) j (λ k there.
        h k (elim (Bool-cases (k == key)) [ inl a ↦ rw a refl | inr a ↦ rw a there ])) in
      ap (λ (m' : Dict OngoingQuiz). Dict.get (adds m' keys) j)
        (add_session-stored m key sid q name e got)
      ∙ rest
      ∙ one_more (is_in (quiz_key j) keys) m sid j q got
      ∙ ap
          (λ (k : String).
            if quiz_key j == k || is_in (quiz_key j) keys then stored_at j else Dict.get m j)
          (sym e)

module _ {R : Type 0} (redis : RedisCommands R) (rounds : R → ℕ) (laws : CommandLaws redis rounds)
    (json : Json OngoingQuiz) where
  abbrev stored_in : R → String → Option OngoingQuiz
  stored_in r j = value_of (get_session_quiz redis json r j)

  abbrev IsListed : R → List String → Type 0
  IsListed r keys =
      (key : String) → (is_in key keys ≡ true) ↔ IsMatch (laws.entry r) "session:" ":quiz_state" key

  listed-IsStored :
      (r : R) (keys : List String)
      → IsSound redis rounds laws json r
      → IsListed r keys
      → (key : String) → is_in key keys ≡ true
      → IsStored redis json r key
  listed-IsStored r keys s found key h =
      let (there, (sid, e)) = (found key).0 h in
      elim (s sid) [
        | inl absent ↦ absurd (there (ap (laws.entry r) e ∙ absent))
        | inr (name, (q, g)) ↦
            (sid, name, e, (q, get_session_quiz-entry redis rounds laws json r sid ∙ g))
      ]

  err-not_ok :
      (e : Option Entry) (q : OngoingQuiz)
      → e ≡ none
      → quiz_from redis rounds laws json e ≡ ok q
      → ⊥
  err-not_ok e q absent g = let g' = sym (ap (quiz_from redis rounds laws json) absent) ∙ g in cc g'

  -- A session whose key is not listed has no quiz.
  listed-stored :
      (r : R) (keys : List String) (j : String)
      → IsSound redis rounds laws json r
      → IsListed r keys
      → (if is_in (quiz_key j) keys then stored_in r j else none) ≡ stored_in r j
  listed-stored r keys j s found = elim (s j) [
    | inl absent ↦
        rw (get_session_quiz-entry redis rounds laws json r j, absent)
          (elim (Bool-cases (is_in (quiz_key j) keys)) [ inl e ↦ rw e refl | inr e ↦ rw e refl ])
    | inr (name, (q, g)) ↦
        let there : is_in (quiz_key j) keys ≡ true =
          (found (quiz_key j)).1
            ((λ absent. err-not_ok (laws.entry r (quiz_key j)) q absent g), (j, refl)) in
        rw there refl
  ]

  -- For a server that answers, and a store whose quizzes decode and are in keys of sessions that are
  -- names: `GetAllSessions` ends without an error, whatever pages SCAN gives, and its map has for every
  -- session what `GetSessionQuiz` gives for it, and nothing where that gives an error.
  pub get_all_sessions_lem :
      (r : R)
      → IsSound redis rounds laws json r
      → (m : Dict OngoingQuiz) × (get_all_sessions redis json (rounds r) r ≡ ok m)
        × ((j : String) → Dict.get m j ≡ value_of (get_session_quiz redis json r j))
  unfolding get_all_sessions lacks is_glob
  get_all_sessions_lem r s =
      let (keys, n, pages, bound, found) = laws.scan_ends r "session:" ":quiz_state" refl refl in
      (
        add_sessions redis json r [] keys,
        scan_loop_lem redis r sessions_pattern
            (λ (m : Dict OngoingQuiz) keys'. ok (add_sessions redis json r m keys'))
            (λ m xs ys. ap ok (add_sessions-append redis json r m xs ys)) 0 n (rounds r) keys []
            pages bound,
        λ j.
            add_sessions-get redis json r keys [] j (listed-IsStored r keys s found)
            ∙ ap (λ (o : Option OngoingQuiz). if is_in (quiz_key j) keys then stored_in r j else o)
                (get-nil j)
            ∙ listed-stored r keys j s found,
      )

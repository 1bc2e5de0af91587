-- ===== src/Examples/Store.antt =====
-- A server of the store in memory: SCAN gives one key on its first page and the others on a second.
use try_it.Prelude.{
  ℕ, zero, suc, ◌≤◌, ◌≡◌, ◌≢◌, refl, sym, ap, subst, ◌∙◌, inl, inr, String, true, false, Option,
  none, some, List, [], ◌∷◌, arith, ◌==◌, eq_iff, if◌then◌else◌, Bool-cases,
}
use try_it.Prelude.Dict
use try_it.Prelude.Dict.{Dict, get-put, get-remove}
use try_it.Prelude.Text.{join, is_in}
use try_it.Prelude.Split.{lacks, split}
use try_it.Shared.Errors.{ok}
use try_it.Shared.Name.{is_glob}
use try_it.RealTime.Redis.{RedisCommands}
use try_it.RealTime.Redis.Laws.{
  Entry, plain, hash, text_of, hash_of, with_field, Pages, last, more, CommandLaws,
}
use try_it.Prelude.Int.{pos}
use try_it.Shared.Name.{is_special, IsName}
use try_it.Shared.Quiz.{OngoingQuiz}
use try_it.RealTime.Cache.{Cache, CacheLaws, value_of}
use mathlib.Core.List.{append_assoc}
use try_it.RealTime.Redis.{
  Json, quiz_key, answers_key, sessions_pattern, scan_loop, collect, set_session_quiz, redis_cache,
}
use try_it.RealTime.Redis.Scan.{scan_loop_lem}
use try_it.RealTime.Redis.Quizzes.{IsSound}
use try_it.RealTime.App.{connect_redis, new_manager, connect_redis_lem}
use try_it.RealTime.Redis.Keys.{quiz_key_inj, quiz_key-ne-answers_key}
use mathlib.Core.List.{Memᴰ}
use try_it.Shared.Quiz.{UserAnswer}
use try_it.RealTime.Redis.Keys.{answers_key_inj}
use try_it.RealTime.Redis.Answers.{given}
use try_it.RealTime.Redis.RoundTrip.{HasAnswers, Earlier, record_answer-get_all_answers}
use try_it.RealTime.Redis.Deletion.{delete_session_lem}
use try_it.RealTime.Redis.Listing.{get_all_sessions_lem}
use try_it.RealTime.Redis.Contract.{redis_cache-CacheLaws}
use try_it.RealTime.Tracker.{
  QuizTracker, new_quiz_tracker, set_cache, inc_question_idx, delete_session,
}
use try_it.RealTime.Restart.{Lived, started, advanced, deleted, restart_lem}
use try_it.Prelude.{panics}
use try_it.Shared.Token.{UserToken, role_participant}
use try_it.RealTime.Registry.{ConnectionContext, new_connection_registry}
use try_it.RealTime.Handler.{process_answer, join_session}
use try_it.RealTime.Restarted.{restarted_on, lost_after_restart}
use try_it.Examples.Quiz.{at_question, online, second_option}
use try_it.Examples.Codec.{quiz_documents, answer_documents}
use try_it.Examples.Glob.{Memory, fits_iff, pieces, matching, matching_iff}

-- One key on the first page, where there are more.
first_page : List String → List String × ℕ
first_page [] = ([], 0)
first_page (k ∷ []) = (k ∷ [], 0)
first_page (k ∷ j ∷ ks) = (k ∷ [], 1)

other_page : List String → List String × ℕ
other_page [] = ([], 0)
other_page (k ∷ ks) = (ks, 0)

page : ℕ → List String → List String × ℕ
unfolding first_page other_page
page zero ks = first_page ks
page (suc n) ks = other_page ks

remove_all : Memory → List String → Memory
remove_all r [] = r
remove_all r (k ∷ ks) = Dict.remove (remove_all r ks) k

hset_to : Memory → String → Option Entry → Memory
hset_to r k none = r
hset_to r k (some e) = Dict.put r k e

abbrev memory : RedisCommands Memory
memory = record {
  get = λ r k. text_of (Dict.get r k);
  set = λ r k v ttl. (Dict.put r k (plain v), none);
  del = λ r ks. (remove_all r ks, none);
  scan = λ r cursor pattern count. ok (page cursor (matching (split b'*' pattern) r));
  hset = λ r k f v. (hset_to r k (with_field (Dict.get r k) f v), none);
  hgetall = λ r k. hash_of (Dict.get r k);
  expire = λ r k ttl. (r, none);
  ping = λ r. none;
}

with_field-some : (o : Option Entry) (f v : String) → (e : Entry) × (with_field o f v ≡ some e)
with_field-some none f v = (hash ((f, v) ∷ []), refl)
with_field-some (some (plain s)) f v = (plain s, refl)
with_field-some (some (hash h)) f v = (hash (Dict.put h f v), refl)

get-remove_all :
    (r : Memory) (ks : List String) (j : String)
    → Dict.get (remove_all r ks) j ≡ (if is_in j ks then none else Dict.get r j)
unfolding remove_all is_in
get-remove_all r [] j = refl
get-remove_all r (k ∷ ks) j = rw get-remove (
    rw (get-remove_all r ks j) (elim (Bool-cases (k == j)) [
      | inl same ↦
          let back : (j == k) ≡ true = (eq_iff j k).1 (sym ((eq_iff k j).0 same)) in
          rw (same, back) refl
      | inr other ↦
          let back : (j == k) ≡ false = ground (arith, eq_iff k j, eq_iff j k, other) in
          rw (other, back) refl
    ]))

-- The pages of the two calls.
memory-Pages :
    (r : Memory) (pattern : String) (ks : List String)
    → matching (split b'*' pattern) r ≡ ks
    → (n : ℕ) × Pages memory r pattern 0 ks n × (n ≤ 2)
unfolding page first_page other_page
memory-Pages r pattern [] e = (1, last 0 [] (ap (λ x. ok (page 0 x)) e), omega arith)
memory-Pages r pattern (k ∷ []) e = (1, last 0 (k ∷ []) (ap (λ x. ok (page 0 x)) e), omega arith)
memory-Pages r pattern (k ∷ j ∷ ks) e = (
  2,
  more 0 0 (k ∷ []) (j ∷ ks) 1 (ap (λ x. ok (page 0 x)) e)
      (last 1 (j ∷ ks) (ap (λ x. ok (page 1 x)) e)),
  omega arith,
)

memory-CommandLaws : CommandLaws memory (λ r. 2)
unfolding hset_to
memory-CommandLaws = record {
  entry = λ r k. Dict.get r k;
  get_reads = λ r k. refl;
  hgetall_reads = λ r k. refl;
  set_works = λ r k v ttl. refl;
  set_writes = λ r k v ttl j. get-put r k j (plain v);
  del_works = λ r ks. refl;
  del_writes = get-remove_all;
  hset_writes = λ r k f v j.
      let (e, given) = with_field-some (Dict.get r k) f v in rw given (get-put r k j e);
  scan_ends = λ r pre suf h g.
      let e = pieces pre suf h g in
      let ks = matching (pre ∷ suf ∷ []) r in
      let (n, p, b) = memory-Pages r (join pre (join "*" suf)) ks (ap (λ pat. matching pat r) e) in
      (
        ks,
        n,
        p,
        b,
        λ k. (
          (λ found.
              let (there, fit) = (matching_iff (pre ∷ suf ∷ []) r k).0 found in
              (there, (fits_iff pre suf k).0 fit)),
          (λ (there, made).
              (matching_iff (pre ∷ suf ∷ []) r k).1 (there, (fits_iff pre suf k).1 made)),
        ),
      );
}

-- The store after a session and an answer of it.
abbrev documents : Json OngoingQuiz
documents = quiz_documents.0

abbrev store : Cache Memory
store = redis_cache memory documents answer_documents.0 (λ r. 2)

abbrev Sound : Memory → Type 0
Sound = IsSound memory (λ r. 2) memory-CommandLaws documents

store-CacheLaws : CacheLaws store Sound
store-CacheLaws =
    (redis_cache-CacheLaws memory (λ r. 2) memory-CommandLaws documents answer_documents.0
      quiz_documents.1).0

abbrev two_sessions : Memory
two_sessions =
    (store.record_answer
      (store.set_session_quiz (store.set_session_quiz [] "AB12" (at_question (pos 0))).0 "CD34"
        (at_question (pos 1))).0
      "AB12" "u1" (pos 0)
      (record { answered = true; option = pos 1; correct = true; timestamp = pos 5 })).0

empty-Sound : Sound []
unfolding Dict.get memory-CommandLaws
empty-Sound sid = inl refl

ab12-IsName : IsName "AB12"
unfolding lacks is_special is_glob
ab12-IsName = refl

cd34-IsName : IsName "CD34"
unfolding lacks is_special is_glob
cd34-IsName = refl

two_sessions-Sound : Sound two_sessions
two_sessions-Sound =
    store-CacheLaws.record_keeps
      (store.set_session_quiz (store.set_session_quiz [] "AB12" (at_question (pos 0))).0 "CD34"
        (at_question (pos 1))).0
      "AB12" "u1" (pos 0) _
      (store-CacheLaws.set_keeps (store.set_session_quiz [] "AB12" (at_question (pos 0))).0 "CD34"
        (at_question (pos 1)) cd34-IsName
        (store-CacheLaws.set_keeps [] "AB12" (at_question (pos 0)) ab12-IsName empty-Sound))

get_all_sessions_lem_example :
    (m : Dict OngoingQuiz) × (store.get_all_sessions two_sessions ≡ ok m)
    × ((j : String) → Dict.get m j ≡ value_of (store.get_session_quiz two_sessions j))
get_all_sessions_lem_example =
    get_all_sessions_lem memory (λ r. 2) memory-CommandLaws documents two_sessions
      two_sessions-Sound

other_session : quiz_key "CD34" ≢ quiz_key "AB12"
other_session e =
    let same : ◌≡◌ {A = String} "CD34" "AB12" = quiz_key_inj "CD34" "AB12" e in
    absurd (ground (arith, eq_iff "CD34" "AB12", same))

delete_session_lem_example :
    ((store.delete_session two_sessions "AB12").1 ≡ none)
    × (Dict.get (store.delete_session two_sessions "AB12").0 (quiz_key "AB12") ≡ none)
    × (Dict.get (store.delete_session two_sessions "AB12").0 (answers_key "AB12" "u1") ≡ none)
    × (Dict.get (store.delete_session two_sessions "AB12").0 (quiz_key "CD34")
        ≡ Dict.get two_sessions (quiz_key "CD34"))
unfolding memory-CommandLaws
delete_session_lem_example =
    delete_session_lem memory (λ r. 2) memory-CommandLaws two_sessions "AB12" "u1" (quiz_key "CD34")
      ab12-IsName other_session (quiz_key-ne-answers_key "CD34" "AB12")

-- A service that starts on the store, moves one session forward and ends the other.
abbrev first_tracker : QuizTracker Memory
first_tracker = set_cache store (new_quiz_tracker []) two_sessions

abbrev later_tracker : QuizTracker Memory
later_tracker = delete_session store (inc_question_idx store first_tracker "AB12").1 "CD34"

later_tracker-Lived : Lived store Sound store-CacheLaws later_tracker
later_tracker-Lived =
    deleted (inc_question_idx store first_tracker "AB12").1 "CD34" cd34-IsName
      (advanced first_tracker "AB12" ab12-IsName (started two_sessions [] two_sessions-Sound))

restart_lem_example :
    Dict.get (set_cache store (new_quiz_tracker []) later_tracker.cache).tracker "AB12"
    ≡ Dict.get later_tracker.tracker "AB12"
restart_lem_example =
    restart_lem store Sound store-CacheLaws later_tracker [] "AB12" later_tracker-Lived

-- The keys of the two sessions, over the pages of SCAN.
scan_loop_lem_example :
    scan_loop memory (collect memory) two_sessions sessions_pattern 2 0 []
    ≡ collect memory [] (matching (split b'*' sessions_pattern) two_sessions)
scan_loop_lem_example =
    let (n, pages, bound) =
      memory-Pages two_sessions sessions_pattern
        (matching (split b'*' sessions_pattern) two_sessions) refl in
    scan_loop_lem memory two_sessions sessions_pattern (collect memory)
      (λ s xs ys. ap ok (sym (append_assoc s xs ys))) 0 n 2
      (matching (split b'*' sessions_pattern) two_sessions) [] pages bound

connect_redis_lem_example :
    let m = new_manager {A = Unit {0}} [] in
    let out =
      connect_redis store
        (λ c. none)
        (λ raw. ok (record { host = raw; password = ""; path = "/2" }))
        (λ host password db. two_sessions)
        "redis:6379"
        m in
    (out.0 ≡ none)
    × (out.1.redis ≡ some two_sessions)
    × (out.1.quiz_tracker.cache ≡ two_sessions)
    × ((j : String)
        → Dict.get out.1.quiz_tracker.tracker j ≡ value_of (store.get_session_quiz two_sessions j))
    × (out.1.quiz_tracker.answers ≡ m.quiz_tracker.answers)
    × (out.1.rabbit ≡ m.rabbit)
    × (out.1.connection_registry ≡ m.connection_registry)
connect_redis_lem_example =
    connect_redis_lem store (λ c. none) Sound store-CacheLaws
      (λ raw. ok (record { host = raw; password = ""; path = "/2" }))
      (λ host password db. two_sessions) "redis:6379" (new_manager {A = Unit {0}} [])
      (λ host password db. two_sessions-Sound)

abbrev ann : ConnectionContext
ann = record { conn = some 5; user_id = "u1"; session_id = "AB12"; role = role_participant }

abbrev ann_token : UserToken
ann_token = record {
  user_id = "u1";
  user_name = "Ann";
  user_type = role_participant;
  session_id = "AB12";
  exp = 10000;
}

ab12_stored : value_of (store.get_session_quiz two_sessions "AB12") ≡ some (at_question (pos 0))
ab12_stored =
    store-CacheLaws.record_stores
      (store.set_session_quiz (store.set_session_quiz [] "AB12" (at_question (pos 0))).0 "CD34"
        (at_question (pos 1))).0
      "AB12" "u1" (pos 0) _ "AB12"
    ∙ store-CacheLaws.set_stores (store.set_session_quiz [] "AB12" (at_question (pos 0))).0 "CD34"
        (at_question (pos 1)) "AB12"
    ∙ store-CacheLaws.set_stores [] "AB12" (at_question (pos 0)) "AB12"

lost_after_restart_example :
    (Dict.get (restarted_on store [] two_sessions new_connection_registry).tracker.tracker "AB12"
      ≡ some (at_question (pos 0)))
    × (process_answer online store ann second_option
          (restarted_on store [] two_sessions new_connection_registry)
        ≡ panics)
    × (join_session ann_token 6 (restarted_on store [] two_sessions new_connection_registry)
        ≡ panics)
unfolding new_connection_registry
lost_after_restart_example =
    lost_after_restart online store Sound store-CacheLaws [] two_sessions new_connection_registry
      ann second_option ann_token 6 (at_question (pos 0)) two_sessions-Sound (refl, refl)
      ab12_stored refl refl

-- A store with one answer of one user.
abbrev first_answer : UserAnswer
first_answer = record { answered = true; option = pos 1; correct = true; timestamp = pos 5 }

abbrev first_document : String
first_document = (answer_documents.1.marshal_works first_answer).0

abbrev one_answer : Memory
one_answer = (answers_key "AB12" "u1", hash (("0", first_document) ∷ [])) ∷ []

u1-IsName : IsName "u1"
unfolding lacks is_special is_glob
u1-IsName = refl

one_answer-HasAnswers :
    HasAnswers memory (λ r. 2) memory-CommandLaws answer_documents.0 one_answer "AB12"
unfolding Dict.get memory-CommandLaws
one_answer-HasAnswers uid = elim (Bool-cases (answers_key "AB12" "u1" == answers_key "AB12" uid)) [
  | inl e ↦
      let same =
        answers_key_inj "AB12" "u1" uid
          ((eq_iff (answers_key "AB12" "u1") (answers_key "AB12" uid)).0 e) in
      rw e (inr (subst IsName same u1-IsName, (("0", first_document) ∷ [], refl)))
  | inr e ↦ rw e (inl refl)
]

-- The answer of the other user that is there.
unfoldable earlier_one :
    Earlier memory
      (λ r. 2)
      memory-CommandLaws
      answer_documents.0
      answer_documents.1
      one_answer
      "AB12"
      "u2"
      (pos 0)
      first_answer
unfolding Dict.get Dict.values memory-CommandLaws
earlier_one = record {
  user = "u1";
  document = first_document;
  fields = ("0", first_document) ∷ [];
  answer = first_answer;
  other = refl;
  there = refl;
  in_fields = Memᴰ.head refl;
  decodes =
      answer_documents.1.unmarshal_reads first_answer first_document
        (answer_documents.1.marshal_works first_answer).1;
}

record_answer-get_all_answers_example :
    (m : Dict (List UserAnswer)) × (store.get_all_answers
        (store.record_answer one_answer "AB12" "u2" (pos 0) first_answer).0
        "AB12"
      ≡ ok m)
    × Memᴰ first_answer (given m "u2")
    × (Memᴰ first_answer (given m "u1") × Unit {0})
    × HasAnswers memory
        (λ r. 2)
        memory-CommandLaws
        answer_documents.0
        (store.record_answer one_answer "AB12" "u2" (pos 0) first_answer).0
        "AB12"
unfolding lacks is_special is_glob earlier_one
record_answer-get_all_answers_example =
    record_answer-get_all_answers memory (λ r. 2) memory-CommandLaws answer_documents.0
      answer_documents.1 one_answer "AB12" "u2" (pos 0) first_answer (earlier_one ∷ []) ab12-IsName
      refl one_answer-HasAnswers

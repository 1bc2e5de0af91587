-- ===== src/RealTime/Redis/Deletion.antt =====
-- `DeleteSession` of backend-go/real_time/cache/redis/redis.go.
use mathlib.Core.List.{append_assoc}
use try_it.Prelude.{
  ℕ, ◌≡◌, ◌≢◌, refl, sym, ap, subst, ◌∙◌, inl, inr, ◌↔◌, String, true, false, Option, none, some,
  List, [], ◌∷◌, ◌==◌, eq_refl, eq_iff, if◌then◌else◌, Bool-cases, Option-cases,
}
use try_it.Prelude.Text.{is_in}
use try_it.Prelude.Split.{lacks}
use try_it.Shared.Errors.{ok}
use try_it.Shared.Name.{is_glob, IsName}
use try_it.RealTime.Redis.{
  RedisCommands, quiz_key, answers_key, answers_pattern, delete_session, delete_keys, collect,
}
use try_it.RealTime.Redis.Laws.{Entry, Pages, IsMatch, CommandLaws}
use try_it.RealTime.Redis.Scan.{scan_loop_lem}
use try_it.RealTime.Redis.Keys.{
  answers_pattern-prefix, answers_prefix, answers_prefix-IsPlain, answers_key-prefix,
}

some_not_none : (v : Entry) → ◌≢◌ {A = Option Entry} (some v) none
some_not_none v e = cc e

module _ {R : Type 0} (redis : RedisCommands R) (rounds : R → ℕ)
    (laws : CommandLaws redis rounds) where
  -- One DEL of the quiz and of all the answers that there are.
  pub record IsDeletion (r : R) (sid : String) : Type 0 where
    pub keys : List String
    pub deletes : delete_session redis (rounds r) r sid ≡ redis.del r (quiz_key sid ∷ keys)
    pub finds :
        (key : String)
        → (is_in key keys ≡ true) ↔ IsMatch (laws.entry r) (answers_prefix sid) ":answers" key

  delete_session-IsDeletion : (r : R) (sid : String) → IsName sid → IsDeletion r sid
  unfolding delete_session lacks is_glob
  delete_session-IsDeletion r sid h =
      let (keys, n, pages, bound, found) =
        laws.scan_ends r (answers_prefix sid) ":answers" (answers_prefix-IsPlain sid h) refl in
      let pages' =
        subst (λ (p : String). Pages redis r p 0 keys n) (sym (answers_pattern-prefix sid)) pages in
      record {
        keys = keys;
        deletes = ap (delete_keys redis r) (
            scan_loop_lem redis r (answers_pattern sid) (collect redis)
              (λ s xs ys. ap ok (sym (append_assoc s xs ys))) 0 n (rounds r) keys
              (quiz_key sid ∷ []) pages' bound);
        finds = found;
      }

  -- The entries after the deletion.
  deleted :
      (r : R) (sid : String) (d : IsDeletion r sid) (k : String)
      → laws.entry (delete_session redis (rounds r) r sid).0 k
        ≡ (if is_in k (quiz_key sid ∷ d.keys) then none else laws.entry r k)
  deleted r sid d k = rw d.deletes (laws.del_writes r (quiz_key sid ∷ d.keys) k)

  -- A key is in the list that is deleted, or it is not.
  is_deleted :
      (r : R) (sid : String) (d : IsDeletion r sid) (uid : String)
      → laws.entry (delete_session redis (rounds r) r sid).0 (answers_key sid uid) ≡ none
  unfolding is_in
  is_deleted r sid d uid =
      let key = answers_key sid uid in
      deleted r sid d key ∙ (elim (Option-cases (laws.entry r key)) [
        | inl absent ↦ rw absent (elim (Bool-cases (is_in key (quiz_key sid ∷ d.keys))) [
          | inl e ↦ rw e refl
          | inr e ↦ rw e refl
        ])
        | inr (v, there) ↦
            let found : is_in key d.keys ≡ true =
              (d.finds key).1
                ((λ gone. some_not_none v (sym there ∙ gone)), (uid, answers_key-prefix sid uid)) in
            rw found
              (elim (Bool-cases (key == quiz_key sid)) [ inl e ↦ rw e refl | inr e ↦ rw e refl ])
      ])

  -- A key that is not of the session is not deleted.
  is_kept :
      (r : R) (sid : String) (d : IsDeletion r sid) (k : String)
      → k ≢ quiz_key sid
      → ((uid : String) → k ≢ answers_key sid uid)
      → is_in k (quiz_key sid ∷ d.keys) ≡ false
  unfolding is_in
  is_kept r sid d k not_quiz not_answers = elim (Bool-cases (is_in k d.keys)) [
    | inl found ↦
        let (there, (uid, e)) = (d.finds k).0 found in
        absurd (not_answers uid (e ∙ sym (answers_key-prefix sid uid)))
    | inr unfound ↦ elim (Bool-cases (k == quiz_key sid)) [
      | inl e ↦ absurd (not_quiz ((eq_iff k (quiz_key sid)).0 e))
      | inr e ↦ rw (e, unfound) refl
    ]
  ]

  -- For a server that answers, and a session whose id is a name: the deletion ends without an error,
  -- whatever pages SCAN gives; the quiz of the session is gone, and so are the answers of every user
  -- in it; and any key that is none of these holds what it held.
  pub delete_session_lem :
      (r : R) (sid uid k : String)
      → IsName sid
      → k ≢ quiz_key sid
      → ((v : String) → k ≢ answers_key sid v)
      → ((delete_session redis (rounds r) r sid).1 ≡ none)
        × (laws.entry (delete_session redis (rounds r) r sid).0 (quiz_key sid) ≡ none)
        × (laws.entry (delete_session redis (rounds r) r sid).0 (answers_key sid uid) ≡ none)
        × (laws.entry (delete_session redis (rounds r) r sid).0 k ≡ laws.entry r k)
  unfolding is_in
  delete_session_lem r sid uid k h not_quiz not_answers =
      let d = delete_session-IsDeletion r sid h in
      (
        rw d.deletes (laws.del_works r (quiz_key sid ∷ d.keys)),
        deleted r sid d (quiz_key sid) ∙ rw (eq_refl (quiz_key sid)) refl,
        is_deleted r sid d uid,
        deleted r sid d k ∙ rw (is_kept r sid d k not_quiz not_answers) refl,
      )

  -- The quiz of the session is gone.
  pub delete_session_quiz :
      (r : R) (sid : String)
      → IsName sid
      → laws.entry (delete_session redis (rounds r) r sid).0 (quiz_key sid) ≡ none
  unfolding is_in
  delete_session_quiz r sid h =
      let d = delete_session-IsDeletion r sid h in
      deleted r sid d (quiz_key sid) ∙ rw (eq_refl (quiz_key sid)) refl

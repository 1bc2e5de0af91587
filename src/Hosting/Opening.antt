-- ===== src/Hosting/Opening.antt =====
-- A session opens in backend-go/real_time: its start is delivered, and its host and a participant
-- connect with their tokens.
use try_it.Prelude.{
  ℕ, ◌≡◌, refl, ap, sym, subst, ◌∙◌, String, Bool, true, false, ◌&&◌, Option, none, some, List, [],
  ◌∷◌, Run, done, ◌>>=◌, Returns, Returns-bind, if◌then◌else◌, ◌==◌, eq_refl, eq_iff, arith, inl,
  inr, Option-cases,
}
use try_it.Prelude.Int.{negsuc}
use try_it.Prelude.Dict
use try_it.Prelude.Dict.{Dict, get-put, get-nil}
use try_it.Shared.Errors.{Result, ok}
use try_it.Shared.Quiz.{Quiz, OngoingQuiz, len}
use try_it.Shared.Scores.{SessionAnswers}
use try_it.Shared.Token.{UserToken, role_participant}
use try_it.RealTime.Cache.{Cache}
use try_it.RealTime.Message.{ServerMessage}
use try_it.RealTime.Leaderboard.{HttpReply}
use try_it.RealTime.Registry.{ConnectionContext, Attempt}
use try_it.RealTime.Registry.Delivery.{conn_of, IsFree}
use try_it.RealTime.Tracker.{QuizTracker, blank_answers, new_session}
use try_it.RealTime.Tracker.Valid.{IsValid, new_session-IsValid}
use try_it.RealTime.Tracker.Answers.{row_of}
use try_it.RealTime.Consumer.{HandlerDeps, session_started}
use try_it.RealTime.Handler.{ConnectReply, welcome, join_session, web_socket_handler}
use try_it.RealTime.Joining.{context_of, session_started_lem}
use try_it.RealTime.Entering.{join_session-host, join_session-player, web_socket_handler-joins}

-- A quiz before its first question.
abbrev pub begun : Quiz → OngoingQuiz
begun quiz = record { curr_question_idx = negsuc 0; quiz_data = quiz }

module _ {C : Type 0} (cache : Cache C) (t : QuizTracker C) (sid : String) (quiz : Quiz)
    (unknown : Dict.get t.tracker sid ≡ none) where
  new_session-begun : Dict.get (new_session cache t sid quiz).tracker sid ≡ some (begun quiz)
  unfolding new_session
  new_session-begun =
      rw (unknown, new_session) (get-put t.tracker sid sid (begun quiz) ∙ (rw eq_refl refl))

  new_session-no_row : (uid : String) → row_of (new_session cache t sid quiz) sid uid ≡ none
  unfolding new_session
  new_session-no_row uid =
      rw (unknown, new_session) (rw (get-put t.answers sid sid []) (rw eq_refl (get-nil uid)))

has-none : {V : Type 0} (m : Dict V) (k : String) → Dict.has m k ≡ false → Dict.get m k ≡ none
unfolding Dict.has
has-none m k h = elim (Option-cases (Dict.get m k)) [
  | inl e ↦ e
  | inr (v, e) ↦ let bad : true ≡ false = rw (e, Dict.has) at h in absurd (ground (arith, bad))
]

two_entries :
    (u v : String) (c e : ConnectionContext)
    → (v == u) ≡ false
    → some (Dict.put (Dict.put [] u c) v e) ≡ some ((u, c) ∷ (v, e) ∷ [])
unfolding Dict.put
two_entries u v c e apart = ground (arith, apart, eq_iff u v, eq_iff v u)

skipped : (b c : Bool) (x y : Option ConnectionContext) → c ≡ false → (if b && c then x else y) ≡ y
skipped b c x y e = ground (arith, e)

replies :
    (a b a' b' : ConnectReply)
    → a ≡ a'
    → b ≡ b'
    → ◌≡◌ {A = ConnectReply × ConnectReply} (a, b) (a', b')
replies a b a' b' e f = ap (λ (x : ConnectReply). (x, b)) e ∙ ap (λ (x : ConnectReply). (a', x)) f

-- The session is open, with its host and a participant connected.
pub record IsHosted {C : Type 0} (d' : HandlerDeps C) (quiz : Quiz)
    (host player : ConnectionContext) : Type 0 where
  pub valid : IsValid d'.tracker
  pub free : IsFree d'.registry
  pub quiz_begun : Dict.get d'.tracker.tracker player.session_id ≡ some (begun quiz)
  pub blank_row :
      row_of d'.tracker player.session_id player.user_id ≡ some (blank_answers (len quiz))
  pub host_online : conn_of d'.registry host.session_id host.user_id ≡ some host
  pub users_online :
      Dict.get d'.registry.connections player.session_id
      ≡ some ((host.user_id, host) ∷ (player.user_id, player) ∷ [])
  pub player_online : conn_of d'.registry player.session_id player.user_id ≡ some player

module _ (writes : List Attempt → ConnectionContext → ServerMessage → Bool)
    (post_answers : SessionAnswers → HttpReply) {C : Type 0} (cache : Cache C)
    (parse : String → Result UserToken) where
  -- The start of the session is delivered, then the host and the participant connect with their
  -- tokens.
  abbrev pub opening :
      String
      → Quiz
      → (String × ℕ)
      → (String × ℕ)
      → HandlerDeps C
      → Dict String
      → Run ((ConnectReply × ConnectReply) × HandlerDeps C)
  opening code quiz (jwt, socket) (jwt', socket') d tags = do
    (d1, tags1) ← session_started writes post_answers cache (some (code, quiz)) d tags
    (hello, d2) ← web_socket_handler parse (some socket) jwt d1
    (hello', d3) ← web_socket_handler parse (some socket') jwt' d2
    done ((hello, hello'), d3)

  module _ (jwt jwt' : String) (host player : UserToken) (socket socket' : ℕ) (quiz : Quiz)
      (given : (jwt == "") ≡ false) (parsed : parse jwt ≡ ok host) (given' : (jwt' == "") ≡ false)
      (parsed' : parse jwt' ≡ ok player) (same : host.session_id ≡ player.session_id)
      (leads : (host.user_type == role_participant) ≡ false)
      (plays : (player.user_type == role_participant) ≡ true)
      (apart : (player.user_id == host.user_id) ≡ false) where
    pub opening_lem :
        (d : HandlerDeps C) (tags : Dict String)
        → IsValid d.tracker
        → IsFree d.registry
        → Dict.has d.registry.connections player.session_id ≡ false
        → Dict.get d.tracker.tracker player.session_id ≡ none
        → Returns (opening player.session_id quiz (jwt, socket) (jwt', socket') d tags) (λ out.
          (out.0
            ≡ (welcome player.session_id host.user_id, welcome player.session_id player.user_id))
          × IsHosted out.1 quiz (context_of host socket) (context_of player socket'))
    opening_lem d tags v free new unknown =
        let code = player.session_id in
        Returns-bind (session_started writes post_answers cache (some (code, quiz)) d tags) _ _ _
          (session_started_lem writes post_answers cache code quiz d tags free)
          (λ (d1, tags1) (tracker1, noted, sessions, free1).
            let fresh : d1.tracker ≡ new_session cache d.tracker code quiz =
              tracker1 ∙ (rw new refl) in
            let listed : Dict.get d1.registry.connections host.session_id ≡ some [] =
              ap (Dict.get d1.registry.connections) same
              ∙ sessions code
              ∙ (rw (eq_refl, has-none d.registry.connections code new) refl) in
            rw (web_socket_handler-joins parse jwt host socket d1 given parsed) (
              Returns-bind (join_session host socket d1) _ _ _
                (join_session-host host socket d1 free1 [] listed leads)
                (λ (hello, d2) (welcomed, (conns, enlisted), free2, tracker2).
                  let opened : d2.tracker ≡ new_session cache d.tracker code quiz =
                    tracker2 ∙ fresh in
                  let v2 : IsValid d2.tracker =
                    subst (λ (t : QuizTracker C). IsValid t) (sym opened)
                      (new_session-IsValid cache d.tracker code quiz v) in
                  let known : Dict.get d2.tracker.tracker code ≡ some (begun quiz) =
                    ap (λ (t : QuizTracker C). Dict.get t.tracker code) opened
                    ∙ new_session-begun cache d.tracker code quiz unknown in
                  let listed2 : Dict.get d2.registry.connections code
                      ≡ some (Dict.put [] host.user_id (context_of host socket)) =
                    ap (Dict.get d2.registry.connections) (sym same) ∙ enlisted in
                  let no_row : row_of d2.tracker code player.user_id ≡ none =
                    ap (λ (t : QuizTracker C). row_of t code player.user_id) opened
                    ∙ new_session-no_row cache d.tracker code quiz unknown player.user_id in
                  rw (web_socket_handler-joins parse jwt' player socket' d2 given' parsed') (
                    Returns-bind (join_session player socket' d2) _ _ _
                      (join_session-player player socket' d2 free2
                        (Dict.put [] host.user_id (context_of host socket)) listed2 (begun quiz) v2
                        known plays)
                      (λ (hello', d3) (welcomed', (conns', enlisted'), free3, w). (
                        replies hello hello' (welcome code host.user_id)
                            (welcome code player.user_id)
                            (welcomed ∙ ap (λ (c : String). welcome c host.user_id) same) welcomed',
                        record {
                          valid = w.valid;
                          free = free3;
                          quiz_begun =
                              ap (λ (m : Dict OngoingQuiz). Dict.get m code) w.same_quizzes ∙ known;
                          blank_row =
                              w.rows code player.user_id
                              ∙ (rw (eq_refl, eq_refl) (rw (known, no_row) refl));
                          host_online =
                              conns' host.session_id host.user_id
                              ∙ skipped (code == host.session_id) (player.user_id == host.user_id)
                                  (some (context_of player socket')) _ apart
                              ∙ conns host.session_id host.user_id
                              ∙ (rw (eq_refl, eq_refl) refl);
                          users_online =
                              enlisted'
                              ∙ two_entries (host.user_id) player.user_id (context_of host socket)
                                  (context_of player socket') apart;
                          player_online = conns' code player.user_id ∙ (rw (eq_refl, eq_refl) refl);
                        },
                      ))))))

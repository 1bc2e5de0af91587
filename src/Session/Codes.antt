-- ===== src/Session/Codes.antt =====
-- What is stored of a session, and which code a new one gets.
use try_it.Prelude.{
  ℕ, zero, suc, ◌+◌, ◌<◌, ◌≡◌, refl, ap, sym, subst, ◌∙◌, ◌⊎◌, inl, inr, String, true, false, none,
  some, [], ◌∷◌, arith, Bool-cases,
}
use try_it.Prelude.Dict
use try_it.Prelude.Dict.{Dict}
use try_it.Shared.Errors.{ok}
use try_it.Session.Storage.{
  Session, RedisClient, session_key, stored_fields, field, session_from, load_session, code_exist,
}
use try_it.Session.Manager.{draw_code}

-- What Redis promises of a command that it answers without an error: a hash has the fields that were
-- written and is there, and a key that was deleted is not.
pub record RedisLaws {R : Type 0} (client : RedisClient R) : Type 0 where
  pub hset_reads :
      (r r' : R) (key : String) (fields : Dict String)
      → client.hset r key fields ≡ (r', none)
      → (m : Dict String) × (client.hgetall r' key ≡ ok m)
        × ((f v : String) → Dict.get fields f ≡ some v → Dict.get m f ≡ some v)
  pub hset_exists :
      (r r' : R) (key f v : String) (fields : Dict String)
      → client.hset r key ((f, v) ∷ fields) ≡ (r', none)
      → (n : ℕ) × (client.exists r' key ≡ ok (suc n))
  pub del_exists :
      (r r' : R) (key : String) → client.del r key ≡ (r', none) → client.exists r' key ≡ ok 0

module _ (s : Session) where
  stored-id : Dict.get (stored_fields s) "id" ≡ some s.id
  unfolding Dict.get
  stored-id = refl

  stored-code : Dict.get (stored_fields s) "code" ≡ some s.code
  unfolding Dict.get
  stored-code = refl

  stored-state : Dict.get (stored_fields s) "state" ≡ some s.state
  unfolding Dict.get
  stored-state = refl

field-of_get : (m : Dict String) (f v : String) → Dict.get m f ≡ some v → field m f ≡ v
field-of_get m f v h = rw (h, field) refl

-- A hash with the fields of a session gives that session.
session_from-fields :
    (code : String) (m : Dict String) (s : Session)
    → Dict.get m "id" ≡ some s.id
    → Dict.get m "code" ≡ some s.code
    → Dict.get m "state" ≡ some s.state
    → session_from code (ok m) ≡ ok (record s { server_ws_endpoint = "" })
session_from-fields code [] s i c t = absurd (ground (arith, Dict.get-nil {V = String} "id"))
session_from-fields code (entry ∷ more) s i c t =
    rw
      (
        field-of_get (entry ∷ more) "id" s.id i,
        field-of_get (entry ∷ more) "code" s.code c,
        field-of_get (entry ∷ more) "state" s.state t,
      )
      refl

module _ {R : Type 0} (client : RedisClient R) where
  -- The code of the first try that is free, or the last try's.
  abbrev pub IsDrawn : (ℕ → String) → R → ℕ → ℕ → String → Type 0
  IsDrawn codes r i left code =
      (k : ℕ) × (k < left)
      × (code ≡ codes (i + k))
      × ((code_exist client r code ≡ false) ⊎ (suc k ≡ left))
      × ((j : ℕ) → j < k → code_exist client r (codes (i + j)) ≡ true)

  module _ (codes : ℕ → String) (r : R) where
    draw_code-none : (i : ℕ) (last : String) → draw_code client zero i codes last r ≡ last
    unfolding draw_code
    draw_code-none i last = refl

    draw_code-free :
        (left i : ℕ) (last : String)
        → code_exist client r (codes i) ≡ false
        → draw_code client (suc left) i codes last r ≡ codes i
    unfolding draw_code
    draw_code-free left i last e = rw e refl

    draw_code-taken :
        (left i : ℕ) (last : String)
        → code_exist client r (codes i) ≡ true
        → draw_code client (suc left) i codes last r
          ≡ draw_code client left (suc i) codes (codes i) r
    unfolding draw_code
    draw_code-taken left i last e = rw e refl

    earlier :
        (i k : ℕ)
        → code_exist client r (codes i) ≡ true
        → ((j : ℕ) → j < k → code_exist client r (codes (suc i + j)) ≡ true)
        → (j : ℕ) → j < suc k
        → code_exist client r (codes (i + j)) ≡ true
    earlier i k taken all zero h =
        subst (λ (n : ℕ). code_exist client r (codes n) ≡ true) (omega arith) taken
    earlier i k taken all (suc j) h =
        subst (λ (n : ℕ). code_exist client r (codes n) ≡ true) (omega arith) (all j (omega arith))

    IsDrawn-later :
        (left i : ℕ) (code : String)
        → code_exist client r (codes i) ≡ true
        → IsDrawn codes r (suc i) left code
        → IsDrawn codes r i (suc left) code
    IsDrawn-later left i code taken (k, low, same, end, all) = (
      suc k,
      omega arith,
      same ∙ ap codes (omega arith),
      elim end [ inl free ↦ inl free | inr last ↦ inr (ap suc last) ],
      earlier i k taken all,
    )

    IsDrawn-now :
        (left i : ℕ)
        → (code_exist client r (codes i) ≡ false) ⊎ (1 ≡ suc left)
        → IsDrawn codes r i (suc left) (codes i)
    IsDrawn-now left i h =
        (0, omega arith, ap codes (omega arith), h, λ j low. absurd (omega arith))

    pub draw_code-IsDrawn :
        (left i : ℕ) (last : String)
        → IsDrawn codes r i (suc left) (draw_code client (suc left) i codes last r)
    draw_code-IsDrawn zero i last = elim (Bool-cases (code_exist client r (codes i))) [
      | inr free ↦
          subst (IsDrawn codes r i 1) (sym (draw_code-free zero i last free))
            (IsDrawn-now zero i (inr refl))
      | inl taken ↦
          let e = draw_code-taken zero i last taken ∙ draw_code-none (suc i) (codes i) in
          subst (IsDrawn codes r i 1) (sym e) (IsDrawn-now zero i (inr refl))
    ]
    draw_code-IsDrawn (suc left) i last = elim (Bool-cases (code_exist client r (codes i))) [
      | inr free ↦
          subst (IsDrawn codes r i (suc (suc left))) (sym (draw_code-free (suc left) i last free))
            (IsDrawn-now (suc left) i (inl free))
      | inl taken ↦
          subst (IsDrawn codes r i (suc (suc left))) (sym (draw_code-taken (suc left) i last taken))
            (IsDrawn-later (suc left) i (draw_code client (suc left) (suc i) codes (codes i) r)
              taken (draw_code-IsDrawn left (suc i) (codes i)))
    ]

  module _ (laws : RedisLaws client) where
    open laws use {hset_reads, hset_exists, del_exists}

    -- What a session that was saved reads back as: its endpoint is not stored.
    pub load_session-saved :
        (r r' : R) (s : Session)
        → client.hset r (session_key s.code) (stored_fields s) ≡ (r', none)
        → load_session client r' s.code ≡ ok (record s { server_ws_endpoint = "" })
    unfolding load_session
    load_session-saved r r' s h =
        let (m, read, fields) = hset_reads r r' (session_key s.code) (stored_fields s) h in
        rw read (
          session_from-fields s.code m s (fields "id" s.id (stored-id s))
            (fields "code" s.code (stored-code s)) (fields "state" s.state (stored-state s)))

    pub code_exist-saved :
        (r r' : R) (s : Session)
        → client.hset r (session_key s.code) (stored_fields s) ≡ (r', none)
        → code_exist client r' s.code ≡ true
    unfolding code_exist
    code_exist-saved r r' s h =
        let (n, there) =
          hset_exists r r' (session_key s.code) "id" s.id
            (("code", s.code) ∷ ("state", s.state) ∷ []) h in
        rw (there, code_exist) (ground arith)

    pub code_exist-deleted :
        (r r' : R) (code : String)
        → client.del r (session_key code) ≡ (r', none)
        → code_exist client r' code ≡ false
    unfolding code_exist
    code_exist-deleted r r' code h = rw (del_exists r r' (session_key code) h, code_exist) refl

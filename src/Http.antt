-- ===== src/Http.antt =====
-- What the handlers of backend-go/SessionService/Handlers and backend-go/LeaderBoardService/Handlers
-- use of net/http: the status that a response has, and the values that are encoded into its body,
-- of type `B`. Of the headers only the status is modelled.
use try_it.Prelude.{ℕ, Bool, true, false, Option, none, some, List, [], ◌∷◌, ◌++◌}

pub data Method : Type 0 where
  get post put delete options other : Method

-- `r.Method == http.MethodPost`
abbrev pub is_post : Method → Bool
is_post post = true
is_post _ = false

-- `status` is none until the header is written.
pub record Response (B : Type 0) : Type 0 where
  pub status : Option ℕ
  pub body : List B

abbrev pub no_response : {B : Type 0} → Response B
no_response = record { status = none; body = [] }

abbrev or_status : Option ℕ → ℕ → Option ℕ
or_status none code = some code
or_status (some c) code = some c

-- `WriteHeader`: the first status that is written stays.
abbrev pub write_header : {B : Type 0} → ℕ → Response B → Response B
write_header code w = record w { status = or_status w.status code }

-- `Encode` of a value whose bytes the connection takes; a body without a status is a 200.
abbrev pub encode : {B : Type 0} → B → Response B → Response B
encode b w = record { status = or_status w.status 200; body = w.body ++ b ∷ [] }

-- `Encode` where `sent` says whether the connection takes the bytes: the value, and no error.
abbrev pub try_encode : {B : Type 0} → Bool → B → Response B → Bool × Response B
try_encode true b w = (true, encode b w)
try_encode false b w = (false, write_header 200 w)

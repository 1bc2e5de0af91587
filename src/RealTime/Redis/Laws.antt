-- ===== src/RealTime/Redis/Laws.antt =====
-- What the client of backend-go/real_time/cache/redis relies on: the documented behaviour of the
-- commands of a server that answers, on keys that do not expire meanwhile, and of JSON documents.
use try_it.Prelude.{
  ℕ, suc, ◌≤◌, String, ◌≡◌, ◌≢◌, ◌↔◌, ◌==◌, true, Option, none, some, List, [], ◌∷◌, ◌++◌,
  if◌then◌else◌,
}
use try_it.Prelude.Dict
use try_it.Prelude.Dict.{Dict}
use try_it.Prelude.Text.{join, is_in}
use try_it.Shared.Errors.{Result, ok, err}
use try_it.Shared.Name.{IsPlain}
use try_it.RealTime.Redis.{RedisCommands, Json}

-- What a key holds.
pub data Entry : Type 0 where
  plain : String → Entry
  hash : Dict String → Entry

-- The reply to GET, HGETALL and the hash that HSET adds to.
abbrev pub text_of : Option Entry → Result String
text_of none = err "redis: nil"
text_of (some (plain s)) = ok s
text_of (some (hash h)) = err "WRONGTYPE"

abbrev pub hash_of : Option Entry → Result (Dict String)
hash_of none = ok []
hash_of (some (plain s)) = err "WRONGTYPE"
hash_of (some (hash h)) = ok h

-- The key after HSET of one field.
abbrev pub with_field : Option Entry → String → String → Option Entry
with_field none f v = some (hash ((f, v) ∷ []))
with_field (some (plain s)) f v = some (plain s)
with_field (some (hash h)) f v = some (hash (Dict.put h f v))

module _ {R : Type 0} (redis : RedisCommands R) (r : R) (pattern : String) where
  -- The calls of SCAN from a cursor on, to the one that gives the cursor 0: the keys of all pages and
  -- how many calls there are.
  pub data Pages : ℕ → List String → ℕ → Type 0 where
    last :
        (cursor : ℕ) (keys : List String)
        → redis.scan r cursor pattern 100 ≡ ok (keys, 0)
        → Pages cursor keys 1
    more :
        (cursor next : ℕ) (keys rest : List String) (n : ℕ)
        → redis.scan r cursor pattern 100 ≡ ok (keys, suc next)
        → Pages (suc next) rest n
        → Pages cursor (keys ++ rest) (suc n)

-- A key that is there and has the pattern `pre*suf`.
abbrev pub IsMatch : (String → Option Entry) → String → String → String → Type 0
IsMatch entry pre suf key =
    (entry key ≢ none) × ((middle : String) × (key ≡ join pre (join middle suf)))

pub record CommandLaws {R : Type 0} (redis : RedisCommands R) (rounds : R → ℕ) : Type 0 where
  -- What the keys of the server hold.
  pub entry : R → String → Option Entry
  pub get_reads : (r : R) (k : String) → redis.get r k ≡ text_of (entry r k)
  pub hgetall_reads : (r : R) (k : String) → redis.hgetall r k ≡ hash_of (entry r k)
  pub set_works : (r : R) (k v : String) (ttl : ℕ) → (redis.set r k v ttl).1 ≡ none
  pub set_writes :
      (r : R) (k v : String) (ttl : ℕ) (j : String)
      → entry (redis.set r k v ttl).0 j ≡ (if k == j then some (plain v) else entry r j)
  pub del_works : (r : R) (ks : List String) → (redis.del r ks).1 ≡ none
  pub del_writes :
      (r : R) (ks : List String) (j : String)
      → entry (redis.del r ks).0 j ≡ (if is_in j ks then none else entry r j)
  pub hset_writes :
      (r : R) (k f v j : String)
      → entry (redis.hset r k f v).0 j ≡ (if k == j then with_field (entry r k) f v else entry r j)
  -- A full iteration ends, and it gives every key that is there and matches, some perhaps more than
  -- once, and no other.
  pub scan_ends :
      (r : R) (pre suf : String)
      → IsPlain pre
      → IsPlain suf
      → (keys : List String) × (n : ℕ) × Pages redis r (join pre (join "*" suf)) 0 keys n
        × (n ≤ rounds r)
        × ((key : String) → (is_in key keys ≡ true) ↔ IsMatch (entry r) pre suf key)

-- Every value has a document, and a document reads back as the value.
pub record JsonLaws {A : Type 0} (json : Json A) : Type 0 where
  pub marshal_works : (a : A) → (s : String) × (json.marshal a ≡ ok s)
  pub unmarshal_reads : (a : A) (s : String) → json.marshal a ≡ ok s → json.unmarshal s ≡ ok a

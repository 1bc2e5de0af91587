-- ===== src/Examples/Codec.antt =====
-- Documents for the examples of the store: each value is written as a text that starts with it, and
-- reads back with what follows it.
use Prim.Native.Char.{Char, code}
use try_it.Prelude.{
  ℕ, zero, suc, ◌≡◌, refl, ap, subst, ◌∙◌, String, Bool, true, false, Option, none, some, List, [],
  ◌∷◌, length, if◌then◌else◌, nat_eq,
}
use try_it.Prelude.Int.{ℤ, pos, negsuc}
use try_it.Shared.Errors.{Result, ok, err}
use try_it.Shared.Quiz.{AnswerOption, Question, OngoingQuiz, UserAnswer}
use try_it.RealTime.Redis.{Json}
use try_it.RealTime.Redis.Laws.{JsonLaws}

pub record Codec (A : Type 0) : Type 0 where
  pub write : A → String → String
  pub read : String → Option (A × String)
  pub reads : (a : A) (t : String) → read (write a t) ≡ some (a, t)

-- One bit, and the rest of the text behind it.
abbrev with_bit : Bool → String → String
with_bit b t = if b then String.◌∷◌ "1" t else String.◌∷◌ "0" t

read_bit : String → Option (Bool × String)
read_bit String.[] = none
read_bit (String.◌∷◌ c t) = some (nat_eq (code c) b'1', t)

write_nat : ℕ → String → String
write_nat zero t = with_bit false t
write_nat (suc n) t = with_bit true (write_nat n t)

abbrev one_up : Option (ℕ × String) → Option (ℕ × String)
one_up none = none
one_up (some (n, t)) = some (suc n, t)

read_nat : String → Option (ℕ × String)
read_nat String.[] = none
read_nat (String.◌∷◌ c t) =
    let rest = read_nat t in if nat_eq (code c) b'1' then one_up rest else some (0, t)

read_nat-write_nat : (n : ℕ) (t : String) → read_nat (write_nat n t) ≡ some (n, t)
unfolding read_nat write_nat
read_nat-write_nat zero t = refl
read_nat-write_nat (suc n) t = ap one_up (read_nat-write_nat n t)

abbrev nat : Codec ℕ
nat = record { write = write_nat; read = read_nat; reads = read_nat-write_nat }

-- A codec for what two functions take to another type and back.
abbrev then_read :
    {A B : Type 0} → Option (A × String) → (A → String → Option (B × String)) → Option (B × String)
then_read none f = none
then_read (some (a, t)) f = f a t

abbrev through :
    {A B : Type 0} (c : Codec A) (to : B → A) (from : A → B) → ((b : B) → from (to b) ≡ b) → Codec B
through c to from back = record {
  write = λ b t. c.write (to b) t;
  read = λ s. then_read (c.read s) (λ a t. some (from a, t));
  reads = λ b t.
      ap (λ (o : Option (_ × String)). then_read o (λ a u. some (from a, u))) (c.reads (to b) t)
      ∙ ap (λ (x : _). some (x, t)) (back b);
}

abbrev both : {A B : Type 0} → Codec A → Codec B → Codec (A × B)
both c d = record {
  write = λ (a, b) t. c.write a (d.write b t);
  read = λ s. then_read (c.read s) (λ a t. then_read (d.read t) (λ b u. some ((a, b), u)));
  reads = λ (a, b) t.
      ap
        (λ (o : Option (_ × String)).
          then_read o (λ a' t'. then_read (d.read t') (λ b' u. some ((a', b'), u))))
        (c.reads a (d.write b t))
      ∙ ap (λ (o : Option (_ × String)). then_read o (λ b' u. some ((a, b'), u))) (d.reads b t);
}

write_text : String → String → String
write_text String.[] t = with_bit false t
write_text (String.◌∷◌ c s) t = with_bit true (String.◌∷◌ c (write_text s t))

abbrev and_char : Char → Option (String × String) → Option (String × String)
and_char c none = none
and_char c (some (s, t)) = some (String.◌∷◌ c s, t)

read_text : String → Option (String × String)
read_text String.[] = none
read_text (String.◌∷◌ b String.[]) = some ("", "")
read_text (String.◌∷◌ b (String.◌∷◌ c t)) =
    let rest = read_text t in
    if nat_eq (code b) b'1' then and_char c rest else some ("", String.◌∷◌ c t)

read_text-write_text : (s t : String) → read_text (write_text s t) ≡ some (s, t)
unfolding read_text write_text
read_text-write_text String.[] String.[] = refl
read_text-write_text String.[] (String.◌∷◌ c t) = refl
read_text-write_text (String.◌∷◌ c s) t = ap (and_char c) (read_text-write_text s t)

abbrev text : Codec String
text = record { write = write_text; read = read_text; reads = read_text-write_text }

module _ {A : Type 0} (c : Codec A) where
  write_all : List A → String → String
  write_all [] t = t
  write_all (x ∷ xs) t = c.write x (write_all xs t)

  abbrev and_more : A → Option (List A × String) → Option (List A × String)
  and_more x none = none
  and_more x (some (xs, t)) = some (x ∷ xs, t)

  read_all : ℕ → String → Option (List A × String)
  read_all zero s = some ([], s)
  read_all (suc n) s = then_read (c.read s) (λ x t. and_more x (read_all n t))

  read_all-write_all :
      (xs : List A) (t : String) → read_all (length xs) (write_all xs t) ≡ some (xs, t)
  unfolding read_all write_all
  read_all-write_all [] t = refl
  read_all-write_all (x ∷ xs) t =
      ap (λ (o : Option (A × String)). then_read o (λ y u. and_more y (read_all (length xs) u)))
        (c.reads x (write_all xs t))
      ∙ ap (and_more x) (read_all-write_all xs t)

abbrev list : {A : Type 0} → Codec A → Codec (List A)
list c = record {
  write = λ xs t. write_nat (length xs) (write_all c xs t);
  read = λ s. then_read (read_nat s) (λ n t. read_all c n t);
  reads = λ xs t.
      ap (λ (o : Option (ℕ × String)). then_read o (λ n u. read_all c n u))
        (read_nat-write_nat (length xs) (write_all c xs t))
      ∙ read_all-write_all c xs t;
}

flag_back : (b : Bool) → nat_eq (if b then 1 else 0) 1 ≡ b
flag_back true = refl
flag_back false = refl

abbrev flag : Codec Bool
flag = through nat (λ (b : Bool). if b then 1 else 0) (λ n. nat_eq n 1) flag_back

abbrev int_parts : ℤ → Bool × ℕ
int_parts (pos n) = (true, n)
int_parts (negsuc n) = (false, n)

abbrev int_of : Bool × ℕ → ℤ
int_of (true, n) = pos n
int_of (false, n) = negsuc n

int_back : (i : ℤ) → int_of (int_parts i) ≡ i
int_back (pos n) = refl
int_back (negsuc n) = refl

abbrev int : Codec ℤ
int = through (both flag nat) int_parts int_of int_back

abbrev option : Codec AnswerOption
option =
    through (both text flag) (λ o. (o.text, o.is_correct))
      (λ (t, c). record { text = t; is_correct = c }) (λ o. refl)

abbrev question : Codec Question
question =
    through (both text (both text (both text (list option))))
      (λ q. (q.kind, (q.text, (q.image_url, q.options))))
      (λ (k, (t, (u, os))). record { kind = k; text = t; image_url = u; options = os }) (λ q. refl)

abbrev ongoing : Codec OngoingQuiz
ongoing =
    through (both int (list question)) (λ q. (q.curr_question_idx, q.quiz_data.questions))
      (λ (i, qs). record { curr_question_idx = i; quiz_data = record { questions = qs } })
      (λ q. refl)

abbrev user_answer : Codec UserAnswer
user_answer =
    through (both flag (both int (both flag int)))
      (λ a. (a.answered, (a.option, (a.correct, a.timestamp))))
      (λ (w, (o, (c, t))). record { answered = w; option = o; correct = c; timestamp = t })
      (λ a. refl)

-- The documents of a codec.
abbrev value_read : {A : Type 0} → Option (A × String) → Result A
value_read none = err "unexpected end of JSON input"
value_read (some (a, t)) = ok a

abbrev documents : {A : Type 0} → Codec A → Json A
documents c = record { marshal = λ a. ok (c.write a ""); unmarshal = λ s. value_read (c.read s) }

abbrev body_of : Result String → String
body_of (ok s) = s
body_of (err e) = ""

documents-JsonLaws : {A : Type 0} (c : Codec A) → JsonLaws (documents c)
documents-JsonLaws c = record {
  marshal_works = λ a. (c.write a "", refl);
  unmarshal_reads = λ a s e.
      subst (λ (u : String). value_read (c.read u) ≡ ok a) (ap body_of e)
        (ap value_read (c.reads a ""));
}

pub quiz_documents : (json : Json OngoingQuiz) × JsonLaws json
quiz_documents = (documents ongoing, documents-JsonLaws ongoing)

pub answer_documents : (json : Json UserAnswer) × JsonLaws json
answer_documents = (documents user_answer, documents-JsonLaws user_answer)

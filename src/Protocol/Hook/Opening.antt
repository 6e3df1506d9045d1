-- ===== src/Protocol/Hook/Opening.antt =====
-- The text of a JSON value before the reading of the health report in
-- freezeitDaemon/src/protocol/xposed.rs: how it begins, the values without others, and the opening
-- of an array or an object.
use freezeit_cos.Base.{
  ℕ, ◌+◌, ◌≤◌, List, [], ◌∷◌, ◌++◌, Option, none, some, true, false, ltb, ◌||◌, ◌==◌, leb, txt, ◌≡◌,
  refl, ap, ◌∙◌, ◌⊎◌, inl, inr, arith, Text, if◌then◌else◌,
}
use freezeit_cos.Protocol.Bytes.{Bytes}
use freezeit_cos.Protocol.Hook.{
  StringMode, string_step, string_body, parse_json_string, skip_json_whitespace, skip_number,
  consume_json_literal, bind, Skipped, after_string, value, members, elements, at_scalar, open_with,
  at_value, skip_step, skip_json,
}
use freezeit_cos.Protocol.Hook.Recursion.{skip_json-recursion}
use freezeit_cos.Protocol.Hook.Json.{
  Json, null, boolean, number, string, empty_array, empty_object, array, object, Elements,
  last_element, element, Members, last_member, member, digit, render_digits, render_character,
  render_characters, render, render_elements, render_members, nesting, ends_number, within_limit,
}

skip_number-digits :
    (ns : List ℕ) (rest : Bytes)
    → ends_number rest ≡ true
    → skip_number (render_digits ns rest) ≡ rest
unfolding skip_number render_digits
skip_number-digits [] [] h = refl
skip_number-digits [] (c ∷ rest) h = ground arith
skip_number-digits (n ∷ ns) rest h = ground (arith, skip_number-digits ns rest h)

-- The text that was read, with one more character.
abbrev with_character : ℕ → Text → Text
with_character c v =
    if c == b'"' || c == 92
    then (v ++ []) ++ c ∷ []
    else if ltb c 32
    then (((((v ++ []) ++ []) ++ []) ++ []) ++ []) ++ b'?' ∷ []
    else v ++ c ∷ []

string_body-character :
    (c : ℕ) (v : Text) (s : Bytes)
    → string_body StringMode.plain v (render_character c s)
      ≡ string_body StringMode.plain (with_character c v) s
unfolding string_body string_step
string_body-character c v s = ground arith

pub after_characters {ℓ} :
    {B : Type ℓ} (cs v : Text) (rest : Bytes) (f : Bytes → Option B)
    → bind (string_body StringMode.plain v (render_characters cs rest)) (λ p. f p.1) ≡ f rest
unfolding render_characters string_body string_step
after_characters [] v rest f = refl
after_characters (c ∷ cs) v rest f =
    ap (λ (o : Option (Text × Bytes)). bind o λ p. f p.1)
      (string_body-character c v (render_characters cs rest))
    ∙ after_characters cs _ rest f

-- A rendered value has no white space before it.
value_first : (j : Json) (rest : Bytes) → skip_json_whitespace (render j rest) ≡ render j rest
unfolding skip_json_whitespace render txt
value_first null rest = refl
value_first (boolean true) rest = refl
value_first (boolean false) rest = refl
value_first (number n ns) rest = ground arith
value_first (string s) rest = refl
value_first empty_array rest = refl
value_first empty_object rest = refl
value_first (array es) rest = refl
value_first (object ms) rest = refl

-- It does not close an array.
open_value :
    (j : Json) (rest : Bytes) (what : Skipped)
    → open_with skip_json b']' what (render j rest) ≡ skip_json what (render j rest)
unfolding open_with render txt
open_value null rest what = refl
open_value (boolean true) rest what = refl
open_value (boolean false) rest what = refl
open_value (number n ns) rest what = ground arith
open_value (string s) rest what = refl
open_value empty_array rest what = refl
open_value empty_object rest what = refl
open_value (array es) rest what = refl
open_value (object ms) rest what = refl

pub elements_first :
    (es : Elements) (rest : Bytes)
    → skip_json_whitespace (render_elements es rest) ≡ render_elements es rest
unfolding render_elements
elements_first (last_element j) rest = value_first j _
elements_first (element j es) rest = value_first j _

open_elements :
    (es : Elements) (rest : Bytes) (what : Skipped)
    → open_with skip_json b']' what (render_elements es rest)
      ≡ skip_json what (render_elements es rest)
unfolding render_elements
open_elements (last_element j) rest what = open_value j _ what
open_elements (element j es) rest what = open_value j _ what

-- The values without an array or an object.
number_step :
    (d n : ℕ) (ns : List ℕ) (rest : Bytes)
    → ends_number rest ≡ true
    → at_value skip_json d (digit n ∷ render_digits ns rest) ≡ some rest
unfolding at_value at_scalar skip_number
number_step d n ns rest h = ground (arith, skip_number-digits ns rest h)

after_string-bind : (o : Option (Text × Bytes)) → after_string o ≡ bind o λ p. some p.1
after_string-bind none = refl
after_string-bind (some p) = refl

scalar_step :
    (j : Json) (d : ℕ) (rest : Bytes)
    → nesting j ≡ 0
    → ends_number rest ≡ true
    → at_value skip_json d (render j rest) ≡ some rest
unfolding at_value at_scalar consume_json_literal parse_json_string render nesting txt
scalar_step null d rest z h = refl
scalar_step (boolean true) d rest z h = refl
scalar_step (boolean false) d rest z h = refl
scalar_step (number n ns) d rest z h = number_step d n ns rest h
scalar_step (string s) d rest z h =
    after_string-bind (string_body StringMode.plain [] (render_characters s rest))
    ∙ after_characters s [] rest some
scalar_step empty_array d rest z h = absurd (omega (arith, z))
scalar_step empty_object d rest z h = absurd (omega (arith, z))
scalar_step (array es) d rest z h = absurd (omega (arith, z))
scalar_step (object ms) d rest z h = absurd (omega (arith, z))

pub value_step :
    (j : Json) (d : ℕ) (rest : Bytes)
    → skip_json (value d) (render j rest) ≡ at_value skip_json d (render j rest)
unfolding skip_step
value_step j d rest =
    skip_json-recursion (value d) (render j rest) ∙ ap (at_value skip_json d) (value_first j rest)

pub scalar_lem :
    (j : Json) (d : ℕ) (rest : Bytes)
    → nesting j ≡ 0
    → d ≤ 64
    → ends_number rest ≡ true
    → skip_json (value d) (render j rest) ≡ within_limit (d + nesting j) rest
scalar_lem j d rest z l h = ground (arith, value_step j d rest, scalar_step j d rest z h)

pub bind-within :
    (n : ℕ) (rest : Bytes) (f : Bytes → Option Bytes)
    → bind (within_limit n rest) f ≡ (if leb n 64 then f rest else none)
bind-within n rest f = ground arith

-- An array or an object is opened below the limit only.
pub open_array :
    (es : Elements) (d : ℕ) (rest : Bytes)
    → at_value skip_json d (b'[' ∷ render_elements es rest)
      ≡ (if leb 64 d then none else skip_json (elements d) (render_elements es rest))
unfolding at_value
open_array es d rest = ground (arith, elements_first es rest, open_elements es rest (elements d))

pub open_object :
    (ms : Members) (d : ℕ) (rest : Bytes)
    → at_value skip_json d (b'{' ∷ render_members ms rest)
      ≡ (if leb 64 d then none else skip_json (members d) (render_members ms rest))
unfolding at_value render_members open_with skip_json_whitespace
open_object (last_member key j) d rest = ground arith
open_object (member key j ms) d rest = ground arith

pub open_empty :
    (j : Json) (d : ℕ) (rest : Bytes)
    → (j ≡ empty_array) ⊎ (j ≡ empty_object)
    → at_value skip_json d (render j rest) ≡ (if leb 64 d then none else some rest)
unfolding at_value render open_with skip_json_whitespace
open_empty j d rest (inl e) = rw e (ground arith)
open_empty j d rest (inr e) = rw e (ground arith)

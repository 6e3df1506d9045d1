-- ===== src/Protocol/Hook/Skipping.antt =====
-- Skipping the text of a JSON value: `skip_json_value` of freezeitDaemon/src/protocol/xposed.rs.
use freezeit_cos.Base.{
  ℕ, ◌+◌, ◌≤◌, max, [], ◌∷◌, Option, none, some, true, leb, ◌≡◌, refl, ap, ◌∙◌, inl, inr, arith,
  Text, if◌then◌else◌,
}
use freezeit_cos.Protocol.Bytes.{Bytes}
use freezeit_cos.Protocol.Hook.{
  parse_json_string, skip_json_whitespace, bind, value, members, elements, after_member, after_key,
  after_element, skip_step, skip_json,
}
use freezeit_cos.Protocol.Hook.Recursion.{skip_json-recursion}
use freezeit_cos.Protocol.Hook.Json.{
  Json, null, boolean, number, string, empty_array, empty_object, array, object, Elements,
  last_element, element, Members, last_member, member, render_string, render, render_elements,
  render_members, nesting, nesting_elements, nesting_members, ends_number, within_limit,
}
use freezeit_cos.Protocol.Hook.Opening.{
  after_characters, elements_first, scalar_lem, value_step, bind-within, open_array, open_object,
  open_empty,
}

-- The first of several values, and what comes after it.
element_lem :
    (j : Json) (d n : ℕ) (tail : Bytes)
    → skip_json (value (d + 1)) (render j tail) ≡ within_limit n tail
    → skip_json (elements d) (render j tail)
      ≡ (if leb n 64 then after_element skip_json d (skip_json_whitespace tail) else none)
unfolding skip_step
element_lem j d n tail e =
    skip_json-recursion (elements d) (render j tail)
    ∙ ap
        (λ (o : Option Bytes). bind o λ rest. after_element skip_json d (skip_json_whitespace rest))
        e
    ∙ bind-within n tail λ rest. after_element skip_json d (skip_json_whitespace rest)

member_lem :
    (key : Text) (j : Json) (d n : ℕ) (tail : Bytes)
    → skip_json (value (d + 1)) (render j tail) ≡ within_limit n tail
    → skip_json (members d) (render_string key (b':' ∷ render j tail))
      ≡ (if leb n 64 then after_member skip_json d (skip_json_whitespace tail) else none)
unfolding skip_step parse_json_string
member_lem key j d n tail e =
    skip_json-recursion (members d) (render_string key (b':' ∷ render j tail))
    ∙ after_characters key [] (b':' ∷ render j tail)
        (λ rest. after_key skip_json d (skip_json_whitespace rest))
    ∙ key_lem
  where
    key_lem :
        after_key skip_json d (skip_json_whitespace (b':' ∷ render j tail))
        ≡ (if leb n 64 then after_member skip_json d (skip_json_whitespace tail) else none)
    key_lem =
        unfold after_key skip_json_whitespace in
        (ap
            (λ (o : Option Bytes).
              bind o λ rest. after_member skip_json d (skip_json_whitespace rest))
            e
          ∙ bind-within n tail λ rest. after_member skip_json d (skip_json_whitespace rest))

element_closed :
    (d : ℕ) (rest : Bytes)
    → after_element skip_json d (skip_json_whitespace (b']' ∷ rest)) ≡ some rest
unfolding after_element skip_json_whitespace
element_closed d rest = refl

element_more :
    (es : Elements) (d : ℕ) (rest : Bytes)
    → after_element skip_json d (skip_json_whitespace (b',' ∷ render_elements es rest))
      ≡ skip_json (elements d) (render_elements es rest)
unfolding after_element skip_json_whitespace
element_more es d rest = ap (skip_json (elements d)) (elements_first es rest)

member_closed :
    (d : ℕ) (rest : Bytes)
    → after_member skip_json d (skip_json_whitespace (b'}' ∷ rest)) ≡ some rest
unfolding after_member skip_json_whitespace
member_closed d rest = refl

member_more :
    (ms : Members) (d : ℕ) (rest : Bytes)
    → after_member skip_json d (skip_json_whitespace (b',' ∷ render_members ms rest))
      ≡ skip_json (members d) (render_members ms rest)
unfolding after_member skip_json_whitespace render_members
member_more (last_member key j) d rest = refl
member_more (member key j ms) d rest = refl

within-max :
    (d m n : ℕ) (rest : Bytes)
    → (if leb (d + 1 + m) 64 then within_limit (d + 1 + n) rest else none)
      ≡ within_limit (d + 1 + max m n) rest
within-max d m n rest = ground arith

mutual
  unfolding render nesting

  skip_value :
      (j : Json) (d : ℕ) (rest : Bytes)
      → d ≤ 64
      → ends_number rest ≡ true
      → skip_json (value d) (render j rest) ≡ within_limit (d + nesting j) rest
  skip_value null d rest l h = scalar_lem null d rest refl l h
  skip_value (boolean b) d rest l h = scalar_lem (boolean b) d rest refl l h
  skip_value (number n ns) d rest l h = scalar_lem (number n ns) d rest refl l h
  skip_value (string s) d rest l h = scalar_lem (string s) d rest refl l h
  skip_value empty_array d rest l h =
      ground (arith, value_step empty_array d rest, open_empty empty_array d rest (inl refl))
  skip_value empty_object d rest l h =
      ground (arith, value_step empty_object d rest, open_empty empty_object d rest (inr refl))
  skip_value (array es) d rest l h =
      ground (arith, value_step (array es) d rest, open_array es d rest, skip_elements es d rest)
  skip_value (object ms) d rest l h =
      ground (arith, value_step (object ms) d rest, open_object ms d rest, skip_members ms d rest)

  skip_elements :
      (es : Elements) (d : ℕ) (rest : Bytes)
      → d + 1 ≤ 64
      → skip_json (elements d) (render_elements es rest)
        ≡ within_limit (d + 1 + nesting_elements es) rest
  skip_elements (last_element j) d rest l =
      let tail = b']' ∷ rest in
      ground (
        arith,
        element_lem j d (d + 1 + nesting j) tail (skip_value j (d + 1) tail l refl),
        element_closed d rest,
      )
  skip_elements (element j es) d rest l =
      let tail = b',' ∷ render_elements es rest in
      element_lem j d (d + 1 + nesting j) tail (skip_value j (d + 1) tail l refl)
      ∙ ap (λ (o : Option Bytes). if leb (d + 1 + nesting j) 64 then o else none)
          (element_more es d rest ∙ skip_elements es d rest l)
      ∙ within-max d (nesting j) (nesting_elements es) rest

  skip_members :
      (ms : Members) (d : ℕ) (rest : Bytes)
      → d + 1 ≤ 64
      → skip_json (members d) (render_members ms rest)
        ≡ within_limit (d + 1 + nesting_members ms) rest
  skip_members (last_member key j) d rest l =
      let tail = b'}' ∷ rest in
      ground (
        arith,
        member_lem key j d (d + 1 + nesting j) tail (skip_value j (d + 1) tail l refl),
        member_closed d rest,
      )
  skip_members (member key j ms) d rest l =
      let tail = b',' ∷ render_members ms rest in
      member_lem key j d (d + 1 + nesting j) tail (skip_value j (d + 1) tail l refl)
      ∙ ap (λ (o : Option Bytes). if leb (d + 1 + nesting j) 64 then o else none)
          (member_more ms d rest ∙ skip_members ms d rest l)
      ∙ within-max d (nesting j) (nesting_members ms) rest

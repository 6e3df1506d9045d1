-- ===== src/Protocol/Hook/Fields/Rounds.antt =====
-- The loop that the source writes for the top-level fields, and the bound on its rounds.
use freezeit_cos.Base.{
  ℕ, zero, suc, ◌+◌, ◌≤◌, ◌<◌, Text, beq, list_key, nat_key, [], ◌∷◌, length, Option, some, true,
  false, ◌==◌, ◌≡◌, refl, ap, ◌∙◌, arith,
}
use freezeit_cos.Protocol.Bytes.{Bytes}
use freezeit_cos.Protocol.Hook.{
  skip_json_whitespace, parse_json_string, bind, value, skip_json, skip_json_value, calls_for,
}
use freezeit_cos.Protocol.Hook.Fuel.{
  length-skip_json_whitespace, length-parse_json_string, skip_within-Shrinks,
}
use freezeit_cos.Protocol.Hook.Recursion.{bind-ext}
use freezeit_cos.Protocol.Hook.Fields.{
  closing, after_field, field_value, after_name, next_field, field_step, fields_within, fields,
}

-- Two ways to go on that agree on fewer than `n` bytes.
module _ (field : Text) (p q : Option Text → Bytes → Option (Option Text)) (n : ℕ)
    (agree : (found : Option Text) (s : Bytes) → length s < n → p found s ≡ q found s) where
  after_field-agree :
      (found : Option Text) (s : Bytes)
      → length s ≤ n
      → after_field field p found s ≡ after_field field q found s
  unfolding after_field
  after_field-agree found [] h = refl
  after_field-agree found (c ∷ s) h = ground (arith, agree found s)

  skip_json_value-shrinks : (s r : Bytes) → skip_json_value 0 s ≡ some r → length r ≤ length s
  unfolding skip_json
  skip_json_value-shrinks s r h = skip_within-Shrinks (calls_for (value 0) s + 1) (value 0) s r h

  field_value-agree :
      (found : Option Text) (key : Text) (s : Bytes)
      → length s ≤ n
      → field_value field p found key s ≡ field_value field q found key s
  unfolding field_value
  field_value-agree found key s h =
      ap {B = Option (Option Text)}
        (λ (o : Option (Option Text)). elim (beq key field) [
          | true ↦ o
          | false ↦
              bind (skip_json_value 0 s)
                λ rest. after_field field p found (skip_json_whitespace rest)
        ])
        (bind-ext (parse_json_string s)
          (λ v. after_field field p (some v.0) (skip_json_whitespace v.1))
          (λ v. after_field field q (some v.0) (skip_json_whitespace v.1))
          λ v e.
            after_field-agree (some v.0) (skip_json_whitespace v.1)
              (ground (arith, length-parse_json_string s v e, length-skip_json_whitespace v.1)))
      ∙ ap {B = Option (Option Text)}
          (λ (o : Option (Option Text)). elim (beq key field) [
            | true ↦
                bind (parse_json_string s)
                  λ v. after_field field q (some v.0) (skip_json_whitespace v.1)
            | false ↦ o
          ])
          (bind-ext (skip_json_value 0 s)
            (λ rest. after_field field p found (skip_json_whitespace rest))
            (λ rest. after_field field q found (skip_json_whitespace rest))
            λ rest e.
              after_field-agree found (skip_json_whitespace rest) (
                ground (arith, skip_json_value-shrinks s rest e, length-skip_json_whitespace rest)))

  after_name-agree :
      (found : Option Text) (key : Text) (s : Bytes)
      → length s ≤ n
      → after_name field p found key s ≡ after_name field q found key s
  unfolding after_name
  after_name-agree found key [] h = refl
  after_name-agree found key (c ∷ s) h =
      ground
        (arith, field_value-agree found key (skip_json_whitespace s), length-skip_json_whitespace s)

  next_field-agree :
      (found : Option Text) (s : Bytes)
      → length s ≤ n
      → next_field field p found s ≡ next_field field q found s
  unfolding next_field
  next_field-agree found [] h = refl
  next_field-agree found (c ∷ s) h =
      ap {B = Option (Option Text)}
        (λ (o : Option (Option Text)). elim (c == b'}') [ true ↦ closing found s | false ↦ o ])
        (bind-ext (parse_json_string (c ∷ s))
          (λ key. after_name field p found key.0 (skip_json_whitespace key.1))
          (λ key. after_name field q found key.0 (skip_json_whitespace key.1))
          λ key e. after_name-agree found key.0 (skip_json_whitespace key.1) (
            ground
              (arith, length-parse_json_string (c ∷ s) key e, length-skip_json_whitespace key.1)))

  field_step-agree :
      (found : Option Text) (s : Bytes)
      → length s ≤ n
      → field_step field p found s ≡ field_step field q found s
  unfolding field_step
  field_step-agree found s h =
      next_field-agree found (skip_json_whitespace s)
        (ground (arith, length-skip_json_whitespace s))

enough_rounds :
    (m n : ℕ) (field : Text) (found : Option Text) (s : Bytes)
    → length s < m
    → length s < n
    → fields_within m field found s ≡ fields_within n field found s
unfolding fields_within
enough_rounds zero n field found s a b = absurd (omega arith)
enough_rounds (suc m) zero field found s a b = absurd (omega arith)
enough_rounds (suc m) (suc n) field found s a b =
    field_step-agree field (fields_within m field) (fields_within n field) (length s)
      (λ other t l. enough_rounds m n field other t (omega (arith, l, a)) (omega (arith, l, b)))
      found s (omega arith)

-- The bound on the rounds does not show: the search for a field is one round of the source's loop
-- that goes on with the whole search.
pub fields-recursion :
    (field : Text) (found : Option Text) (s : Bytes)
    → fields field found s ≡ field_step field (fields field) found s
unfolding fields fields_within
fields-recursion field found s =
    enough_rounds (length s + 1) (suc (length s)) field found s (omega arith) (omega arith)
    ∙ field_step-agree field (fields_within (length s) field) (fields field) (length s)
        (λ other t l. enough_rounds (length s) (length t + 1) field other t l (omega arith)) found s
        (omega arith)

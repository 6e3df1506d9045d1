-- ===== src/Protocol/Hook/Fuel.antt =====
-- What skipping a part of the report leaves is no longer than what there was.
use freezeit_cos.Base.{
  ℕ, zero, suc, ◌+◌, ◌≤◌, ◌<◌, Text, txt, [], ◌∷◌, ◌++◌, length, Option, none, some, Bool, true,
  false, ◌==◌, ◌≡◌, refl, arith,
}
use freezeit_cos.Protocol.Bytes.{Bytes}
use freezeit_cos.Protocol.Hook.{
  StringMode, StringStep, closed, broken, further, string_step, string_body, parse_json_string,
  skip_json_whitespace, consume_json_literal, skip_number, bind, Skipped, value, members, elements,
  after_string, at_scalar, after_member, after_key, after_element, open_with, at_value, skip_step,
  skip_within,
}

pub length-skip_json_whitespace : (s : Bytes) → length (skip_json_whitespace s) ≤ length s
unfolding skip_json_whitespace
length-skip_json_whitespace [] = omega arith
length-skip_json_whitespace (c ∷ s) = ground (arith, length-skip_json_whitespace s)

length-skip_number : (s : Bytes) → length (skip_number s) ≤ length s
unfolding skip_number
length-skip_number [] = omega arith
length-skip_number (c ∷ s) = ground (arith, length-skip_number s)

length-consume_json_literal :
    (l : Text) (s r : Bytes) → consume_json_literal l s ≡ some r → length r ≤ length s
unfolding consume_json_literal
length-consume_json_literal [] s r h = ground arith
length-consume_json_literal (c ∷ l) [] r h = ground arith
length-consume_json_literal (c ∷ l) (d ∷ s) r h = ground (arith, length-consume_json_literal l s r)

length-string_body :
    (m : StringMode) (v : Text) (s : Bytes) (p : Text × Bytes)
    → string_body m v s ≡ some p
    → length p.1 < length s
unfolding string_body
length-string_body m v [] p h = ground arith
length-string_body m v (c ∷ s) p h =
    go (string_step m c) (λ next added. length-string_body next (v ++ added) s p) h
  where
    go :
        (t : StringStep)
        → ((next : StringMode) (added : Text)
            → string_body next (v ++ added) s ≡ some p
            → length p.1 < length s)
        → elim t [
          | closed ↦ some (v, s)
          | broken ↦ none
          | further next added ↦ string_body next (v ++ added) s
        ]
          ≡ some p
        → length p.1 < length (c ∷ s)
    go closed f h = ground arith
    go broken f h = ground arith
    go (further next added) f h = ground (arith, f next added h)

pub length-parse_json_string :
    (s : Bytes) (p : Text × Bytes) → parse_json_string s ≡ some p → length p.1 < length s
unfolding parse_json_string
length-parse_json_string [] p h = ground arith
length-parse_json_string (c ∷ s) p h = ground (arith, length-string_body StringMode.plain [] s p)

after_string-shrinks :
    (n : ℕ) (o : Option (Text × Bytes)) (r : Bytes)
    → ((p : Text × Bytes) → o ≡ some p → length p.1 < n)
    → after_string o ≡ some r
    → length r ≤ n
after_string-shrinks n none r f h = ground arith
after_string-shrinks n (some p) r f h = ground (arith, f p refl)

at_scalar-shrinks : (c : ℕ) (s r : Bytes) → at_scalar c s ≡ some r → length r ≤ length (c ∷ s)
unfolding at_scalar
at_scalar-shrinks c s r h = ground (
  arith,
  after_string-shrinks (length (c ∷ s)) (parse_json_string (c ∷ s)) r
      (length-parse_json_string (c ∷ s)),
  length-consume_json_literal (txt "true") (c ∷ s) r,
  length-consume_json_literal (txt "false") (c ∷ s) r,
  length-consume_json_literal (txt "null") (c ∷ s) r,
  length-skip_number (c ∷ s),
)

-- What is left after something was skipped is no longer than before.
abbrev pub Shrinks : (Skipped → Bytes → Option Bytes) → Type 0
Shrinks skip = (what : Skipped) (s r : Bytes) → skip what s ≡ some r → length r ≤ length s

bind-some {ℓ κ} :
    {A : Type ℓ} {B : Type κ} (o : Option A) (f : A → Option B) (b : B)
    → bind o f ≡ some b
    → (a : A) × (o ≡ some a) × (f a ≡ some b)
bind-some none f b h = ground arith
bind-some (some a) f b h = (a, refl, h)

module _ (skip : Skipped → Bytes → Option Bytes) (shrinks : Shrinks skip) where
  after_member-shrinks :
      (d : ℕ) (s r : Bytes) → after_member skip d s ≡ some r → length r ≤ length s
  unfolding after_member
  after_member-shrinks d [] r h = ground arith
  after_member-shrinks d (c ∷ s) r h =
      ground (arith, shrinks (members d) (skip_json_whitespace s) r, length-skip_json_whitespace s)

  after_element-shrinks :
      (d : ℕ) (s r : Bytes) → after_element skip d s ≡ some r → length r ≤ length s
  unfolding after_element
  after_element-shrinks d [] r h = ground arith
  after_element-shrinks d (c ∷ s) r h =
      ground (arith, shrinks (elements d) (skip_json_whitespace s) r, length-skip_json_whitespace s)

  open_with-shrinks :
      (k : ℕ) (w : Skipped) (s r : Bytes) → open_with skip k w s ≡ some r → length r ≤ length s
  unfolding open_with
  open_with-shrinks k w [] r h = shrinks w [] r h
  open_with-shrinks k w (c ∷ s) r h = ground (arith, shrinks w (c ∷ s) r)

  after_key-shrinks : (d : ℕ) (s r : Bytes) → after_key skip d s ≡ some r → length r ≤ length s
  unfolding after_key
  after_key-shrinks d [] r h = ground arith
  after_key-shrinks d (c ∷ s) r h = go (c == b':') h
    where
      go :
          (b : Bool)
          → elim b [
            | true ↦
                bind
                  (skip (value (d + 1)) s)
                  λ rest. after_member skip d (skip_json_whitespace rest)
            | false ↦ none
          ]
            ≡ some r
          → length r ≤ length (c ∷ s)
      go false h = ground arith
      go true h =
          let b =
            bind-some (skip (value (d + 1)) s)
              (λ rest. after_member skip d (skip_json_whitespace rest)) r h in
          ground (
            arith,
            shrinks (value (d + 1)) s b.0 b.1,
            after_member-shrinks d (skip_json_whitespace b.0) r b.2,
            length-skip_json_whitespace b.0,
          )

  at_value-shrinks : (d : ℕ) (s r : Bytes) → at_value skip d s ≡ some r → length r ≤ length s
  unfolding at_value
  at_value-shrinks d [] r h = ground arith
  at_value-shrinks d (c ∷ s) r h = ground (
    arith,
    open_with-shrinks b'}' (members d) (skip_json_whitespace s) r,
    open_with-shrinks b']' (elements d) (skip_json_whitespace s) r,
    length-skip_json_whitespace s,
    at_scalar-shrinks c s r,
  )

  skip_step-Shrinks : Shrinks (skip_step skip)
  unfolding skip_step
  skip_step-Shrinks (value d) s r h =
      ground (arith, at_value-shrinks d (skip_json_whitespace s) r h, length-skip_json_whitespace s)
  skip_step-Shrinks (members d) s r h =
      let b =
        bind-some (parse_json_string s) (λ p. after_key skip d (skip_json_whitespace p.1)) r h in
      ground (
        arith,
        length-parse_json_string s b.0 b.1,
        after_key-shrinks d (skip_json_whitespace b.0.1) r b.2,
        length-skip_json_whitespace b.0.1,
      )
  skip_step-Shrinks (elements d) s r h =
      let b =
        bind-some (skip (value (d + 1)) s)
          (λ rest. after_element skip d (skip_json_whitespace rest)) r h in
      ground (
        arith,
        shrinks (value (d + 1)) s b.0 b.1,
        after_element-shrinks d (skip_json_whitespace b.0) r b.2,
        length-skip_json_whitespace b.0,
      )

pub skip_within-Shrinks : (n : ℕ) → Shrinks (skip_within n)
unfolding skip_within
skip_within-Shrinks zero what s r h = ground arith
skip_within-Shrinks (suc n) what s r h =
    skip_step-Shrinks (skip_within n) (skip_within-Shrinks n) what s r h

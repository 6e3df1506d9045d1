-- ===== src/Protocol/Hook/Recursion.antt =====
-- The recursion that the source writes, and the bound on the nested calls.
use freezeit_cos.Base.{
  ℕ, zero, suc, ◌+◌, ◌*◌, ◌≤◌, ◌<◌, [], ◌∷◌, length, Option, none, some, true, false, ◌==◌, ◌≡◌,
  refl, ap, ◌∙◌, arith,
}
use freezeit_cos.Protocol.Bytes.{Bytes}
use freezeit_cos.Protocol.Hook.{
  parse_json_string, skip_json_whitespace, bind, Skipped, value, members, elements, after_member,
  after_key, after_element, open_with, at_value, skip_step, skip_within, calls_for, skip_json,
}
use freezeit_cos.Protocol.Hook.Fuel.{
  Shrinks, length-skip_json_whitespace, length-parse_json_string, skip_within-Shrinks,
}

pub bind-ext {ℓ κ} :
    {A : Type ℓ} {B : Type κ} (o : Option A) (f g : A → Option B)
    → ((a : A) → o ≡ some a → f a ≡ g a)
    → bind o f ≡ bind o g
bind-ext none f g h = refl
bind-ext (some a) f g h = h a refl

-- Two ways to skip that agree where fewer than `n` nested calls are needed.
module _ (p q : Skipped → Bytes → Option Bytes) (n : ℕ)
    (agree : (what : Skipped) (s : Bytes) → calls_for what s < n → p what s ≡ q what s)
    (shrinks : Shrinks p) where
  bind-agree :
      (what : Skipped) (s : Bytes) (f g : Bytes → Option Bytes)
      → calls_for what s < n
      → ((rest : Bytes) → length rest ≤ length s → f rest ≡ g rest)
      → bind (p what s) f ≡ bind (q what s) g
  bind-agree what s f g l h =
      bind-ext (p what s) f g (λ rest e. h rest (shrinks what s rest e))
      ∙ ap (λ (o : Option Bytes). bind o g) (agree what s l)

  after_member-agree :
      (d : ℕ) (s : Bytes) → 2 * length s ≤ n → after_member p d s ≡ after_member q d s
  unfolding after_member
  after_member-agree d [] h = refl
  after_member-agree d (c ∷ s) h =
      ground (arith, agree (members d) (skip_json_whitespace s), length-skip_json_whitespace s)

  after_element-agree :
      (d : ℕ) (s : Bytes) → 2 * length s ≤ n → after_element p d s ≡ after_element q d s
  unfolding after_element
  after_element-agree d [] h = refl
  after_element-agree d (c ∷ s) h =
      ground (arith, agree (elements d) (skip_json_whitespace s), length-skip_json_whitespace s)

  open_with-agree :
      (k : ℕ) (w : Skipped) (s : Bytes) → calls_for w s < n → open_with p k w s ≡ open_with q k w s
  unfolding open_with
  open_with-agree k w [] h = agree w [] h
  open_with-agree k w (c ∷ s) h = ground (arith, agree w (c ∷ s) h)

  after_key-agree : (d : ℕ) (s : Bytes) → 2 * length s ≤ n → after_key p d s ≡ after_key q d s
  unfolding after_key
  after_key-agree d [] h = refl
  after_key-agree d (c ∷ s) h =
      ap {B = Option Bytes} (λ (o : Option Bytes). elim (c == b':') [ true ↦ o | false ↦ none ])
        (bind-agree (value (d + 1)) s (λ rest. after_member p d (skip_json_whitespace rest))
          (λ rest. after_member q d (skip_json_whitespace rest)) (ground arith)
          λ rest l.
            after_member-agree d (skip_json_whitespace rest)
              (ground (arith, length-skip_json_whitespace rest)))

  at_value-agree : (d : ℕ) (s : Bytes) → 2 * length s ≤ n → at_value p d s ≡ at_value q d s
  unfolding at_value
  at_value-agree d [] h = refl
  at_value-agree d (c ∷ s) h = ground (
    arith,
    open_with-agree b'}' (members d) (skip_json_whitespace s),
    open_with-agree b']' (elements d) (skip_json_whitespace s),
    length-skip_json_whitespace s,
  )

  skip_step-agree :
      (what : Skipped) (s : Bytes) → calls_for what s ≤ n → skip_step p what s ≡ skip_step q what s
  unfolding skip_step
  skip_step-agree (value d) s h =
      at_value-agree d (skip_json_whitespace s) (ground (arith, length-skip_json_whitespace s))
  skip_step-agree (members d) s h =
      bind-ext (parse_json_string s) (λ x. after_key p d (skip_json_whitespace x.1))
        (λ x. after_key q d (skip_json_whitespace x.1))
        λ x e.
          after_key-agree d (skip_json_whitespace x.1)
            (ground (arith, length-parse_json_string s x e, length-skip_json_whitespace x.1))
  skip_step-agree (elements d) s h =
      bind-agree (value (d + 1)) s (λ rest. after_element p d (skip_json_whitespace rest))
        (λ rest. after_element q d (skip_json_whitespace rest)) (ground arith)
        λ rest l.
          after_element-agree d (skip_json_whitespace rest)
            (ground (arith, length-skip_json_whitespace rest))

-- Two numbers of nested calls that are enough give the same.
enough :
    (m n : ℕ) (what : Skipped) (s : Bytes)
    → calls_for what s < m
    → calls_for what s < n
    → skip_within m what s ≡ skip_within n what s
unfolding skip_within
enough zero n what s a b = absurd (omega arith)
enough (suc m) zero what s a b = absurd (omega arith)
enough (suc m) (suc n) what s a b =
    skip_step-agree (skip_within m) (skip_within n) (calls_for what s)
      (λ other t l. enough m n other t (omega (arith, l, a)) (omega (arith, l, b)))
      (skip_within-Shrinks m) what s (omega arith)

-- The bound on the nested calls does not show: skipping a value, or the rest of an object or of an
-- array, is one step of the source whose recursive calls are the whole function again.
pub skip_json-recursion :
    (what : Skipped) (s : Bytes) → skip_json what s ≡ skip_step skip_json what s
unfolding skip_json skip_within
skip_json-recursion what s =
    let n = calls_for what s in
    enough (n + 1) (suc n) what s (omega arith) (omega arith)
    ∙ skip_step-agree (skip_within n) skip_json n
        (λ other t l. enough n (calls_for other t + 1) other t l (omega arith))
        (skip_within-Shrinks n) what s (omega arith)

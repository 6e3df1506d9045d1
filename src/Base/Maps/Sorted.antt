-- ===== src/Base/Maps/Sorted.antt =====
-- The order of the keys of a map, which insertion and removal keep.
use freezeit_cos.Base.{
  Key, Map, insert, retain, lookup, ℤ, pos, negsuc, ℕ, int_key, nat_key, pair_key, Ordering, [],
  ◌∷◌, none, Bool, true, false, ◌&&◌, all, ◌≡◌, refl, arith, cmp_int,
}

-- The laws of a strict order.
pub record Order {ℓ} (K : Type ℓ) ⦃e : Key K⦄ : Type ℓ where
  pub trans :
      (a b c : K) → e.cmp a b ≡ Ordering.lt → e.cmp b c ≡ Ordering.lt → e.cmp a c ≡ Ordering.lt
  pub flip : (a b : K) → e.cmp a b ≡ Ordering.gt → e.cmp b a ≡ Ordering.lt

abbrev pub is_lt : Ordering → Bool
is_lt Ordering.lt = true
is_lt _ = false

module _ {ℓ κ} {K : Type ℓ} {V : Type κ} ⦃e : Key K⦄ where
  -- Every key of the map is greater.
  abbrev pub all_above : K → Map K V → Bool
  all_above k [] = true
  all_above k ((j, w) ∷ m) = is_lt (e.cmp k j) && all_above k m

  abbrev pub is_sorted : Map K V → Bool
  is_sorted [] = true
  is_sorted ((k, v) ∷ m) = all_above k m && is_sorted m

  pub lookup-above : (k : K) (m : Map K V) → all_above k m ≡ true → lookup k m ≡ none
  unfolding lookup
  lookup-above k [] h = refl
  lookup-above k ((j, w) ∷ m) h = ground (arith, lookup-above k m, e.cmp_iff k j, e.cmp_iff j k)

  all_above-retain :
      (p : K → Bool) (k : K) (m : Map K V) → all_above k m ≡ true → all_above k (retain p m) ≡ true
  unfolding retain
  all_above-retain p k [] h = refl
  all_above-retain p k ((j, w) ∷ m) h = ground (arith, all_above-retain p k m)

  pub all-insert :
      (p : K × V → Bool) (k : K) (v : V) (m : Map K V)
      → p (k, v) ≡ true
      → all p m ≡ true
      → all p (insert k v m) ≡ true
  unfolding insert
  all-insert p k v [] h a = ground arith
  all-insert p k v ((j, w) ∷ m) h a = ground (arith, all-insert p k v m)

  pub is_sorted-retain :
      (p : K → Bool) (m : Map K V) → is_sorted m ≡ true → is_sorted (retain p m) ≡ true
  unfolding retain
  is_sorted-retain p [] h = refl
  is_sorted-retain p ((j, w) ∷ m) h = ground (arith, is_sorted-retain p m, all_above-retain p j m)

  module _ ⦃o : Order K⦄ where
    all_above_trans :
        (k j : K) (m : Map K V)
        → e.cmp k j ≡ Ordering.lt
        → all_above j m ≡ true
        → all_above k m ≡ true
    all_above_trans k j [] l h = refl
    all_above_trans k j ((i, w) ∷ m) l h = ground (arith, all_above_trans k j m l, o.trans k j i)

    all_above-insert :
        (k j : K) (v : V) (m : Map K V)
        → e.cmp j k ≡ Ordering.lt
        → all_above j m ≡ true
        → all_above j (insert k v m) ≡ true
    unfolding insert
    all_above-insert k j v [] l h = ground arith
    all_above-insert k j v ((i, w) ∷ m) l h = ground (arith, all_above-insert k j v m l)

    pub is_sorted-insert :
        (k : K) (v : V) (m : Map K V) → is_sorted m ≡ true → is_sorted (insert k v m) ≡ true
    unfolding insert
    is_sorted-insert k v [] h = refl
    is_sorted-insert k v ((j, w) ∷ m) h = ground (
      arith,
      is_sorted-insert k v m,
      all_above_trans k j m,
      all_above-insert k j v m,
      o.flip k j,
      e.cmp_iff k j,
    )

instance pub nat_order : Order ℕ
nat_order = record { trans = λ a b c p q. ground arith; flip = λ a b p. ground arith }

int_trans :
    (a b c : ℤ) → cmp_int a b ≡ Ordering.lt → cmp_int b c ≡ Ordering.lt → cmp_int a c ≡ Ordering.lt
int_trans (pos a) (pos b) (pos c) p q = ground arith
int_trans (pos a) (pos b) (negsuc c) p q = ground arith
int_trans (pos a) (negsuc b) c p q = ground arith
int_trans (negsuc a) (pos b) (pos c) p q = ground arith
int_trans (negsuc a) (pos b) (negsuc c) p q = ground arith
int_trans (negsuc a) (negsuc b) (pos c) p q = ground arith
int_trans (negsuc a) (negsuc b) (negsuc c) p q = ground arith

int_flip : (a b : ℤ) → cmp_int a b ≡ Ordering.gt → cmp_int b a ≡ Ordering.lt
int_flip (pos a) (pos b) p = ground arith
int_flip (pos a) (negsuc b) p = ground arith
int_flip (negsuc a) (pos b) p = ground arith
int_flip (negsuc a) (negsuc b) p = ground arith

instance pub int_order : Order ℤ
int_order = record { trans = int_trans; flip = int_flip }

module _ {ℓ κ} {A : Type ℓ} {B : Type κ} ⦃a : Key A⦄ ⦃b : Key B⦄ ⦃oa : Order A⦄ ⦃ob : Order B⦄ where
  instance pub pair_order : Order (A × B)
  pair_order = record {
    trans = λ x y z p q. ground (
      arith,
      oa.trans x.0 y.0 z.0,
      ob.trans x.1 y.1 z.1,
      a.cmp_iff x.0 y.0,
      a.cmp_iff y.0 z.0,
      a.cmp_iff x.0 z.0,
    );
    flip = λ x y p.
        ground (arith, oa.flip x.0 y.0, ob.flip x.1 y.1, a.cmp_iff x.0 y.0, a.cmp_iff y.0 x.0);
  }

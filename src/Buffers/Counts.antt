-- ===== src/Buffers/Counts.antt =====
-- How many times an address stands among pointers.
use libsg.Common.{
  subst, ap, true, Bool-cases, inl, inr, false, ℕ, zero, suc, ◌+◌, ◌-◌, ◌≡◌, ◌≤◌, ◌<◌, ◌==◌, none,
  some, Option, List, [], ◌∷◌, length, arith, refl,
}
use libsg.Buffers.{Buffer, count, remove, at, set, is_at, holders, loosen}

pub is_at_self : (p : ℕ) → is_at (some p) p ≡ 1
is_at_self p = ground arith

pub is_at-le-one : (p : Option ℕ) (a : ℕ) → is_at p a ≤ 1
is_at-le-one none a = omega arith
is_at-le-one (some p) a = ground arith

pub count-remove : (a p : ℕ) (xs : List ℕ) → count a (remove p xs) ≡ count a xs - is_at (some p) a
count-remove a p [] = ground arith
count-remove a p (x ∷ xs) = ground (arith, count-remove a p xs, count-remove p p xs)

pub holders-set :
    (i a : ℕ) (v : Buffer) (bs : List Buffer)
    → i < length bs
    → holders (set i v bs) a + is_at (at i bs).ptr a ≡ holders bs a + is_at v.ptr a
holders-set i a v [] h = absurd (omega (arith, h))
holders-set zero a v (b ∷ bs) h = omega arith
holders-set (suc i) a v (b ∷ bs) h = omega (arith, holders-set i a v bs (omega (arith, h)))

pub length-set : (i : ℕ) (v : Buffer) (bs : List Buffer) → length (set i v bs) ≡ length bs
length-set i v [] = refl
length-set zero v (b ∷ bs) = refl
length-set (suc i) v (b ∷ bs) = omega (arith, length-set i v bs)

pub at-set_other :
    (i j : ℕ) (v : Buffer) (bs : List Buffer) → (i == j) ≡ false → at i (set j v bs) ≡ at i bs
at-set_other i j v [] h = refl
at-set_other zero zero v (b ∷ bs) h = absurd (ground (arith, h))
at-set_other zero (suc j) v (b ∷ bs) h = refl
at-set_other (suc i) zero v (b ∷ bs) h = refl
at-set_other (suc i) (suc j) v (b ∷ bs) h = at-set_other i j v bs (ground (arith, h))

pub holders-at : (i a : ℕ) (bs : List Buffer) → is_at (at i bs).ptr a ≤ holders bs a
holders-at i a [] = omega arith
holders-at zero a (b ∷ bs) = omega arith
holders-at (suc i) a (b ∷ bs) = omega (arith, holders-at i a bs)

pub count-loosen :
    (p : Option ℕ) (a : ℕ) (xs : List ℕ) → count a (loosen p xs) ≡ is_at p a + count a xs
count-loosen none a xs = omega arith
count-loosen (some p) a xs = refl

pub is_at-le-count : (p a : ℕ) (xs : List ℕ) → 0 < count p xs → is_at (some p) a ≤ count a xs
is_at-le-count p a xs h = ground (arith, h)

pub is_at-eq : (p a : ℕ) → p ≡ a → is_at (some p) a ≡ 1
is_at-eq p a h = ground (arith, h)

-- Two variables of a list are written.
pub holders-set-set :
    (i j a : ℕ) (v w : Buffer) (bs : List Buffer)
    → i < length bs
    → j < length bs
    → (i == j) ≡ false
    → holders (set i v (set j w bs)) a + is_at (at i bs).ptr a + is_at (at j bs).ptr a
      ≡ holders bs a + is_at v.ptr a + is_at w.ptr a
holders-set-set i j a v w bs h k e = omega (
  arith,
  h,
  length-set j w bs,
  holders-set i a v (set j w bs),
  holders-set j a w bs k,
  ap (λ (b : Buffer). is_at b.ptr a) (at-set_other i j w bs e),
)

pub at-set_self : (i : ℕ) (v : Buffer) (bs : List Buffer) → i < length bs → at i (set i v bs) ≡ v
at-set_self i v [] h = absurd (omega (arith, h))
at-set_self zero v (b ∷ bs) h = refl
at-set_self (suc i) v (b ∷ bs) h = at-set_self i v bs (omega (arith, h))

swap_self :
    (i a : ℕ) (bs : List Buffer)
    → i < length bs
    → holders (set i (at i bs) (set i (at i bs) bs)) a ≡ holders bs a
swap_self i a bs h = omega (
  arith,
  h,
  length-set i (at i bs) bs,
  holders-set i a (at i bs) (set i (at i bs) bs),
  holders-set i a (at i bs) bs h,
  ap (λ (b : Buffer). is_at b.ptr a) (at-set_self i (at i bs) bs h),
)

eq_of_test : (i j : ℕ) → (i == j) ≡ true → i ≡ j
eq_of_test i j h = ground (arith, h)

-- Also where the two are one, if they swap what they have.
pub holders-swap :
    (i j a : ℕ) (bs : List Buffer)
    → i < length bs
    → j < length bs
    → holders (set i (at j bs) (set j (at i bs) bs)) a ≡ holders bs a
holders-swap i j a bs h k = elim (Bool-cases (i == j)) [
  | inr e ↦ omega (arith, holders-set-set i j a (at j bs) (at i bs) bs h k e)
  | inl e ↦
      subst (λ x. holders (set i (at x bs) (set x (at i bs) bs)) a ≡ holders bs a)
        (eq_of_test i j e) (swap_self i a bs h)
]

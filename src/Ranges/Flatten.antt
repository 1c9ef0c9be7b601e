-- ===== src/Ranges/Flatten.antt =====
-- common/include/sg/ranges.h: what `flatten` returns.
use libsg.Common.{
  ℕ, zero, suc, ◌+◌, ◌<◌, ◌^◌, ◌≡◌, some, none, List, [], ◌∷◌, ◌++◌, append_assoc, append-nil, take,
  drop, length-take, length-drop, take-append-drop, length, length-append, arith, refl, ap, ap₂,
  sym, ◌∙◌, add64,
}
use libsg.Ranges.{
  Range, Output, add_sizes, flatenned_size, assign, copy, copy_each, flatten_copy_to_iterator,
  filled, flatten,
}

abbrev pub join {ℓ} : {A B : Type ℓ} → (B → List A) → List B → List A
join f [] = []
join f (b ∷ bs) = f b ++ join f bs

-- All elements, in order.
abbrev pub elements {ℓ} : (A : Type ℓ) (depth : ℕ) → Range A depth → List A
elements A zero buffers = buffers
elements A (suc depth) buffers = join (elements A depth) buffers

-- Writing `xs` over as many elements of a vector, from a position on.
Fills {ℓ} : {A : Type ℓ} → (List A → ℕ → Output A) → List A → Type ℓ
Fills {A} f xs =
    (pre old post : List A)
    → length old ≡ length xs
    → f (pre ++ (old ++ post)) (length pre) ≡ some (pre ++ (xs ++ post), length pre + length xs)

assign-at {ℓ} :
    {A : Type ℓ} (pre : List A) (a x : A) (post : List A)
    → assign (length pre) a (pre ++ (x ∷ post)) ≡ some (pre ++ (a ∷ post))
assign-at [] a x post = refl
assign-at (y ∷ pre) a x post = grind (arith, assign-at pre a x post)

-- after one element, and after one range
copy_step {ℓ} :
    {A : Type ℓ} (x : A) (xs out next : List A) (at : ℕ)
    → assign at x out ≡ some next
    → copy (x ∷ xs) out at ≡ copy xs next (suc at)
copy_step x xs out next at e =
    ap (λ o. elim o [ none ↦ none | some next' ↦ copy xs next' (suc at) ]) e

copy_each_step {ℓ} :
    {A B : Type ℓ} (f : B → List A → ℕ → Output A) (b : B) (bs : List B) (out : List A) (at : ℕ)
    (next : List A × ℕ)
    → f b out at ≡ some next
    → copy_each f (b ∷ bs) out at ≡ copy_each f bs next.0 next.1
copy_each_step f b bs out at next e =
    ap (λ o. elim o [ none ↦ none | some n ↦ copy_each f bs n.0 n.1 ]) e

-- The same vector and position, cut after the next part.
regroup {ℓ} :
    {A : Type ℓ} (pre part more post : List A)
    → ◌≡◌ {A = Output A}
        (some ((pre ++ part) ++ (more ++ post), length (pre ++ part) + length more))
        (some (pre ++ ((part ++ more) ++ post), length pre + length (part ++ more)))
regroup pre part more post =
    let lists =
      append_assoc pre part (more ++ post) ∙ ap (◌++◌ pre) (sym (append_assoc part more post)) in
    ap₂ (λ l n. some (l, n)) lists (omega (arith, length-append pre part, length-append part more))

nothing-Fills {ℓ} :
    {A : Type ℓ} (pre post : List A)
    → ◌≡◌ {A = Output A} (some (pre ++ post, length pre)) (some (pre ++ post, length pre + 0))
nothing-Fills pre post = ap (λ n. some (pre ++ post, n)) (omega arith)

copy-Fills {ℓ} : {A : Type ℓ} (xs : List A) → Fills (copy xs) xs
unfolding Fills
copy-Fills [] pre [] post e = nothing-Fills pre post
copy-Fills [] pre (o ∷ old) post e = absurd (omega (arith, e))
copy-Fills (x ∷ xs) pre [] post e = absurd (omega (arith, e))
copy-Fills (x ∷ xs) pre (o ∷ old) post e =
    let ih = copy-Fills xs (pre ++ x ∷ []) old post (omega (arith, e)) in
    copy_step x xs _ _ (length pre) (assign-at pre x o (old ++ post))
    ∙ ap₂ (copy xs) (sym (append_assoc pre (x ∷ []) (old ++ post)))
        (omega (arith, length-append pre (x ∷ [])))
    ∙ ih
    ∙ regroup pre (x ∷ []) xs post

copy_each-Fills {ℓ} :
    {A B : Type ℓ} (f : B → List A → ℕ → Output A) (g : B → List A)
    → ((b : B) → Fills (f b) (g b))
    → (bs : List B) → Fills (copy_each f bs) (join g bs)
unfolding Fills
copy_each-Fills f g h [] pre [] post e = nothing-Fills pre post
copy_each-Fills f g h [] pre (o ∷ old) post e = absurd (omega (arith, e))
copy_each-Fills f g h (b ∷ bs) pre old post e =
    let n = length (g b) in
    let size = length-append (g b) (join g bs) in
    let here : length (take n old) ≡ n = omega (arith, e, size, length-take n old) in
    let there : length (drop n old) ≡ length (join g bs) =
      omega (arith, e, size, length-drop n old) in
    let cut =
      ap (λ l. pre ++ l)
        (ap (λ l. l ++ post) (sym (take-append-drop n old))
          ∙ append_assoc (take n old) (drop n old) post) in
    ap (λ l. copy_each f (b ∷ bs) l (length pre)) cut
    ∙ copy_each_step f b bs _ (length pre) _ (h b pre (take n old) (drop n old ++ post) here)
    ∙ ap₂ (copy_each f bs) (sym (append_assoc pre (g b) (drop n old ++ post)))
        (sym (length-append pre (g b)))
    ∙ copy_each-Fills f g h bs (pre ++ g b) (drop n old) post there
    ∙ regroup pre (g b) (join g bs) post

range-Fills {ℓ} :
    (A : Type ℓ) (depth : ℕ) (r : Range A depth)
    → Fills (flatten_copy_to_iterator A depth r) (elements A depth r)
unfolding flatten_copy_to_iterator
range-Fills A zero r = copy-Fills r
range-Fills A (suc depth) r =
    copy_each-Fills (flatten_copy_to_iterator A depth) (elements A depth) (range-Fills A depth) r

length-filled {ℓ} : {A : Type ℓ} (n : ℕ) (a : A) → length (filled n a) ≡ n
length-filled zero a = refl
length-filled (suc n) a = ap suc (length-filled n a)

-- the sum does not wrap, nor does any part of it
add_sizes-counts {ℓ} :
    {A B : Type ℓ} (f : B → ℕ) (g : B → List A)
    → ((b : B) → length (g b) < 2 ^ 64 → f b ≡ length (g b))
    → (size : ℕ) (bs : List B) → size + length (join g bs) < 2 ^ 64
    → add_sizes f size bs ≡ size + length (join g bs)
add_sizes-counts f g h size [] l = omega arith
add_sizes-counts f g h size (b ∷ bs) l =
    let parts = length-append (g b) (join g bs) in
    let one = h b (omega (arith, l, parts)) in
    let sum : add64 size (f b) ≡ size + length (g b) = omega (arith, one, l, parts) in
    omega (
      arith,
      sum,
      parts,
      add_sizes-counts f g h (add64 size (f b)) bs (omega (arith, sum, l, parts)),
    )

flatenned_size-counts {ℓ} :
    (A : Type ℓ) (depth : ℕ) (r : Range A depth)
    → length (elements A depth r) < 2 ^ 64
    → flatenned_size A depth r ≡ length (elements A depth r)
unfolding flatenned_size
flatenned_size-counts A zero r l = refl
flatenned_size-counts A (suc depth) r l =
    let all = elements A depth in
    let h = flatenned_size-counts A depth in
    add_sizes-counts (flatenned_size A depth) all h 0 r (omega (arith, l)) ∙ omega arith

-- For ranges nested to any depth with fewer than 2 ^ 64 elements in all, and whatever the elements of
-- a new vector are: `flatten` never writes past the end of its vector, returns all elements in
-- order, and its copy ends at the vector's end.
pub flatten-elements {ℓ} :
    (A : Type ℓ) (initial : A) (depth : ℕ) (r : Range A depth)
    → length (elements A depth r) < 2 ^ 64
    → flatten A initial depth r ≡ some (elements A depth r, length (elements A depth r))
unfolding flatten Fills
flatten-elements A initial depth r l =
    let size = flatenned_size A depth r in
    let new = filled size initial in
    let count = length-filled size initial ∙ flatenned_size-counts A depth r l in
    ap (λ v. flatten_copy_to_iterator A depth r v 0) (sym (append-nil new))
    ∙ range-Fills A depth r [] new [] count
    ∙ ap₂ (λ v n. some (v, n)) (append-nil (elements A depth r)) (omega arith)

-- ===== src/Ranges.antt =====
-- common/include/sg/ranges.h: ranges of ranges made into one vector.
mod Flatten
mod Examples
use libsg.Common.{ℕ, zero, suc, ◌+◌, Option, none, some, List, [], ◌∷◌, add64, length}

-- Ranges nested so deep, with elements of `DataT` at the bottom.
abbrev pub Range {ℓ} : Type ℓ → ℕ → Type ℓ
Range DataT zero = List DataT
Range DataT (suc depth) = List (Range DataT depth)

-- `for (const auto& buf : buffers) size += …`
abbrev pub add_sizes {ℓ} : {B : Type ℓ} → (B → ℕ) → ℕ → List B → ℕ
add_sizes f size [] = size
add_sizes f size (buf ∷ buffers) = add_sizes f (add64 size (f buf)) buffers

unfoldable pub flatenned_size {ℓ} : (DataT : Type ℓ) (depth : ℕ) → Range DataT depth → ℕ
flatenned_size DataT zero buffers = length buffers
flatenned_size DataT (suc depth) buffers = add_sizes (flatenned_size DataT depth) 0 buffers

-- A vector and the position of an iterator into it; none once it has written past the end.
abbrev pub Output {ℓ} : Type ℓ → Type ℓ
Output DataT = Option (List DataT × ℕ)

-- `*it = value`
abbrev pub assign {ℓ} : {A : Type ℓ} → ℕ → A → List A → Option (List A)
assign at value [] = none
assign zero value (x ∷ xs) = some (value ∷ xs)
assign (suc at) value (x ∷ xs) = elim (assign at value xs) [ none ↦ none | some ys ↦ some (x ∷ ys) ]

-- `std::copy`
abbrev pub copy {ℓ} : {A : Type ℓ} → List A → List A → ℕ → Output A
copy [] out at = some (out, at)
copy (x ∷ xs) out at = elim (assign at x out) [ none ↦ none | some out' ↦ copy xs out' (suc at) ]

-- `for (const auto& range : buffers) it = …`
abbrev pub copy_each {ℓ} :
    {A B : Type ℓ} → (B → List A → ℕ → Output A) → List B → List A → ℕ → Output A
copy_each f [] out it = some (out, it)
copy_each f (range ∷ buffers) out it = elim (f range out it) [
  | none ↦ none
  | some next ↦ copy_each f buffers next.0 next.1
]

unfoldable pub flatten_copy_to_iterator {ℓ} :
    (DataT : Type ℓ) (depth : ℕ) → Range DataT depth → List DataT → ℕ → Output DataT
flatten_copy_to_iterator DataT zero buffers out it = copy buffers out it
flatten_copy_to_iterator DataT (suc depth) buffers out it =
    copy_each (flatten_copy_to_iterator DataT depth) buffers out it

abbrev pub filled {ℓ} : {A : Type ℓ} → ℕ → A → List A
filled zero initial = []
filled (suc n) initial = initial ∷ filled n initial

-- `initial` is what the vector's allocator leaves in a new element, for `flatten` and for
-- `flatten_no_init`. The answer has the position where the copy ended.
unfoldable pub flatten {ℓ} :
    (DataT : Type ℓ) (initial : DataT) (depth : ℕ) → Range DataT depth → Output DataT
unfolding flatenned_size flatten_copy_to_iterator
flatten DataT initial depth buffers =
    let size = flatenned_size DataT depth buffers in
    flatten_copy_to_iterator DataT depth buffers (filled size initial) 0

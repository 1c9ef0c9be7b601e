-- ===== src/RollingBuffer/Storage.antt =====
-- `std::vector<T>` as the buffer uses it: its elements and its capacity.
use libsg.Common.{ℕ, ◌+◌, ◌*◌, ◌≤◌, max, List, [], ◌++◌, ltb, if◌then◌else◌, length, take, drop}

pub record Vector {ℓ} (A : Type ℓ) : Type ℓ where
  pub items : List A
  pub capacity : ℕ

-- The capacity that an insertion gives a full vector, from the old one and the number of elements
-- needed: enough, and at most the double where the double is enough.
pub record Growth : Type 0 where
  pub grow : ℕ → ℕ → ℕ
  pub enough : (capacity needed : ℕ) → needed ≤ grow capacity needed
  pub doubling : (capacity needed : ℕ) → grow capacity needed ≤ max (2 * capacity) needed

module _ {ℓ} {A : Type ℓ} where
  unfoldable pub empty : Vector A
  empty = record { items = []; capacity = 0 }

  unfoldable pub reserve : ℕ → Vector A → Vector A
  reserve n v = record v { capacity = max v.capacity n }

  unfoldable pub insert_end : Growth → Vector A → List A → Vector A
  insert_end g v xs =
      let needed = length v.items + length xs in
      record {
        items = v.items ++ xs;
        capacity = if ltb v.capacity needed then g.grow v.capacity needed else v.capacity;
      }

  -- `clear()` keeps the allocation.
  unfoldable pub clear_items : Vector A → Vector A
  clear_items v = record v { items = [] }

  -- `erase(begin() + n, end())`
  unfoldable pub erase_from : ℕ → Vector A → Vector A
  erase_from n v = record v { items = take n v.items }

  -- `memcpy` of `n` elements from index `src` to the front; the two ranges must not overlap.
  unfoldable pub move_front : ℕ → ℕ → Vector A → Vector A
  move_front src n v = record v { items = take n (drop src v.items) ++ drop n v.items }

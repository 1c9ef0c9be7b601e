-- ===== src/Buffers.antt =====
-- common/include/sg/buffer.h: the buffers that own a block of memory from malloc and free it with
-- `free` (`unique_c_buffer`, `shared_c_buffer`), with the heap and all their variables. A block is its
-- address; a destroyed variable is left as an empty one. Of `std::unique_ptr`, `std::shared_ptr` and
-- `malloc` the model has what is documented: a shared block is given to the deleter that its shared
-- pointer was made with when no variable has it any more.
pub mod Counts
pub mod Unique
pub mod Shared
pub mod Reset
pub mod Allocation
pub mod Ownership
mod Examples
use libsg.Common.{
  ℕ, zero, suc, ◌+◌, ◌-◌, ◌*◌, ◌%◌, ◌^◌, Bool, true, false, Option, none, some, List, [], ◌∷◌, ◌++◌,
  length, ◌==◌, ltb, if◌then◌else◌,
}

pub record Buffer : Type 0 where
  pub ptr : Option ℕ
  pub size : ℕ  -- length

pub record Memory : Type 0 where
  pub live : List ℕ  -- blocks that are allocated
  pub next : ℕ  -- an address not used before
  pub loose : List ℕ  -- blocks that the user has as bare pointers
  pub uniques : List Buffer
  pub shareds : List Buffer
  pub faults : ℕ  -- calls of `free` for what is not allocated
  pub sizes : List (ℕ × ℕ)  -- each block that malloc returned, with its size
  pub array_deleted : List ℕ  -- blocks that a shared pointer will give to `delete[]`
  pub mismatched : ℕ  -- blocks that were given to `delete[]`

abbrev pub empty : Buffer
empty = record { ptr = none; size = 0 }

abbrev pub fresh : Memory
fresh = record {
  live = [];
  next = 1;
  loose = [];
  uniques = [];
  shareds = [];
  faults = 0;
  sizes = [];
  array_deleted = [];
  mismatched = 0;
}

abbrev pub count : ℕ → List ℕ → ℕ
count a [] = 0
count a (x ∷ xs) = (if x == a then 1 else 0) + count a xs

-- the size of the block at an address
abbrev pub size_of : ℕ → List (ℕ × ℕ) → ℕ
size_of a [] = 0
size_of a (b ∷ bs) = let rest = size_of a bs in if b.0 == a then b.1 else rest

abbrev pub remove : ℕ → List ℕ → List ℕ
remove a [] = []
remove a (x ∷ xs) = let rest = remove a xs in if x == a then xs else x ∷ rest

abbrev pub at : ℕ → List Buffer → Buffer
at i [] = empty
at zero (b ∷ bs) = b
at (suc i) (b ∷ bs) = at i bs

abbrev pub set : ℕ → Buffer → List Buffer → List Buffer
set i v [] = []
set zero v (b ∷ bs) = v ∷ bs
set (suc i) v (b ∷ bs) = b ∷ set i v bs

-- whether a pointer is this address, as a number
abbrev pub is_at : Option ℕ → ℕ → ℕ
is_at none a = 0
is_at (some p) a = if p == a then 1 else 0

-- how many of the variables have the block
abbrev pub holders : List Buffer → ℕ → ℕ
holders [] a = 0
holders (b ∷ bs) a = is_at b.ptr a + holders bs a

-- the deleter
unfoldable pub free : Option ℕ → Memory → Memory
free none m = m
free (some p) m = record m {
  live = remove p m.live;
  faults = if ltb 0 (count p m.live) then m.faults else suc m.faults;
}

-- A variable takes a bare pointer over.
unfoldable pub take_over : Option ℕ → Memory → Memory
take_over none m = m
take_over (some p) m = record m { loose = remove p m.loose }

-- The last shared pointer calls the deleter that it was made with.
unfoldable pub free_shared : ℕ → Memory → Memory
unfolding free
free_shared p m = record (free (some p) m) {
  mismatched = if ltb 0 (count p m.array_deleted) then suc m.mismatched else m.mismatched;
}

-- A shared pointer gives its block up, after its variable was overwritten.
unfoldable pub drop_shared : Option ℕ → Memory → Memory
unfolding free_shared
drop_shared none m = m
drop_shared (some p) m = if holders m.shareds p == 0 then free_shared p m else m

-- what malloc does when it succeeds
unfoldable pub malloc : ℕ → Memory → Memory
malloc size m = record m {
  live = m.next ∷ m.live;
  loose = m.next ∷ m.loose;
  next = suc m.next;
  sizes = (m.next, size) ∷ m.sizes;
}

-- unique_buffer: the constructors
unfoldable pub unique_buffer : Option ℕ → ℕ → Memory → Memory
unfolding take_over
unique_buffer p n m =
    let t = take_over p m in record t { uniques = record { ptr = p; size = n } ∷ t.uniques }

-- the defaulted move constructor: it leaves the length of the other as it was
abbrev pub moved_from : Buffer → Buffer
moved_from b = record b { ptr = none }

unfoldable pub unique_move : ℕ → Memory → Memory
unique_move i m =
    let b = at i m.uniques in record m { uniques = b ∷ set i (moved_from b) m.uniques }

-- the defaulted move assignment, `reset(other.release())` and the length
unfoldable pub unique_assign : ℕ → ℕ → Memory → Memory
unfolding free
unique_assign i j m =
    if i == j
    then m
    else (let b = at j m.uniques in
        free (at i m.uniques).ptr (record m { uniques = set i b (set j (moved_from b) m.uniques) }))

unfoldable pub unique_swap : ℕ → ℕ → Memory → Memory
unique_swap i j m = record m { uniques = set i (at j m.uniques) (set j (at i m.uniques) m.uniques) }

abbrev pub loosen : Option ℕ → List ℕ → List ℕ
loosen none xs = xs
loosen (some p) xs = p ∷ xs

unfoldable pub unique_release : ℕ → Memory → Memory
unique_release i m =
    let b = at i m.uniques in
    record m { uniques = set i (moved_from b) m.uniques; loose = loosen b.ptr m.loose }

-- also the destructor, with no pointer and the length 0
unfoldable pub unique_reset : ℕ → Option ℕ → ℕ → Memory → Memory
unfolding take_over free
unique_reset i p n m =
    let t = take_over p m in
    free (at i m.uniques).ptr
      (record t { uniques = set i (record { ptr = p; size = n }) t.uniques })

unfoldable pub shared_buffer : Option ℕ → ℕ → Memory → Memory
unfolding take_over
shared_buffer p n m =
    let t = take_over p m in record t { shareds = record { ptr = p; size = n } ∷ t.shareds }

unfoldable pub shared_of_unique : ℕ → Memory → Memory
shared_of_unique i m =
    let b = at i m.uniques in
    record m { uniques = set i (moved_from b) m.uniques; shareds = b ∷ m.shareds }

unfoldable pub shared_copy : ℕ → Memory → Memory
shared_copy i m = record m { shareds = at i m.shareds ∷ m.shareds }

unfoldable pub shared_move : ℕ → Memory → Memory
shared_move i m =
    let b = at i m.shareds in record m { shareds = b ∷ set i (moved_from b) m.shareds }

-- copy assignment
unfoldable pub shared_assign : ℕ → ℕ → Memory → Memory
unfolding drop_shared
shared_assign i j m =
    drop_shared (at i m.shareds).ptr (record m { shareds = set i (at j m.shareds) m.shareds })

unfoldable pub shared_move_assign : ℕ → ℕ → Memory → Memory
unfolding drop_shared
shared_move_assign i j m =
    if i == j
    then m
    else (let b = at j m.shareds in
        drop_shared (at i m.shareds).ptr
          (record m { shareds = set i b (set j (moved_from b) m.shareds) }))

unfoldable pub shared_swap : ℕ → ℕ → Memory → Memory
shared_swap i j m = record m { shareds = set i (at j m.shareds) (set j (at i m.shareds) m.shareds) }

-- `ptr.reset(_ptr)` makes a shared pointer without the deleter of the buffer.
unfoldable pub shared_reset : ℕ → Option ℕ → ℕ → Memory → Memory
unfolding take_over drop_shared
shared_reset i p n m =
    let t = take_over p m in
    drop_shared (at i m.shareds).ptr (record t {
      shareds = set i (record { ptr = p; size = n }) t.shareds;
      array_deleted = loosen p t.array_deleted;
    })

-- The user frees a bare pointer.
unfoldable pub free_loose : ℕ → Memory → Memory
unfolding free take_over
free_loose p m = free (some p) (take_over (some p) m)

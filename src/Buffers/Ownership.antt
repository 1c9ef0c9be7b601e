-- ===== src/Buffers/Ownership.antt =====
-- All programs over the buffers.
use libsg.Common.{
  ℕ, ◌+◌, ◌*◌, ◌^◌, ◌≡◌, ◌≤◌, ◌<◌, ◌≢◌, ◌↔◌, ◌==◌, Bool, true, false, none, some, [], Option,
  length, arith, min, refl, Bool-cases, inl, inr, subst, sym,
}
use libsg.Buffers.{
  Buffer, Memory, fresh, count, at, size_of, take_over, holders, malloc, unique_buffer, unique_move,
  unique_assign, unique_swap, unique_release, unique_reset, free_loose, shared_buffer,
  shared_of_unique, shared_copy, shared_move, shared_assign, shared_move_assign, shared_swap,
  shared_reset,
}
use libsg.Buffers.Allocation.{
  requested, malloc_or_throw, make_unique_c_buffer, make_shared_c_buffer, realloc_or_free,
}
use libsg.Buffers.Unique.{
  Balanced, Has, malloc-Balanced, unique_buffer-Balanced, unique_move-Balanced,
  unique_assign-Balanced, unique_swap-Balanced, unique_release-Balanced, unique_reset-Balanced,
  free_loose-Balanced,
}
use libsg.Buffers.Shared.{
  shared_buffer-Balanced, shared_of_unique-Balanced, shared_copy-Balanced, shared_move-Balanced,
  shared_assign-Balanced, shared_move_assign-Balanced, shared_swap-Balanced,
}
use libsg.Buffers.Reset.{shared_reset-Balanced}

-- A program uses variables that exist, and gives a bare pointer to a buffer or to `free` only if it
-- has it.
pub data Step (m : Memory) : Memory → Type 0 where
  allocates : (size : ℕ) (ok : Bool) {t : Memory} → malloc_or_throw size ok m ≡ some t → Step m t
  reallocates :
      (p size : ℕ) (ok : Bool) → 0 < count p m.loose → Step m (realloc_or_free p size ok m).0
  frees : (p : ℕ) → 0 < count p m.loose → Step m (free_loose p m)
  unique : (p : Option ℕ) (n : ℕ) → Has p m → Step m (unique_buffer p n m)
  unique_c : (w n : ℕ) (ok : Bool) {t : Memory} → make_unique_c_buffer w n ok m ≡ some t → Step m t
  moves : (i : ℕ) → i < length m.uniques → Step m (unique_move i m)
  assigns : (i j : ℕ) → i < length m.uniques → j < length m.uniques → Step m (unique_assign i j m)
  swaps : (i j : ℕ) → i < length m.uniques → j < length m.uniques → Step m (unique_swap i j m)
  releases : (i : ℕ) → i < length m.uniques → Step m (unique_release i m)
  resets : (i n : ℕ) (p : Option ℕ) → i < length m.uniques → Has p m → Step m (unique_reset i p n m)
  shared : (p : Option ℕ) (n : ℕ) → Has p m → Step m (shared_buffer p n m)
  shared_c : (w n : ℕ) (ok : Bool) {t : Memory} → make_shared_c_buffer w n ok m ≡ some t → Step m t
  shares : (i : ℕ) → i < length m.uniques → Step m (shared_of_unique i m)
  copies : (i : ℕ) → i < length m.shareds → Step m (shared_copy i m)
  moves_shared : (i : ℕ) → i < length m.shareds → Step m (shared_move i m)
  assigns_shared :
      (i j : ℕ) → i < length m.shareds → j < length m.shareds → Step m (shared_assign i j m)
  moves_into :
      (i j : ℕ) → i < length m.shareds → j < length m.shareds → Step m (shared_move_assign i j m)
  swaps_shared :
      (i j : ℕ) → i < length m.shareds → j < length m.shareds → Step m (shared_swap i j m)
  resets_shared :
      (i n : ℕ) (p : Option ℕ) → i < length m.shareds → Has p m → Step m (shared_reset i p n m)

pub data Reach : Memory → Type 0 where
  begun : Reach fresh
  later : {m t : Memory} → Reach m → Step m t → Reach t

malloc_or_throw-some :
    (size : ℕ) (ok : Bool) (m t : Memory) → malloc_or_throw size ok m ≡ some t → t ≡ malloc size m
unfolding malloc_or_throw
malloc_or_throw-some size ok m t e = ground (arith, e)

make_unique_c_buffer-some :
    (w n : ℕ) (ok : Bool) (m t : Memory)
    → make_unique_c_buffer w n ok m ≡ some t
    → t ≡ unique_buffer (some m.next) n (malloc (requested w n) m)
unfolding make_unique_c_buffer malloc_or_throw
make_unique_c_buffer-some w n ok m t e = ground (arith, e)

make_shared_c_buffer-some :
    (w n : ℕ) (ok : Bool) (m t : Memory)
    → make_shared_c_buffer w n ok m ≡ some t
    → t ≡ shared_buffer (some m.next) n (malloc (requested w n) m)
unfolding make_shared_c_buffer malloc_or_throw
make_shared_c_buffer-some w n ok m t e = ground (arith, e)

as_Balanced : (m t : Memory) → m ≡ t → Balanced t → Balanced m
as_Balanced m t e o = subst (λ (x : Memory). Balanced x) (sym e) o

-- The new block is the user's until the buffer has it.
malloc-Has : (size : ℕ) (m : Memory) → Has (some m.next) (malloc size m)
unfolding malloc
malloc-Has size m = ground arith

realloc_or_free-Balanced :
    (p size : ℕ) (ok : Bool) (m : Memory)
    → 0 < count p m.loose
    → Balanced m
    → Balanced (realloc_or_free p size ok m).0
unfolding realloc_or_free
realloc_or_free-Balanced p size ok m h o =
    let freed = free_loose-Balanced p m h o in
    elim (Bool-cases (size == 0)) [
      | inl e ↦ rw e freed
      | inr e ↦ elim (Bool-cases ok) [
        | inl f ↦ rw e (rw f (malloc-Balanced size (free_loose p m) freed))
        | inr f ↦ rw e (rw f freed)
      ]
    ]

Step-Balanced : {m t : Memory} → Step m t → Balanced m → Balanced t
Step-Balanced {m} {t} (Step.allocates size ok e) o =
    as_Balanced t (malloc size m) (malloc_or_throw-some size ok m t e) (malloc-Balanced size m o)
Step-Balanced {m} (Step.reallocates p size ok h) o = realloc_or_free-Balanced p size ok m h o
Step-Balanced {m} (Step.frees p h) o = free_loose-Balanced p m h o
Step-Balanced {m} (Step.unique p n h) o = unique_buffer-Balanced p n m h o
Step-Balanced {m} {t} (Step.unique_c w n ok e) o =
    as_Balanced t (unique_buffer (some m.next) n (malloc (requested w n) m))
      (make_unique_c_buffer-some w n ok m t e)
      (unique_buffer-Balanced (some m.next) n (malloc (requested w n) m)
        (malloc-Has (requested w n) m) (malloc-Balanced (requested w n) m o))
Step-Balanced {m} (Step.moves i h) o = unique_move-Balanced i m h o
Step-Balanced {m} (Step.assigns i j h k) o = unique_assign-Balanced i j m h k o
Step-Balanced {m} (Step.swaps i j h k) o = unique_swap-Balanced i j m h k o
Step-Balanced {m} (Step.releases i h) o = unique_release-Balanced i m h o
Step-Balanced {m} (Step.resets i n p h k) o = unique_reset-Balanced i n p m h k o
Step-Balanced {m} (Step.shared p n h) o = shared_buffer-Balanced p n m h o
Step-Balanced {m} {t} (Step.shared_c w n ok e) o =
    as_Balanced t (shared_buffer (some m.next) n (malloc (requested w n) m))
      (make_shared_c_buffer-some w n ok m t e)
      (shared_buffer-Balanced (some m.next) n (malloc (requested w n) m)
        (malloc-Has (requested w n) m) (malloc-Balanced (requested w n) m o))
Step-Balanced {m} (Step.shares i h) o = shared_of_unique-Balanced i m h o
Step-Balanced {m} (Step.copies i h) o = shared_copy-Balanced i m o
Step-Balanced {m} (Step.moves_shared i h) o = shared_move-Balanced i m h o
Step-Balanced {m} (Step.assigns_shared i j h k) o = shared_assign-Balanced i j m h k o
Step-Balanced {m} (Step.moves_into i j h k) o = shared_move_assign-Balanced i j m h k o
Step-Balanced {m} (Step.swaps_shared i j h k) o = shared_swap-Balanced i j m h k o
Step-Balanced {m} (Step.resets_shared i n p h k) o = shared_reset-Balanced i n p m h k o

fresh-Balanced : Balanced fresh
fresh-Balanced = record {
  balance = λ a. omega arith;
  single = λ a. omega arith;
  unused = λ a h. refl;
  clean = refl;
  suited = λ e. refl;
}

Reach-Balanced : {m : Memory} → Reach m → Balanced m
Reach-Balanced begun = fresh-Balanced
Reach-Balanced (later h st) = Step-Balanced st (Reach-Balanced h)

-- After every program over buffers and bare pointers that uses variables that exist and gives away
-- only bare pointers that it has: nothing was freed twice or without having been allocated; every
-- allocated block is owned exactly once, by one unique buffer, by the shared buffers that have it, or
-- by the user as a bare pointer; what is not allocated is owned by nobody, so that no buffer
-- dangles and no block is leaked; and if no shared buffer was ever reset to a pointer, no block from
-- malloc was given to `delete[]`.
pub blocks_have_one_owner :
    (m : Memory)
    → Reach m
    → (m.faults ≡ 0)
      × ((a : ℕ)
          → (count a m.live ≡ holders m.uniques a + min 1 (holders m.shareds a) + count a m.loose)
            × (count a m.live ≤ 1))
      × (m.array_deleted ≡ [] → m.mismatched ≡ 0)
blocks_have_one_owner m h =
    let o = Reach-Balanced h in (o.clean, λ a. (omega (arith, o.balance a), o.single a), o.suited)

-- A buffer says that it has n elements of w bytes; its block is smaller exactly if their size does
-- not fit into `size_t`, and otherwise has exactly their size.
abbrev pub Rooms : ℕ → ℕ → Buffer → Memory → Type 0
Rooms w n b m =
    (p : ℕ) × (b.ptr ≡ some p)
    × (b.size ≡ n)
    × (0 < count p m.live)
    × ((2 ^ 64 ≤ w * n) ↔ (size_of p m.sizes < w * b.size))
    × ((w * n < 2 ^ 64) ↔ (size_of p m.sizes ≡ w * b.size))

malloc-Rooms :
    (w n : ℕ) (m : Memory)
    → (size_of m.next (malloc (requested w n) m).sizes ≡ requested w n)
      × (0 < count m.next (malloc (requested w n) m).live)
unfolding malloc
malloc-Rooms w n m = (ground arith, ground arith)

room_less : (w n : ℕ) {size : ℕ} → size ≡ requested w n → (2 ^ 64 ≤ w * n) ↔ (size < w * n)
room_less w n e = (λ k. omega (arith, e, k), λ k. omega (arith, e, k))

room_same : (w n : ℕ) {size : ℕ} → size ≡ requested w n → (w * n < 2 ^ 64) ↔ (size ≡ w * n)
room_same w n e = (λ k. omega (arith, e, k), λ k. omega (arith, e, k))

-- If the size of n elements of w bytes neither is 0 nor wraps to 0: when malloc fails,
-- `make_unique_c_buffer` and `make_shared_c_buffer` throw. When it succeeds, they give a buffer that
-- claims n elements and whose block is allocated; the block is as large as these elements exactly if
-- their size fits into `size_t`, and smaller exactly if it does not.
pub room_of_c_buffer :
    (w n : ℕ) (m : Memory)
    → requested w n ≢ 0
    → (make_unique_c_buffer w n false m ≡ none)
      × (make_shared_c_buffer w n false m ≡ none)
      × ((t : Memory) × (make_unique_c_buffer w n true m ≡ some t) × Rooms w n (at 0 t.uniques) t)
      × ((t : Memory) × (make_shared_c_buffer w n true m ≡ some t) × Rooms w n (at 0 t.shareds) t)
unfolding make_unique_c_buffer make_shared_c_buffer malloc_or_throw unique_buffer shared_buffer
    take_over
room_of_c_buffer w n m h =
    let (size, live) = malloc-Rooms w n m in
    let block = malloc (requested w n) m in
    let u : Rooms w n (record { ptr = some m.next; size = n })
        (unique_buffer (some m.next) n block) =
      (m.next, refl, refl, live, room_less w n size, room_same w n size) in
    let v : Rooms w n (record { ptr = some m.next; size = n })
        (shared_buffer (some m.next) n block) =
      (m.next, refl, refl, live, room_less w n size, room_same w n size) in
    (
      ground (arith, h),
      ground (arith, h),
      (unique_buffer (some m.next) n block, ground (arith, h), u),
      (shared_buffer (some m.next) n block, ground (arith, h), v),
    )

-- ===== src/Buffers/Examples.antt =====
-- Two unique buffers and a shared one.
use libsg.Common.{ℕ, ◌+◌, ◌^◌, ◌≡◌, ◌≤◌, min, refl, true, false, none, some, [], ◌∷◌, arith}
use libsg.Buffers.{
  Memory, fresh, count, at, holders, free, free_shared, take_over, malloc, unique_buffer,
  unique_move, shared_buffer, shared_of_unique, shared_copy, shared_reset, drop_shared,
}
use libsg.Buffers.Allocation.{malloc_or_throw, make_unique_c_buffer, make_shared_c_buffer}
use libsg.Buffers.Ownership.{
  Step, Reach, begun, later, Rooms, blocks_have_one_owner, room_of_c_buffer,
}

-- one block of 5 elements in a unique buffer
abbrev one : Memory
unfolding malloc unique_buffer take_over
one = unique_buffer (some 1) 5 (malloc 20 fresh)

-- moved to a second variable, from there into a shared buffer, which is copied
abbrev shared_twice : Memory
unfolding malloc unique_buffer take_over unique_move shared_of_unique shared_copy
shared_twice = shared_copy 0 (shared_of_unique 0 (unique_move 0 one))

-- The variables that were moved from claim 5 elements, and have none.
moved_from_sizes :
    shared_twice.uniques ≡ record { ptr = none; size = 5 } ∷ record { ptr = none; size = 5 } ∷ []
unfolding malloc unique_buffer take_over unique_move shared_of_unique shared_copy
moved_from_sizes = refl

-- One of the copies is reset, and then the other.
abbrev all_reset : Memory
unfolding malloc unique_buffer take_over unique_move shared_of_unique shared_copy shared_reset
    drop_shared free_shared free
all_reset = shared_reset 1 none 0 (shared_reset 0 none 0 shared_twice)

freed_once : all_reset.live ≡ []
unfolding malloc unique_buffer take_over unique_move shared_of_unique shared_copy shared_reset
    drop_shared free_shared free
freed_once = refl

all_reset-Reach : Reach all_reset
unfolding malloc unique_buffer take_over unique_move shared_of_unique shared_copy shared_reset
    drop_shared free_shared free malloc_or_throw make_unique_c_buffer
all_reset-Reach =
    let a : Reach one = later begun (Step.unique_c 4 5 true refl) in
    let b = later (later a (Step.moves 0 (omega arith))) (Step.shares 0 (omega arith)) in
    let c : Reach shared_twice = later b (Step.copies 0 (omega arith)) in
    later (later c (Step.resets_shared 0 0 none (omega arith) tt))
      (Step.resets_shared 1 0 none (omega arith) tt)

blocks_have_one_owner_example :
    (all_reset.faults ≡ 0)
    × ((a : ℕ)
        → (count a all_reset.live
            ≡ holders all_reset.uniques a
              + min 1 (holders all_reset.shareds a)
              + count a all_reset.loose)
          × (count a all_reset.live ≤ 1))
    × (all_reset.array_deleted ≡ [] → all_reset.mismatched ≡ 0)
blocks_have_one_owner_example = blocks_have_one_owner all_reset all_reset-Reach

-- A bare block from malloc is given to a shared buffer by reset, and the buffer ends.
abbrev reset_to_block : Memory
unfolding malloc shared_buffer take_over shared_reset drop_shared free_shared free
reset_to_block =
    shared_reset 0 none 0 (shared_reset 0 (some 1) 5 (shared_buffer none 0 (malloc 20 fresh)))

deleted_wrongly : reset_to_block.mismatched ≡ 1
unfolding malloc shared_buffer take_over shared_reset drop_shared free_shared free
deleted_wrongly = refl

-- 2 ^ 61 + 1 elements of 8 bytes: malloc is asked for 8.
room_of_c_buffer_example :
    (make_unique_c_buffer 8 (2 ^ 61 + 1) false fresh ≡ none)
    × (make_shared_c_buffer 8 (2 ^ 61 + 1) false fresh ≡ none)
    × ((t : Memory) × (make_unique_c_buffer 8 (2 ^ 61 + 1) true fresh ≡ some t)
        × Rooms 8 (2 ^ 61 + 1) (at 0 t.uniques) t)
    × ((t : Memory) × (make_shared_c_buffer 8 (2 ^ 61 + 1) true fresh ≡ some t)
        × Rooms 8 (2 ^ 61 + 1) (at 0 t.shareds) t)
room_of_c_buffer_example = room_of_c_buffer 8 (2 ^ 61 + 1) fresh (λ h. ground (arith, h))

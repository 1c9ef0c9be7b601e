-- ===== src/Buffers/Allocation.antt =====
-- common/src/memory.cpp and the functions of common/include/sg/buffer.h that allocate: malloc that may
-- fail, and the buffers made from it.
use libsg.Common.{ℕ, ◌*◌, ◌%◌, ◌^◌, Bool, true, false, Option, none, some, ◌==◌, if◌then◌else◌}
use libsg.Buffers.{Memory, malloc, unique_buffer, shared_buffer, free_loose}

-- what is asked of malloc for n elements of w bytes: the product wraps
abbrev pub requested : ℕ → ℕ → ℕ
requested w n = (w * n) % 2 ^ 64

-- `MallocOrThrow`; `ok` says whether malloc succeeds
unfoldable pub malloc_or_throw : ℕ → Bool → Memory → Option Memory
unfolding malloc
malloc_or_throw size ok m = if size == 0 then none else (if ok then some (malloc size m) else none)

unfoldable pub make_unique_c_buffer : ℕ → ℕ → Bool → Memory → Option Memory
unfolding malloc_or_throw unique_buffer
make_unique_c_buffer w n ok m = elim (malloc_or_throw (requested w n) ok m) [
  | none ↦ none
  | some t ↦ some (unique_buffer (some m.next) n t)
]

unfoldable pub make_shared_c_buffer : ℕ → ℕ → Bool → Memory → Option Memory
unfolding malloc_or_throw shared_buffer
make_shared_c_buffer w n ok m = elim (malloc_or_throw (requested w n) ok m) [
  | none ↦ none
  | some t ↦ some (shared_buffer (some m.next) n t)
]

-- `ReallocOrFreeAndThrow`: the block is freed if it throws, and also if it moves. The flag says
-- whether it returned.
unfoldable pub realloc_or_free : ℕ → ℕ → Bool → Memory → Memory × Bool
unfolding free_loose malloc
realloc_or_free p size ok m =
    if size == 0
    then (free_loose p m, false)
    else (if ok then (malloc size (free_loose p m), true) else (free_loose p m, false))

-- ===== src/RollingBuffer/Examples.antt =====
-- The buffer at concrete inputs.
use libsg.Common.{ℕ, ◌+◌, ◌*◌, ◌≤◌, ◌≡◌, refl, max, true, List, [], ◌∷◌, arith}
use libsg.RollingBuffer.{
  Buffer, make, contents, append, push_back, resize, clear, keep_from, no_to_keep, ensure_space,
  ensure_space_copy, ensure_space_move, ensure_space_clear, ensure_space_reserve, advance_pos, trim,
}
use libsg.RollingBuffer.Storage.{
  Growth, empty, reserve, insert_end, clear_items, erase_from, move_front,
}
use libsg.RollingBuffer.Invariant.{IsValid}
use libsg.RollingBuffer.Rolling.{
  Op, pushes, appends, resizes, clears, view, roll, roll_all, call, calls, calls-roll, make-IsValid,
}
use libsg.RollingBuffer.Memory.{IsBounded, calls-IsBounded, copy_disjoint, make-IsBounded}

abbrev doubles : Growth
doubles = record {
  grow = λ capacity needed. max (2 * capacity) needed;
  enough = λ capacity needed. omega arith;
  doubling = λ capacity needed. omega arith;
}

-- 4, 5, 6 at indices 3 to 5, with no free place left
abbrev full : Buffer ℕ
full = record {
  m_data = record { items = 1 ∷ 2 ∷ 3 ∷ 4 ∷ 5 ∷ 6 ∷ []; capacity = 6 };
  cb_size = 3;
  max_size = 6;
  pos_begin = 3;
  pos_end = 6;
}

full-IsValid : IsValid full
full-IsValid = omega arith

abbrev script : List (Op ℕ)
script = pushes 7 ∷ appends (8 ∷ 9 ∷ []) ∷ resizes 2 0 ∷ pushes 10 ∷ clears ∷ pushes 11 ∷ []

push_moves : (push_back doubles true 7 full).m_data.items ≡ 5 ∷ 6 ∷ 7 ∷ []
unfolding push_back ensure_space ensure_space_copy move_front erase_from insert_end advance_pos
push_moves = refl

script_run : contents (calls doubles true full script) ≡ 11 ∷ []
unfolding calls call push_back append resize clear trim ensure_space ensure_space_copy
    ensure_space_move ensure_space_clear ensure_space_reserve advance_pos contents empty reserve
    insert_end clear_items move_front erase_from
script_run = refl

calls-roll_example :
    IsValid (calls doubles true full script)
    × (view (calls doubles true full script) ≡ record { limit = 2; held = 11 ∷ [] })
unfolding contents roll roll_all
calls-roll_example = calls-roll doubles true script (omega arith) full-IsValid

calls-IsBounded_example :
    IsValid (calls doubles true (make 3 3) script)
    × IsBounded (calls doubles true (make 3 3) script)
calls-IsBounded_example =
    calls-IsBounded doubles true script (omega arith) (make-IsValid 3 3 (omega arith))
      (make-IsBounded 3 3 (omega arith))

copy_disjoint_example :
    (no_to_keep 1 full ≤ keep_from 1 full) × (keep_from 1 full + no_to_keep 1 full ≤ 6)
copy_disjoint_example = copy_disjoint true 1 full-IsValid refl refl refl

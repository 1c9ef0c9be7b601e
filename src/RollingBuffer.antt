-- ===== src/RollingBuffer.antt =====
-- common/include/sg/rolling_contiguous_buffer.h: `rolling_contiguous_buffer<T>`, a buffer that
-- keeps the last elements added to it side by side in one vector. A member function returns the
-- new buffer. Whether `T` is trivially copyable is the argument `trivial`; how a vector grows is
-- the implementation's choice, and enters as a `Growth`.
pub mod Storage
pub mod Invariant
pub mod Operations
pub mod Rolling
pub mod Memory
mod Examples
use libsg.Common.{
  ℕ, ◌+◌, ◌-◌, ◌*◌, min, Bool, true, ◌&&◌, Option, List, [], ◌∷◌, ltb, leb, if◌then◌else◌, u64,
  add64, sub64, length, take, drop, get_elem?,
}
use Storage.{Vector, Growth, empty, reserve, insert_end, erase_from, clear_items, move_front}

pub record Buffer {ℓ} (A : Type ℓ) : Type ℓ where
  pub m_data : Vector A
  pub cb_size : ℕ
  pub max_size : ℕ
  pub pos_begin : ℕ
  pub pos_end : ℕ

module _ {ℓ} {A : Type ℓ} where
  -- `vector::begin() + from` up to `vector::begin() + to`
  abbrev pub slice : ℕ → ℕ → List A → List A
  slice from to xs = take (to - from) (drop from xs)

  unfoldable pub make : ℕ → ℕ → Buffer A
  make size reserve_size = record {
    m_data = empty;
    cb_size = size;
    max_size = add64 size reserve_size;
    pos_begin = 0;
    pos_end = 0;
  }

  unfoldable pub advance_pos : ℕ → Buffer A → Buffer A
  advance_pos count b =
      let e = add64 b.pos_end count in
      record b {
        pos_end = e;
        pos_begin = if ltb b.cb_size (sub64 e b.pos_begin) then sub64 e b.cb_size else b.pos_begin;
      }

  unfoldable pub size : Buffer A → ℕ
  size b = sub64 b.pos_end b.pos_begin

  -- `begin()` up to `end()`
  unfoldable pub contents : Buffer A → List A
  contents b = slice b.pos_begin b.pos_end b.m_data.items

  -- `none` is an access past the vector's end.
  unfoldable pub at : Buffer A → ℕ → Option A
  at b i = get_elem? b.m_data.items (add64 b.pos_begin i)

  unfoldable pub front : Buffer A → Option A
  front b = get_elem? b.m_data.items b.pos_begin

  -- `*(end() - 1)`, with `end()` at `begin() + (pos_end - pos_begin)`
  unfoldable pub back : Buffer A → Option A
  back b = get_elem? b.m_data.items (sub64 (add64 b.pos_begin (sub64 b.pos_end b.pos_begin)) 1)

  unfoldable pub clear : Buffer A → Buffer A
  clear b = record b { m_data = empty; pos_begin = 0; pos_end = 0 }

  -- `append` drops the front of what is longer than the buffer.
  unfoldable pub trim : ℕ → List A → List A
  trim n xs = if ltb n (length xs) then drop (length xs - n) xs else xs

  abbrev pub no_to_keep : ℕ → Buffer A → ℕ
  no_to_keep n b = sub64 b.cb_size n

  -- the index of the first element that stays
  abbrev pub keep_from : ℕ → Buffer A → ℕ
  keep_from n b = sub64 b.pos_end (no_to_keep n b)

  -- whether `memcpy` may move the elements that stay
  abbrev pub can_copy : Bool → Buffer A → Bool
  can_copy trivial b = trivial && leb b.cb_size (sub64 b.max_size b.cb_size)

  module _ (g : Growth) where
    unfoldable pub ensure_space_move : ℕ → Buffer A → Buffer A
    ensure_space_move n b =
        let fresh =
          insert_end g (reserve b.cb_size empty) (slice (keep_from n b) b.pos_end b.m_data.items) in
        record b { m_data = fresh; pos_begin = 0; pos_end = length fresh.items }

    unfoldable pub ensure_space_copy : ℕ → Buffer A → Buffer A
    ensure_space_copy n b =
        let keep = no_to_keep n b in
        let copied = move_front (keep_from n b) keep b.m_data in
        record b { m_data = erase_from keep copied; pos_begin = 0; pos_end = keep }

    unfoldable pub ensure_space_clear : Buffer A → Buffer A
    ensure_space_clear b = record b { m_data = clear_items b.m_data; pos_begin = 0; pos_end = 0 }

    -- if the buffer has to grow, no further than `max_size`
    unfoldable pub ensure_space_reserve : ℕ → Buffer A → Buffer A
    ensure_space_reserve n b =
        if ltb b.m_data.capacity (add64 (length b.m_data.items) n)
          && ltb b.max_size (u64 (b.m_data.capacity * 2))
        then record b { m_data = reserve b.max_size b.m_data }
        else b

    unfoldable pub ensure_space : Bool → ℕ → Buffer A → Buffer A
    ensure_space trivial n b =
        if ltb b.max_size (add64 b.pos_end n)
        then (if leb b.cb_size n
            then ensure_space_clear b
            else (if can_copy trivial b then ensure_space_copy n b else ensure_space_move n b))
        else ensure_space_reserve n b

    -- `ensure_space`, the insertion at the end, and `advance_pos`, which every way of adding shares
    unfoldable pub add : Bool → List A → Buffer A → Buffer A
    add trivial xs b =
        let b' = ensure_space trivial (length xs) b in
        advance_pos (length xs) (record b' { m_data = insert_end g b'.m_data xs })

    unfoldable pub push_back : Bool → A → Buffer A → Buffer A
    unfolding add
    push_back trivial x b = add trivial (x ∷ []) b

    unfoldable pub append : Bool → List A → Buffer A → Buffer A
    unfolding add
    append trivial xs b = add trivial (trim b.cb_size xs) b

    unfoldable pub resize : ℕ → ℕ → Buffer A → Buffer A
    resize new_size reserve_size b =
        let to_copy = min (sub64 b.pos_end b.pos_begin) new_size in
        let items = b.m_data.items in
        record {
          m_data = insert_end g empty (slice (length items - to_copy) (length items) items);
          cb_size = new_size;
          max_size = add64 new_size reserve_size;
          pos_begin = 0;
          pos_end = to_copy;
        }

-- ===== src/RollingBuffer/Memory.antt =====
-- The memory of the buffer: how far its vector's allocation grows, and what `memcpy` touches.
use libsg.Common.{
  ℕ, ◌+◌, ◌-◌, ◌*◌, ◌^◌, ◌≤◌, ◌<◌, ◌≡◌, max, Bool, List, [], ◌∷◌, ◌++◌, true, false, &&-right,
  length, take, drop, length-append, length-take, length-drop, add64, sub64, if_elim, ltb, leb,
  tests, arith, ◌&&◌, ap, length-last,
}
use libsg.RollingBuffer.{
  Buffer, make, advance_pos, clear, ensure_space_move, ensure_space_copy, ensure_space_clear,
  ensure_space_reserve, ensure_space, add, push_back, append, resize, trim, can_copy, no_to_keep,
  keep_from,
}
use libsg.RollingBuffer.Storage.{
  Growth, empty, reserve, insert_end, clear_items, erase_from, move_front,
}
use libsg.RollingBuffer.Invariant.{IsValid, ensure_space-IsPrepared}
use libsg.RollingBuffer.Operations.{trim-last, resize-contents}
use libsg.RollingBuffer.Rolling.{
  Op, pushes, appends, resizes, clears, Countable, call, calls, call-IsValid,
}

-- The most that the buffer may ever allocate: its `max_size`, or twice its size where the reserve
-- is smaller than that (one element, if both are 0).
abbrev pub limit_of : {A : Type 0} → Buffer A → ℕ
limit_of b = max b.max_size (max (2 * b.cb_size) 1)

pub record IsBounded {A : Type 0} (b : Buffer A) : Type 0 where
  pub within : length b.m_data.items ≤ b.m_data.capacity
  pub bounded : b.m_data.capacity ≤ limit_of b
  pub small : limit_of b < 2 ^ 63

-- After `ensure_space n` the vector has room for `n` more, or may double.
record IsRoomy {A : Type 0} (n : ℕ) (b c : Buffer A) : Type 0 where
  within : length c.m_data.items ≤ c.m_data.capacity
  bounded : c.m_data.capacity ≤ limit_of b
  grows : c.m_data.capacity < length c.m_data.items + n → 2 * c.m_data.capacity ≤ limit_of b

module _ {A : Type 0} (g : Growth) (n : ℕ) {b : Buffer A} (v : IsValid b) (w : IsBounded b)
    (low : n ≤ max b.cb_size 1) where
  clear-IsRoomy : IsRoomy n b (ensure_space_clear g b)
  unfolding ensure_space_clear clear_items
  clear-IsRoomy = omega (arith, w)

  move-IsRoomy : n < b.cb_size → b.max_size < b.pos_end + n → IsRoomy n b (ensure_space_move g n b)
  unfolding ensure_space_move insert_end reserve empty
  move-IsRoomy h full = ground (
    arith,
    v,
    w,
    length-take keep (drop (sub64 b.pos_end keep) b.m_data.items),
    length-drop (sub64 b.pos_end keep) b.m_data.items,
  )
    where
      keep : ℕ
      keep = sub64 b.cb_size n

  copy-IsRoomy :
      n < b.cb_size
      → b.max_size < b.pos_end + n
      → b.cb_size ≤ b.max_size - b.cb_size
      → IsRoomy n b (ensure_space_copy g n b)
  unfolding ensure_space_copy move_front erase_from
  copy-IsRoomy h full reserve_size =
      let keep = sub64 b.cb_size n in
      let items = b.m_data.items in
      omega (
        arith,
        v,
        w,
        length-take keep (take keep (drop (sub64 b.pos_end keep) items) ++ drop keep items),
      )

  reserve-IsRoomy : b.pos_end + n ≤ b.max_size → IsRoomy n b (ensure_space_reserve g n b)
  unfolding ensure_space_reserve reserve
  reserve-IsRoomy h = ground (arith, v, w)

  ensure_space-IsRoomy : (trivial : Bool) → IsRoomy n b (ensure_space g trivial n b)
  unfolding ensure_space
  ensure_space-IsRoomy trivial =
      let spare = leb b.cb_size (sub64 b.max_size b.cb_size) in
      if_elim (IsRoomy n b) (ltb b.max_size (add64 b.pos_end n))
        (λ full.
          if_elim (IsRoomy n b) (leb b.cb_size n) (λ _. clear-IsRoomy)
            (λ h.
              if_elim (IsRoomy n b) (trivial && spare)
                (λ t.
                  copy-IsRoomy (omega (tests, h)) (omega (tests, full, v))
                    (omega (tests, &&-right trivial spare t, v)))
                (λ _. move-IsRoomy (omega (tests, h)) (omega (tests, full, v)))))
        (λ fits. reserve-IsRoomy (omega (tests, fits, v)))

module _ {A : Type 0} (g : Growth) {b : Buffer A} (v : IsValid b) (w : IsBounded b) where
  add-IsBounded :
      (trivial : Bool) (xs : List A) → length xs ≤ max b.cb_size 1 → IsBounded (add g trivial xs b)
  unfolding add advance_pos insert_end
  add-IsBounded trivial xs low =
      let c = ensure_space g trivial (length xs) b in
      ground (
        arith,
        w,
        ensure_space-IsPrepared g (length xs) v low trivial,
        (ensure_space-IsPrepared g (length xs) v low trivial).valid,
        ensure_space-IsRoomy g (length xs) v w low trivial,
        length-append c.m_data.items xs,
        g.doubling c.m_data.capacity (length c.m_data.items + length xs),
        g.enough c.m_data.capacity (length c.m_data.items + length xs),
      )

  capacity-resize :
      (n r : ℕ) → (resize g n r b).m_data.capacity ≡ length (resize g n r b).m_data.items
  unfolding resize insert_end empty
  capacity-resize n r =
      let m = 0 + length (resize g n r b).m_data.items in
      ground (arith, g.doubling 0 m, g.enough 0 m)

  resize-IsBounded : (n r : ℕ) → 2 * n + r + 2 < 2 ^ 63 → IsBounded (resize g n r b)
  unfolding resize
  resize-IsBounded n r h =
      let valid = (resize-contents g v n r (omega arith)).0 in
      let e = capacity-resize n r in
      record { within = omega (arith, e); bounded = omega (arith, e, valid); small = omega arith }

-- The sizes asked of a resize are those of vectors that can exist.
abbrev pub Modest : {A : Type 0} → Op A → Type 0
Modest (resizes n r) = 2 * n + r + 2 < 2 ^ 63
Modest _ = Unit {0}

abbrev pub AllModest : {A : Type 0} → List (Op A) → Type 0
AllModest [] = Unit {0}
AllModest (op ∷ ops) = Modest op × AllModest ops

module _ {A : Type 0} (g : Growth) (trivial : Bool) where
  Modest-Countable : (op : Op A) → Modest op → Countable op
  Modest-Countable (pushes x) h = tt
  Modest-Countable (appends xs) h = tt
  Modest-Countable (resizes n r) h = omega arith
  Modest-Countable clears h = tt

  call-IsBounded :
      {b : Buffer A} (op : Op A)
      → Modest op
      → IsValid b
      → IsBounded b
      → IsBounded (call g trivial b op)
  unfolding call push_back append clear empty
  call-IsBounded (pushes x) h v w = add-IsBounded g v w trivial (x ∷ []) (omega arith)
  call-IsBounded {b} (appends xs) h v w =
      add-IsBounded g v w trivial (trim b.cb_size xs)
        (omega (arith, ap length (trim-last b.cb_size xs), length-last b.cb_size xs))
  call-IsBounded (resizes n r) h v w = resize-IsBounded g v w n r h
  call-IsBounded clears h v w = omega (arith, w)

  -- From a buffer within its bound, no sequence of calls (each resize of a size that a vector can
  -- have) makes its vector allocate more than `max_size` elements, twice the size of the buffer if
  -- that is more, and one if both are 0.
  pub calls-IsBounded :
      (ops : List (Op A)) {b : Buffer A}
      → AllModest ops
      → IsValid b
      → IsBounded b
      → IsValid (calls g trivial b ops) × IsBounded (calls g trivial b ops)
  unfolding calls
  calls-IsBounded [] h v w = (v, w)
  calls-IsBounded (op ∷ ops) h v w =
      calls-IsBounded ops h.1 (call-IsValid g trivial op (Modest-Countable op h.0) v)
        (call-IsBounded op h.0 v w)

pub make-IsBounded : {A : Type 0} (n r : ℕ) → 2 * n + r + 2 < 2 ^ 63 → IsBounded (make {A = A} n r)
unfolding make empty
make-IsBounded n r h = omega arith

-- Where `ensure_space` copies the elements that stay by `memcpy`, the source lies inside the
-- vector and behind the destination, so the two ranges do not overlap.
pub copy_disjoint :
    {A : Type 0} (trivial : Bool) (n : ℕ) {b : Buffer A}
    → IsValid b
    → ltb b.max_size (add64 b.pos_end n) ≡ true
    → leb b.cb_size n ≡ false
    → can_copy trivial b ≡ true
    → (no_to_keep n b ≤ keep_from n b) × (keep_from n b + no_to_keep n b ≤ length b.m_data.items)
copy_disjoint trivial n {b} v full some_stay copies =
    let spare = &&-right trivial (leb b.cb_size (sub64 b.max_size b.cb_size)) copies in
    omega (tests, v, full, some_stay, spare)

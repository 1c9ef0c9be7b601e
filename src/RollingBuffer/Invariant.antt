-- ===== src/RollingBuffer/Invariant.antt =====
-- The representation invariant of the buffer, and `ensure_space`.
use libsg.Common.{
  ℕ, ◌+◌, ◌-◌, ◌^◌, ◌≤◌, ◌<◌, ◌≡◌, refl, sym, ap, ◌∙◌, max, Bool, ◌&&◌, List, [], ltb, leb, length,
  take, drop, last, length-take, length-drop, length-last, last_of_length, drop_all, take_all,
  take-append_self, add64, sub64, if_elim, leb→le, tests, arith,
}
use libsg.RollingBuffer.{
  Buffer, ensure_space_move, ensure_space_copy, ensure_space_clear, ensure_space_reserve,
  ensure_space, slice,
}
use libsg.RollingBuffer.Storage.{
  Growth, empty, reserve, insert_end, clear_items, erase_from, move_front,
}

pub record IsValid {ℓ} {A : Type ℓ} (b : Buffer A) : Type 0 where
  pub len : length b.m_data.items ≡ b.pos_end
  pub window : b.pos_begin ≡ b.pos_end - b.cb_size
  pub fits : b.pos_end ≤ max b.max_size 1
  pub least : b.cb_size ≤ b.max_size
  pub room : b.max_size + b.cb_size + 2 < 2 ^ 64

-- What `ensure_space n` leaves: as many free places as asked for, and the elements that stay.
pub record IsPrepared {A : Type 0} (n : ℕ) (b c : Buffer A) : Type 0 where
  pub valid : IsValid c
  pub same_size : c.cb_size ≡ b.cb_size
  pub same_max : c.max_size ≡ b.max_size
  pub free : c.pos_end + n ≤ max b.max_size 1
  pub kept : last (b.cb_size - n) c.m_data.items ≡ last (b.cb_size - n) b.m_data.items

module _ {A : Type 0} where
  pub slice_end : (from to : ℕ) (xs : List A) → length xs ≡ to → slice from to xs ≡ drop from xs
  slice_end from to xs h = take_all (to - from) (drop from xs) (omega (arith, length-drop from xs))

  module _ (g : Growth) (n : ℕ) {b : Buffer A} (v : IsValid b) (low : n ≤ max b.cb_size 1) where
    -- the elements that the two ways of moving to the front leave
    abbrev stay : List A
    stay = last (b.cb_size - n) b.m_data.items

    IsPrepared-of_stay :
        {c : Buffer A}
        → n < b.cb_size
        → b.max_size < b.pos_end + n
        → c.cb_size ≡ b.cb_size
        → c.max_size ≡ b.max_size
        → c.pos_begin ≡ 0
        → c.pos_end ≡ b.cb_size - n
        → c.m_data.items ≡ stay
        → IsPrepared n b c
    IsPrepared-of_stay {c} h full es em eb ee ei =
        let size_stay = length-last (b.cb_size - n) b.m_data.items in
        record {
          valid = record {
            len = omega (arith, v, ap length ei, size_stay);
            window = omega arith;
            fits = omega (arith, v);
            least = omega (arith, v);
            room = omega (arith, v);
          };
          same_size = es;
          same_max = em;
          free = omega (arith, v);
          kept = rw ei (last_of_length (b.cb_size - n) stay (omega (arith, v, size_stay)));
        }

    ensure_space_clear-IsPrepared : b.cb_size ≤ n → IsPrepared n b (ensure_space_clear g b)
    unfolding ensure_space_clear clear_items
    ensure_space_clear-IsPrepared h = record {
      valid = ground (arith, v);
      same_size = refl;
      same_max = refl;
      free = omega (arith, v);
      kept =
          drop_all (0 - (b.cb_size - n)) [] (omega arith)
          ∙ sym (drop_all (length b.m_data.items - (b.cb_size - n)) b.m_data.items (omega arith));
    }

    ensure_space_move-IsPrepared :
        n < b.cb_size → b.max_size < b.pos_end + n → IsPrepared n b (ensure_space_move g n b)
    unfolding ensure_space_move insert_end reserve empty
    ensure_space_move-IsPrepared h full =
        IsPrepared-of_stay h full refl refl refl
          (omega (arith, v, ap length items, length-last (b.cb_size - n) b.m_data.items)) items
      where
        items : (ensure_space_move g n b).m_data.items ≡ stay
        items =
            slice_end (sub64 b.pos_end (sub64 b.cb_size n)) b.pos_end b.m_data.items v.len
            ∙ ap (λ k. drop k b.m_data.items) (omega (arith, v))

    ensure_space_copy-IsPrepared :
        n < b.cb_size → b.max_size < b.pos_end + n → IsPrepared n b (ensure_space_copy g n b)
    unfolding ensure_space_copy move_front erase_from
    ensure_space_copy-IsPrepared h full =
        IsPrepared-of_stay h full refl refl refl (omega (arith, v)) items
      where
        keep : ℕ
        keep = sub64 b.cb_size n

        moved : List A
        moved = drop (sub64 b.pos_end keep) b.m_data.items

        length-moved : length moved ≡ keep
        length-moved = omega (arith, v, length-drop (sub64 b.pos_end keep) b.m_data.items)

        items : (ensure_space_copy g n b).m_data.items ≡ stay
        items =
            take-append_self keep (take keep moved) (drop keep b.m_data.items)
              (omega (arith, length-moved, length-take keep moved))
            ∙ take_all keep moved (omega (arith, length-moved))
            ∙ ap (λ k. drop k b.m_data.items) (omega (arith, v))

    ensure_space_reserve-IsPrepared :
        b.pos_end + n ≤ b.max_size → IsPrepared n b (ensure_space_reserve g n b)
    unfolding ensure_space_reserve reserve
    ensure_space_reserve-IsPrepared h = ground (arith, v)

    pub ensure_space-IsPrepared : (trivial : Bool) → IsPrepared n b (ensure_space g trivial n b)
    unfolding ensure_space
    ensure_space-IsPrepared trivial =
        if_elim (IsPrepared n b) (ltb b.max_size (add64 b.pos_end n))
          (λ full.
            if_elim (IsPrepared n b) (leb b.cb_size n)
              (λ h. ensure_space_clear-IsPrepared (leb→le b.cb_size n h))
              (λ h.
                if_elim (IsPrepared n b) (trivial && leb b.cb_size (sub64 b.max_size b.cb_size))
                  (λ _. ensure_space_copy-IsPrepared (omega (tests, h)) (omega (tests, full, v)))
                  (λ _. ensure_space_move-IsPrepared (omega (tests, h)) (omega (tests, full, v)))))
          (λ fits. ensure_space_reserve-IsPrepared (omega (tests, fits, v)))

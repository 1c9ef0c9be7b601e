-- ===== src/RollingBuffer/Operations.antt =====
-- What each function of the buffer does to its invariant and to what it holds.
use libsg.Common.{
  dec_le, get_elem?_of_lt, ltb→le, last-last, ℕ, ◌+◌, ◌-◌, ◌*◌, ◌^◌, ◌≤◌, ◌<◌, ◌≡◌, refl, sym, ap,
  ◌∙◌, min, max, Bool, List, [], ◌∷◌, ◌++◌, ltb, length, drop, last, length-append, length-last,
  last_all, last-append, last-append-last, last-append_parts, last-append_of_ge, get_elem?,
  get_elem?-drop, some, add64, sub64, if_elim, arith,
}
use libsg.RollingBuffer.{Buffer, advance_pos, ensure_space, add, push_back, append, resize}
use libsg.RollingBuffer.Storage.{Growth, empty, insert_end}
use libsg.RollingBuffer.{trim, contents, size, at, front, back}
use libsg.RollingBuffer.Invariant.{IsValid, IsPrepared, ensure_space-IsPrepared, slice_end}

-- Adding elements to a prepared buffer.
module _ {A : Type 0} (g : Growth) (trivial : Bool) (xs : List A) {b : Buffer A}
    (v : IsValid b) where
  pub add-IsValid : length xs ≤ max b.cb_size 1 → IsValid (add g trivial xs b)
  unfolding add advance_pos insert_end
  add-IsValid low =
      let p = ensure_space-IsPrepared g (length xs) v low trivial in
      let c = ensure_space g trivial (length xs) b in
      ground (arith, p, p.valid, length-append c.m_data.items xs)

  pub add-sizes :
      length xs ≤ max b.cb_size 1
      → ((add g trivial xs b).cb_size ≡ b.cb_size) × ((add g trivial xs b).max_size ≡ b.max_size)
  unfolding add advance_pos insert_end
  add-sizes low =
      let p = ensure_space-IsPrepared g (length xs) v low trivial in (p.same_size, p.same_max)

  pub add-contents :
      length xs ≤ max b.cb_size 1
      → last b.cb_size (add g trivial xs b).m_data.items ≡ last b.cb_size (b.m_data.items ++ xs)
  unfolding add advance_pos insert_end
  add-contents low = elim (dec_le (length xs) b.cb_size) [
    | yes h ↦
        last-append_parts b.cb_size c.m_data.items xs h
        ∙ ap (λ ys. ys ++ xs) p.kept
        ∙ sym (last-append_parts b.cb_size b.m_data.items xs h)
    | no h ↦
        last-append_of_ge b.cb_size c.m_data.items xs (omega arith)
        ∙ sym (last-append_of_ge b.cb_size b.m_data.items xs (omega arith))
  ]
    where
      c : Buffer A
      c = ensure_space g trivial (length xs) b

      p : IsPrepared (length xs) b c
      p = ensure_space-IsPrepared g (length xs) v low trivial

module _ {A : Type 0} {b : Buffer A} (v : IsValid b) where
  contents-drop : contents b ≡ drop b.pos_begin b.m_data.items
  unfolding contents
  contents-drop = slice_end b.pos_begin b.pos_end b.m_data.items v.len

  pub contents-last : contents b ≡ last b.cb_size b.m_data.items
  contents-last = contents-drop ∙ ap (λ k. drop k b.m_data.items) (omega (arith, v))

  pub size-length : size b ≡ length (contents b)
  unfolding size
  size-length = omega (arith, v, ap length contents-last, length-last b.cb_size b.m_data.items)

  elem-contents :
      (i j : ℕ) → j ≡ b.pos_begin + i → get_elem? b.m_data.items j ≡ get_elem? (contents b) i
  elem-contents i j e = rw (e, contents-drop, get_elem?-drop b.pos_begin i)

  -- Inside the buffer's size, `operator[]`, `front()` and `back()` read what it holds: the element
  -- at that position, the first and the last.
  pub reads-contents :
      (i : ℕ)
      → i < size b
      → (at b i ≡ get_elem? (contents b) i)
        × (front b ≡ get_elem? (contents b) 0)
        × (back b ≡ get_elem? (contents b) (size b - 1))
        × ((a : A) × (get_elem? (contents b) i ≡ some a))
  unfolding at front back size
  reads-contents i h = (
    elem-contents i (add64 b.pos_begin i) (omega (arith, v)),
    elem-contents 0 b.pos_begin (omega arith),
    elem-contents (size b - 1) (sub64 (add64 b.pos_begin (sub64 b.pos_end b.pos_begin)) 1)
        (omega (arith, v)),
    get_elem?_of_lt (contents b) i (omega (arith, size-length)),
  )

pub trim-last : {A : Type 0} (n : ℕ) (xs : List A) → trim n xs ≡ last n xs
unfolding trim
trim-last n xs =
    if_elim (λ ys. ys ≡ last n xs) (ltb n (length xs)) (λ _. refl)
      (λ h. sym (last_all n xs (ltb→le n (length xs) h)))

module _ {A : Type 0} (g : Growth) (trivial : Bool) {b : Buffer A} (v : IsValid b) where
  -- After adding, the buffer holds the last `cb_size` of what it held and what was added.
  add-rolls :
      (xs : List A)
      → length xs ≤ max b.cb_size 1
      → contents (add g trivial xs b) ≡ last b.cb_size (contents b ++ xs)
  add-rolls xs low =
      contents-last (add-IsValid g trivial xs v low)
      ∙ ap (λ k. last k (add g trivial xs b).m_data.items) (add-sizes g trivial xs v low).0
      ∙ add-contents g trivial xs v low
      ∙ sym (last-append b.cb_size b.m_data.items xs)
      ∙ ap (λ ys. last b.cb_size (ys ++ xs)) (sym (contents-last v))

  abbrev Adds : List A → Buffer A → Type 0
  Adds xs c =
      IsValid c
      × (c.cb_size ≡ b.cb_size)
      × (c.max_size ≡ b.max_size)
      × (contents c ≡ last b.cb_size (contents b ++ xs))

  pub push_back-Adds : (x : A) → Adds (x ∷ []) (push_back g trivial x b)
  unfolding push_back
  push_back-Adds x =
      let low : 1 ≤ max b.cb_size 1 = omega arith in
      (
        add-IsValid g trivial (x ∷ []) v low,
        (add-sizes g trivial (x ∷ []) v low).0,
        (add-sizes g trivial (x ∷ []) v low).1,
        add-rolls (x ∷ []) low,
      )

  pub append-Adds : (xs : List A) → Adds xs (append g trivial xs b)
  unfolding append
  append-Adds xs =
      let e = trim-last b.cb_size xs in
      let low : length (trim b.cb_size xs) ≤ max b.cb_size 1 =
        omega (arith, ap length e, length-last b.cb_size xs) in
      (
        add-IsValid g trivial (trim b.cb_size xs) v low,
        (add-sizes g trivial (trim b.cb_size xs) v low).0,
        (add-sizes g trivial (trim b.cb_size xs) v low).1,
        add-rolls (trim b.cb_size xs) low
            ∙ ap (λ ys. last b.cb_size (contents b ++ ys)) e
            ∙ last-append-last b.cb_size (contents b) xs,
      )

module _ {A : Type 0} (g : Growth) {b : Buffer A} (v : IsValid b) (n r : ℕ) where
  to_copy : ℕ
  to_copy = min (sub64 b.pos_end b.pos_begin) n

  to_copy-eq : to_copy ≡ min n (min b.cb_size (length b.m_data.items))
  unfolding to_copy
  to_copy-eq = omega (arith, v)

  resize-items : (resize g n r b).m_data.items ≡ last to_copy b.m_data.items
  unfolding resize insert_end empty to_copy
  resize-items =
      let items = b.m_data.items in slice_end (length items - to_copy) (length items) items refl

  resize-IsValid : 2 * n + r + 2 < 2 ^ 64 → IsValid (resize g n r b)
  unfolding resize to_copy
  resize-IsValid h =
      let e = ap length resize-items in
      let k = length-last to_copy b.m_data.items in
      record {
        len = omega (arith, v, e, k, to_copy-eq);
        window = omega (arith, v, to_copy-eq);
        fits = omega (arith, v, to_copy-eq);
        least = omega arith;
        room = omega arith;
      }

  -- `resize` keeps as many of the last elements as the new size allows.
  pub resize-contents :
      2 * n + r + 2 < 2 ^ 64
      → IsValid (resize g n r b)
        × ((resize g n r b).cb_size ≡ n)
        × (contents (resize g n r b) ≡ last n (contents b))
  unfolding resize
  resize-contents h =
      let w = resize-IsValid h in
      let all : last n (last to_copy b.m_data.items) ≡ last to_copy b.m_data.items =
        last_all n (last to_copy b.m_data.items)
          (omega (arith, to_copy-eq, length-last to_copy b.m_data.items)) in
      (
        w,
        refl,
        contents-last w
            ∙ ap (last n) resize-items
            ∙ all
            ∙ rw (contents-last v, last-last b.cb_size n b.m_data.items, to_copy-eq)
                (ap (λ k. drop k b.m_data.items) (omega arith)),
      )

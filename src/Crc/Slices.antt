-- ===== src/Crc/Slices.antt =====
-- The lookups of a word, and the blocks of two to sixteen bytes.
use libsg.Common.{
  ℕ, suc, ◌+◌, ◌/◌, ◌%◌, ◌≡◌, sym, ap, ap₂, ◌∙◌, arith, List, [], length, take, drop, length-take,
  length-drop, take-append-drop, drop-drop, take_all, drop_all,
}
use libsg.Common.Xor.{◌⊕◌, zero-xor, xor_comm}
use libsg.Crc.{table, load, look_up, block_2, block_4, block_8, block_16}
use libsg.Crc.Linear.{
  shift_bytes, shift_bytes-xor, shift_bytes-add, shift_bytes-zero, shift_bytes-split,
}
use libsg.Crc.Bytewise.{
  bytewise, AllBytes, take-AllBytes, drop-AllBytes, bytewise-append, bytewise-load, IsWord,
  xor-IsWord, load-IsWord,
}

four_more : (k : ℕ) → 4 + k ≡ suc (suc (suc (suc k)))
four_more k = omega arith

module _ (p : ℕ) where
  -- Four lookups for a word that is followed by `k` bytes.
  look_up-shift : (k r : ℕ) → IsWord r → look_up p k r ≡ shift_bytes p (suc (suc (suc (suc k)))) r
  unfolding look_up
  look_up-shift k r h =
      let top : r / 256 / 256 / 256 / 256 ≡ 0 = omega arith in
      let e3 : r / 256 / 256 / 256 % 256 ≡ r / 16777216 % 256 = omega arith in
      let e2 : r / 256 / 256 % 256 ≡ r / 65536 % 256 = omega arith in
      let none_left = ap (shift_bytes p k) top ∙ shift_bytes-zero p k in
      let s3 =
        shift_bytes-split p k (r / 256 / 256 / 256)
        ∙ ap₂ (λ (x y : ℕ). x ⊕ y) none_left (ap (table p k) e3)
        ∙ zero-xor (table p k (r / 16777216 % 256)) in
      let s2 =
        shift_bytes-split p (suc k) (r / 256 / 256)
        ∙ ap₂ (λ (x y : ℕ). x ⊕ y) s3 (ap (table p (suc k)) e2) in
      let s1 =
        shift_bytes-split p (suc (suc k)) (r / 256)
        ∙ ap (λ (x : ℕ). x ⊕ table p (suc (suc k)) (r / 256 % 256)) s2 in
      sym (
        shift_bytes-split p (suc (suc (suc k))) r
        ∙ ap (λ (x : ℕ). x ⊕ table p (suc (suc (suc k))) (r % 256)) s1)

  -- What a remainder contributes, and what the bytes do.
  bytewise-zero :
      (d : List ℕ) (r : ℕ)
      → AllBytes d
      → bytewise p d r ≡ shift_bytes p (length d) r ⊕ bytewise p d 0
  bytewise-zero d r h =
      bytewise-load p d r h
      ∙ shift_bytes-xor p (length d) r (load d)
      ∙ ap (λ (x : ℕ). shift_bytes p (length d) r ⊕ x)
          (sym (bytewise-load p d 0 h ∙ ap (shift_bytes p (length d)) (zero-xor (load d))))

  -- The first word of a block that has `k` more bytes.
  peel :
      (k : ℕ) (d : List ℕ) (r : ℕ)
      → AllBytes d
      → length d ≡ k + 4
      → IsWord r
      → bytewise p d r ≡ bytewise p (drop 4 d) 0 ⊕ look_up p k (r ⊕ load (take 4 d))
  peel k d r h l w =
      let x = r ⊕ load (take 4 d) in
      let four : length (take 4 d) ≡ 4 = omega (arith, length-take 4 d, l) in
      let left : length (drop 4 d) ≡ k = omega (arith, length-drop 4 d, l) in
      let word =
        xor-IsWord r (load (take 4 d)) w
          (load-IsWord (take 4 d) (take-AllBytes 4 d h) (omega (arith, four))) in
      let first =
        bytewise-load p (take 4 d) r (take-AllBytes 4 d h)
        ∙ ap (λ (n : ℕ). shift_bytes p n x) four in
      let rest =
        bytewise-zero (drop 4 d) (shift_bytes p 4 x) (drop-AllBytes 4 d h)
        ∙ ap (λ (n : ℕ). shift_bytes p n (shift_bytes p 4 x) ⊕ bytewise p (drop 4 d) 0) left in
      let whole = sym (shift_bytes-add p 4 k x) ∙ ap (λ (n : ℕ). shift_bytes p n x) (four_more k) in
      ap (λ (e : List ℕ). bytewise p e r) (sym (take-append-drop 4 d))
      ∙ bytewise-append p (take 4 d) (drop 4 d) r
      ∙ ap (bytewise p (drop 4 d)) first
      ∙ rest
      ∙ ap (λ (y : ℕ). y ⊕ bytewise p (drop 4 d) 0) (whole ∙ sym (look_up-shift k x word))
      ∙ xor_comm (look_up p k x) (bytewise p (drop 4 d) 0)

  peel_next :
      (k : ℕ) (d : List ℕ)
      → AllBytes d
      → length d ≡ k + 4
      → bytewise p d 0 ≡ bytewise p (drop 4 d) 0 ⊕ look_up p k (load (take 4 d))
  peel_next k d h l =
      peel k d 0 h l (omega arith)
      ∙ ap (λ (x : ℕ). bytewise p (drop 4 d) 0 ⊕ look_up p k x) (zero-xor (load (take 4 d)))

  peel_last :
      (d : List ℕ) → AllBytes d → length d ≡ 4 → bytewise p d 0 ≡ look_up p 0 (load (take 4 d))
  unfolding bytewise
  peel_last d h l =
      let none_left : drop 4 d ≡ [] = drop_all 4 d (omega (arith, l)) in
      peel_next 0 d h (omega (arith, l))
      ∙ ap (λ (e : List ℕ). bytewise p e 0 ⊕ look_up p 0 (load (take 4 d))) none_left
      ∙ zero-xor (look_up p 0 (load (take 4 d)))

  pub block_4-bytewise :
      (d : List ℕ) (r : ℕ) → AllBytes d → length d ≡ 4 → IsWord r → block_4 p d r ≡ bytewise p d r
  unfolding block_4 bytewise
  block_4-bytewise d r h l w =
      let none_left : drop 4 d ≡ [] = drop_all 4 d (omega (arith, l)) in
      let x = r ⊕ load (take 4 d) in
      sym (
        peel 0 d r h (omega (arith, l)) w
        ∙ ap (λ (e : List ℕ). bytewise p e 0 ⊕ look_up p 0 x) none_left
        ∙ zero-xor (look_up p 0 x))

  pub block_8-bytewise :
      (d : List ℕ) (r : ℕ) → AllBytes d → length d ≡ 8 → IsWord r → block_8 p d r ≡ bytewise p d r
  unfolding block_8
  block_8-bytewise d r h l w =
      let x = r ⊕ load (take 4 d) in
      let l2 : length (drop 4 d) ≡ 4 = omega (arith, length-drop 4 d, l) in
      sym (
        peel 4 d r h (omega (arith, l)) w
        ∙ ap (λ (y : ℕ). y ⊕ look_up p 4 x) (peel_last (drop 4 d) (drop-AllBytes 4 d h) l2))

  pub block_16-bytewise :
      (d : List ℕ) (r : ℕ) → AllBytes d → length d ≡ 16 → IsWord r → block_16 p d r ≡ bytewise p d r
  unfolding block_16
  block_16-bytewise d r h l w =
      let x = r ⊕ load (take 4 d) in
      let l4 : length (drop 4 d) ≡ 8 + 4 = omega (arith, length-drop 4 d, l) in
      let l8 : length (drop 8 d) ≡ 4 + 4 = omega (arith, length-drop 8 d, l) in
      let l12 : length (drop 12 d) ≡ 4 = omega (arith, length-drop 12 d, l) in
      let e8 = ap (λ (e : List ℕ). bytewise p e 0) (drop-drop 4 4 d) in
      let e12 = ap (λ (e : List ℕ). bytewise p e 0) (drop-drop 4 8 d) in
      let third = peel_next 4 (drop 8 d) (drop-AllBytes 8 d h) l8 in
      let second = peel_next 8 (drop 4 d) (drop-AllBytes 4 d h) l4 in
      let fourth = peel_last (drop 12 d) (drop-AllBytes 12 d h) l12 in
      sym (
        peel 12 d r h (omega (arith, l)) w
        ∙ ap (λ (y : ℕ). y ⊕ look_up p 12 x)
            (second
              ∙ ap (λ (y : ℕ). y ⊕ look_up p 8 (load (take 4 (drop 4 d))))
                  (e8
                    ∙ third
                    ∙ ap (λ (y : ℕ). y ⊕ look_up p 4 (load (take 4 (drop 8 d)))) (e12 ∙ fourth))))

  pub block_2-bytewise :
      (d : List ℕ) (r : ℕ) → AllBytes d → length d ≡ 2 → block_2 p d r ≡ bytewise p d r
  unfolding block_2
  block_2-bytewise d r h l =
      let x = r ⊕ load (take 2 d) in
      let all : take 2 d ≡ d = take_all 2 d (omega (arith, l)) in
      let high : x / 256 / 256 ≡ x / 65536 = omega arith in
      let low =
        shift_bytes-split p 0 (x / 256) ∙ ap (λ (y : ℕ). y ⊕ table p 0 (x / 256 % 256)) high in
      let whole = shift_bytes-split p 1 x ∙ ap (λ (y : ℕ). y ⊕ table p 1 (x % 256)) low in
      sym (
        bytewise-load p d r h
        ∙ ap (λ (n : ℕ). shift_bytes p n (r ⊕ load d)) l
        ∙ ap (λ (e : List ℕ). shift_bytes p 2 (r ⊕ load e)) (sym all)
        ∙ whole)

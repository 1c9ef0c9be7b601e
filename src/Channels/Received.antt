-- ===== src/Channels/Received.antt =====
-- common/include/sg/data: what the channels hold after `from_bytes`.
use libsg.Common.{
  ℕ, ◌+◌, ◌-◌, ◌*◌, ◌/◌, ◌%◌, ◌<◌, ◌≡◌, Bool, true, Option, none, some, List, [], ◌∷◌, ◌++◌, length,
  drop, last, length-append, append_assoc, ltb, if◌then◌else◌, arith, refl, ap, ap₂, sym, subst₂,
  ◌⊎◌, inl, inr, ◌∙◌, drop-append_of_ge,
}
use libsg.Bytes.{Endian, object_bytes, object_value, range_to_bytes, to_object}
use libsg.Bytes.Order.{take-object_bytes}
use libsg.Bytes.Digits.{Fits, length-object_bytes, object_value-object_bytes}
use libsg.RollingBuffer.{Buffer, append, contents}
use libsg.RollingBuffer.Storage.{Growth}
use libsg.RollingBuffer.Invariant.{IsValid}
use libsg.RollingBuffer.Operations.{append-Adds}
use libsg.Channels.{read_elements, vector_from_bytes, rolling_from_bytes}
use native.Mathlib.Nat.{mul-add-mod_self_left, mod-eq_of_lt, mul-add-div, div-eq_of_lt, mul-suc}

abbrev pub AllFit : ℕ → List ℕ → Type 0
AllFit w [] = Unit {0}
AllFit w (x ∷ xs) = Fits w x × AllFit w xs

length-range_to_bytes :
    (native : Endian) (w : ℕ) (xs : List ℕ) → length (range_to_bytes native w xs) ≡ w * length xs
unfolding range_to_bytes
length-range_to_bytes native w [] = omega arith
length-range_to_bytes native w (x ∷ xs) =
    let step = length-append (object_bytes native w x) (range_to_bytes native w xs) in
    let ih = length-range_to_bytes native w xs in
    step
    ∙ ap₂ (λ a b. a + b) (length-object_bytes native w x) ih
    ∙ omega (arith, mul-suc w (length xs))

read_elements-range_to_bytes :
    (native : Endian) (w : ℕ) (xs rest : List ℕ)
    → AllFit w xs
    → read_elements native w (length xs) (range_to_bytes native w xs ++ rest) ≡ xs
unfolding read_elements range_to_bytes to_object
read_elements-range_to_bytes native w [] rest h = refl
read_elements-range_to_bytes native w (x ∷ xs) rest h =
    let more = range_to_bytes native w xs ++ rest in
    let e = append_assoc (object_bytes native w x) (range_to_bytes native w xs) rest in
    let value =
      ap (object_value native) (take-object_bytes native w x more)
      ∙ object_value-object_bytes native w x h.0 in
    let n = length-object_bytes native w x in
    let none_left : w - length (object_bytes native w x) ≡ 0 = omega (arith, n) in
    let left =
      drop-append_of_ge w (object_bytes native w x) more (omega (arith, n))
      ∙ ap (λ k. drop k more) none_left in
    ap (λ l. to_object native w l ∷ read_elements native w (length xs) (drop w l)) e
    ∙ ap₂ ◌∷◌ value (
        ap (read_elements native w (length xs)) left
        ∙ read_elements-range_to_bytes native w xs rest h.1)

module _ (native : Endian) (w : ℕ) (xs extra : List ℕ) (short : length extra < w) where
  message : List ℕ
  message = range_to_bytes native w xs ++ extra

  length-message : length message ≡ w * length xs + length extra
  unfolding message
  length-message =
      length-append (range_to_bytes native w xs) extra
      ∙ ap (λ n. n + length extra) (length-range_to_bytes native w xs)

  left_over : length message % w ≡ length extra
  left_over =
      ap (λ n. n % w) length-message
      ∙ mul-add-mod_self_left w (length xs) (length extra)
      ∙ mod-eq_of_lt {n = length extra} {m = w} short

  element_count : length message / w ≡ length xs
  element_count =
      ap (λ n. n / w) length-message
      ∙ mul-add-div {m = w} (omega (arith, short)) (length xs) (length extra)
      ∙ omega (arith, div-eq_of_lt {n = length extra} {m = w} short)

  -- the elements that `from_bytes` finds
  found : AllFit w xs → read_elements native w (length message / w) message ≡ xs
  unfolding message
  found h =
      ap (λ n. read_elements native w n message) element_count
      ∙ read_elements-range_to_bytes native w xs extra h

vector_from_bytes_lem :
    (native : Endian) (w : ℕ) (xs extra : List ℕ)
    → length extra < w
    → AllFit w xs
    → vector_from_bytes native w (range_to_bytes native w xs ++ extra)
      ≡ (if ltb 0 (length extra) then none else some xs)
unfolding vector_from_bytes message
vector_from_bytes_lem native w xs extra short h =
    ap₂ (λ n l. if ltb 0 n then none else some l) (left_over native w xs extra short)
      (found native w xs extra short h)

rolling_from_bytes_lem :
    (g : Growth) (trivial : Bool) (native : Endian) (w : ℕ) (xs extra : List ℕ) (b : Buffer ℕ)
    → length extra < w
    → AllFit w xs
    → rolling_from_bytes g trivial native w (range_to_bytes native w xs ++ extra) b
      ≡ (if ltb 0 (length extra) then none else some (append g trivial xs b))
unfolding rolling_from_bytes message
rolling_from_bytes_lem g trivial native w xs extra b short h =
    ap₂ (λ n l. if ltb 0 n then none else some (append g trivial l b))
      (left_over native w xs extra short) (found native w xs extra short h)

-- What a vector and a valid rolling buffer hold once a channel was given these elements.
abbrev pub Received : Option (List ℕ) → Option (Buffer ℕ) → Buffer ℕ → List ℕ → Type 0
Received (some ys) (some c) b xs =
    (ys ≡ xs) × IsValid c × (contents c ≡ last b.cb_size (contents b ++ xs))
Received _ _ b xs = ⊥

abbrev pub Refused : Option (List ℕ) → Option (Buffer ℕ) → Type 0
Refused none none = Unit {0}
Refused _ _ = ⊥

-- Take the bytes of some elements of w bytes, followed by fewer than w further bytes. If there are
-- further bytes, `from_bytes` of either channel refuses. If there are none, the vector channel
-- holds these elements afterwards and no others, and the rolling channel, whose buffer stays valid,
-- the last of its elements followed by these.
pub from_bytes-message :
    (g : Growth) (trivial : Bool) (native : Endian) (w : ℕ) (xs extra : List ℕ) (b : Buffer ℕ)
    → length extra < w
    → AllFit w xs
    → IsValid b
    → ((0 < length extra)
        × Refused
            (vector_from_bytes native w (range_to_bytes native w xs ++ extra))
            (rolling_from_bytes g trivial native w (range_to_bytes native w xs ++ extra) b))
      ⊎ ((extra ≡ [])
          × Received
              (vector_from_bytes native w (range_to_bytes native w xs ++ extra))
              (rolling_from_bytes g trivial native w (range_to_bytes native w xs ++ extra) b)
              b
              xs)
from_bytes-message g trivial native w xs [] b short h v =
    let e = vector_from_bytes_lem native w xs [] short h in
    let f = rolling_from_bytes_lem g trivial native w xs [] b short h in
    let (valid, _, _, held) = append-Adds g trivial v xs in
    inr (refl, subst₂ (λ u c. Received u c b xs) (sym e) (sym f) (refl, valid, held))
from_bytes-message g trivial native w xs (x ∷ extra) b short h v =
    let more : ltb 0 (length (x ∷ extra)) ≡ true = ground arith in
    let e =
      vector_from_bytes_lem native w xs (x ∷ extra) short h
      ∙ ap (λ t. if t then none else some xs) more in
    let f =
      rolling_from_bytes_lem g trivial native w xs (x ∷ extra) b short h
      ∙ ap (λ t. if t then none else some (append g trivial xs b)) more in
    inl (omega arith, subst₂ Refused (sym e) (sym f) tt)

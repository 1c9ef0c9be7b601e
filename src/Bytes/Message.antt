-- ===== src/Bytes/Message.antt =====
-- Values written one after the other on one processor and read on another.
use libsg.Common.{
  ℕ, ◌+◌, ◌-◌, ◌^◌, ◌≡◌, ◌≤◌, ◌<◌, refl, sym, ap, ap₂, ◌∙◌, Bool, true, false, Option, none, some,
  List, [], ◌∷◌, ◌++◌, map, append_assoc, length, drop, ltb, leb, le→ltb, lt→ltb, ltb→lt, ltb→le,
  le→leb, lt→leb, arith, Bool-cases, length-append, length-drop, drop-append_of_ge, inl, inr,
}
use libsg.Bytes.{
  Endian, object_bytes, to_bytes, to_numeric, to_numeric_within, range_to_bytes,
  to_numeric_and_advance_ptr, to_numeric_and_advance_iterator,
}
use libsg.Bytes.Digits.{lt→Fits, length-object_bytes}
use libsg.Bytes.Order.{to_bytes-object_bytes, to_numeric-object_bytes}

pub record Format : Type 0 where
  pub width : ℕ
  pub order : Endian

pub record Field : Type 0 where
  pub format : Format
  pub value : ℕ

abbrev pub AreWords : List Field → Type 0
AreWords [] = Unit
AreWords (f ∷ fs) = (f.value < 256 ^ f.format.width) × AreWords fs

abbrev pub formats : List Field → List Format
formats [] = []
formats (f ∷ fs) = f.format ∷ formats fs

abbrev pub values : List Field → List ℕ
values [] = []
values (f ∷ fs) = f.value ∷ values fs

unfoldable pub encode : Endian → List Field → List ℕ
encode native [] = []
encode native (f ∷ fs) = to_bytes native f.format.width f.value f.format.order ++ encode native fs

abbrev prepend : ℕ → Option (List ℕ × List ℕ) → Option (List ℕ × List ℕ)
prepend x none = none
prepend x (some (xs, rest)) = some (x ∷ xs, rest)

abbrev and_then :
    (List ℕ → Option (List ℕ × List ℕ)) → Option (ℕ × List ℕ) → Option (List ℕ × List ℕ)
and_then k none = none
and_then k (some (x, rest)) = prepend x (k rest)

unfoldable pub decode : Endian → List Format → List ℕ → Option (List ℕ × List ℕ)
decode native [] range = some ([], range)
decode native (f ∷ fs) range =
    and_then (decode native fs) (to_numeric_and_advance_iterator native f.width range f.order)

abbrev pub is_some {ℓ} : {A : Type ℓ} → Option A → Bool
is_some none = false
is_some (some x) = true

length-to_bytes : (native : Endian) (w x : ℕ) (dst : Endian) → length (to_bytes native w x dst) ≡ w
length-to_bytes native w x dst =
    ap length (to_bytes-object_bytes native w x dst) ∙ length-object_bytes dst w x

advance-none :
    (b : Endian) (w : ℕ) (range : List ℕ) (src : Endian)
    → length range < w
    → to_numeric_and_advance_iterator b w range src ≡ none
unfolding to_numeric_and_advance_iterator to_numeric_within
advance-none b w range src h =
    rw (lt→ltb (length range) w h, to_numeric_and_advance_iterator, to_numeric_within) refl

advance-some :
    (b : Endian) (w : ℕ) (range : List ℕ) (src : Endian)
    → w ≤ length range
    → to_numeric_and_advance_iterator b w range src
      ≡ some (to_numeric_and_advance_ptr b w range src)
unfolding to_numeric_and_advance_iterator to_numeric_within to_numeric_and_advance_ptr
advance-some b w range src h =
    rw (le→ltb (length range) w h, to_numeric_and_advance_iterator, to_numeric_within) refl

drop-append_self : (n : ℕ) (xs ys : List ℕ) → length xs ≡ n → drop n (xs ++ ys) ≡ ys
drop-append_self n xs ys h =
    let z : n - length xs ≡ 0 = omega (arith, h) in
    drop-append_of_ge n xs ys (omega (arith, h)) ∙ ap (λ k. drop k ys) z

advance-to_bytes :
    (a b : Endian) (w x : ℕ) (rest : List ℕ) (e : Endian)
    → x < 256 ^ w
    → to_numeric_and_advance_iterator b w (to_bytes a w x e ++ rest) e ≡ some (x, rest)
unfolding to_numeric_and_advance_ptr
advance-to_bytes a b w x rest e h =
    let n = length-object_bytes e w x in
    let enough : w ≤ length (object_bytes e w x ++ rest) =
      omega (arith, n, length-append (object_bytes e w x) rest) in
    rw (to_bytes-object_bytes a w x e) (
      rw (advance-some b w (object_bytes e w x ++ rest) e enough) (
        rw (to_numeric-object_bytes b w x rest e (lt→Fits w x h))
          (ap (λ r. some (x, r)) (drop-append_self w (object_bytes e w x) rest n))))

decode-encode :
    (a b : Endian) (fs : List Field) (rest : List ℕ)
    → AreWords fs
    → decode b (formats fs) (encode a fs ++ rest) ≡ some (values fs, rest)
unfolding decode encode
decode-encode a b [] rest h = refl
decode-encode a b (f ∷ fs) rest (p, h) =
    let w = f.format.width in
    let bs = to_bytes a w f.value f.format.order in
    let first = advance-to_bytes a b w f.value (encode a fs ++ rest) f.format.order p in
    ap (decode b (formats (f ∷ fs))) (append_assoc bs (encode a fs) rest)
    ∙ ap (and_then (decode b (formats fs))) first
    ∙ ap (prepend f.value) (decode-encode a b fs rest h)

is_some-prepend : (x : ℕ) (r : Option (List ℕ × List ℕ)) → is_some (prepend x r) ≡ is_some r
is_some-prepend x none = refl
is_some-prepend x (some r) = refl

leb_shift : (a b c : ℕ) → a ≤ c → leb b (c - a) ≡ leb (a + b) c
leb_shift a b c h = ground arith

decode-is_some :
    (a b : Endian) (fs : List Field) (cut : List ℕ)
    → is_some (decode b (formats fs) cut) ≡ leb (length (encode a fs)) (length cut)
unfolding decode encode to_numeric_and_advance_ptr
decode-is_some a b [] cut = sym (le→leb 0 (length cut) (omega arith))
decode-is_some a b (f ∷ fs) cut =
    let w = f.format.width in
    let bs = to_bytes a w f.value f.format.order in
    let l : length (bs ++ encode a fs) ≡ w + length (encode a fs) =
      omega (arith, length-to_bytes a w f.value f.format.order, length-append bs (encode a fs)) in
    let k = and_then (decode b (formats fs)) in
    elim (Bool-cases (ltb (length cut) w)) [
      | inl e ↦
          let short = ltb→lt (length cut) w e in
          ap (λ r. is_some (k r)) (advance-none b w cut f.format.order short)
          ∙ sym (lt→leb (length (bs ++ encode a fs)) (length cut) (omega (arith, l, short)))
      | inr e ↦
          let long = ltb→le (length cut) w e in
          ap (λ r. is_some (k r)) (advance-some b w cut f.format.order long)
          ∙ is_some-prepend (to_numeric b w cut f.format.order) (decode b (formats fs) (drop w cut))
          ∙ decode-is_some a b fs (drop w cut)
          ∙ ap (leb (length (encode a fs))) (length-drop w cut)
          ∙ leb_shift w (length (encode a fs)) (length cut) long
          ∙ ap (λ n. leb n (length cut)) (sym l)
    ]

abbrev field : Endian → ℕ → ℕ → Field
field order w x = record { format = record { width = w; order = order }; value = x }

-- A range of integers of one width is written in the order of the processor.
pub range_to_bytes-encode :
    (native : Endian) (w : ℕ) (xs : List ℕ)
    → range_to_bytes native w xs ≡ encode native (map (field native w) xs)
unfolding range_to_bytes encode
range_to_bytes-encode native w [] = refl
range_to_bytes-encode native w (x ∷ xs) =
    ap₂ ◌++◌ (sym (to_bytes-object_bytes native w x native)) (range_to_bytes-encode native w xs)

-- Integers of any widths, each in its byte order, that a processor of one byte order writes with
-- `to_bytes` one after the other: a processor of any byte order that reads them with
-- `to_numeric_and_advance_iterator` gets the values back, and is left with what follows them. On any
-- range, the reads end without an exception exactly when it has at least as many bytes as these.
pub message_read_back :
    (writer reader : Endian) (fields : List Field) (rest cut : List ℕ)
    → AreWords fields
    → (decode reader (formats fields) (encode writer fields ++ rest) ≡ some (values fields, rest))
      × (is_some (decode reader (formats fields) cut)
          ≡ leb (length (encode writer fields)) (length cut))
message_read_back writer reader fields rest cut h =
    (decode-encode writer reader fields rest h, decode-is_some writer reader fields cut)

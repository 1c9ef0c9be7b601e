-- ===== src/TcpClientSync/Errors.antt =====
-- What each call that reads answers, and what it does to the connection.
use libsg.Common.{
  ℕ, ◌≤◌, ◌<◌, ◌≡◌, ◌⊎◌, inl, inr, refl, sym, subst, Bool, true, false, Option, some, List, [], ◌∷◌,
  ◌++◌, length, ltb, ltb→le, arith, length-take, Bool-cases, Option-cases,
}
use libsg.TcpClientSync.{
  Answer, Client, Result, ErrorCode, throw_on_read_error, fill, give, give_all, some_arrived,
  connect, disconnect, read, read_some, read_until,
}
use libsg.TcpClientSync.Contract.{AnswersRead}

-- What the caller sees and what stays, of a call that reads on a connected client.
abbrev pub Sees : Client → Client × Result → Type 0
Sees c (d, Result.bytes xs) = (d.is_open ≡ true) × (d.returned ≡ c.returned ++ xs)
Sees c (d, Result.time_out) = (d.is_open ≡ true) × (d.returned ≡ c.returned)
Sees c (d, Result.failed) = (d.is_open ≡ false) × (d.returned ≡ c.returned)
Sees c (d, Result.done) = ⊥
Sees c (d, Result.not_connected) = ⊥
Sees c (d, Result.already_connected) = ⊥

abbrev pub HasSize : ℕ → Result → Type 0
HasSize size (Result.bytes xs) = length xs ≡ size
HasSize size Result.time_out = Unit
HasSize size Result.failed = Unit
HasSize size Result.done = ⊥
HasSize size Result.not_connected = ⊥
HasSize size Result.already_connected = ⊥

give-Sees : (n : ℕ) (c : Client) → c.is_open ≡ true → Sees c (give n c)
unfolding give
give-Sees n c o = (o, refl)

give_all-Sees : (c : Client) → c.is_open ≡ true → Sees c (give_all c)
unfolding give_all
give_all-Sees c o = (o, refl)

throw-Sees : (ec : ErrorCode) (c : Client) → c.is_open ≡ true → Sees c (throw_on_read_error ec c)
unfolding throw_on_read_error disconnect
throw-Sees ErrorCode.timed_out c o = (o, refl)
throw-Sees ErrorCode.operation_aborted c o = (o, refl)
throw-Sees (ErrorCode.other n) c o = (refl, refl)

throw-HasSize : (size : ℕ) (ec : ErrorCode) (c : Client) → HasSize size (throw_on_read_error ec c).1
unfolding throw_on_read_error disconnect
throw-HasSize size ErrorCode.timed_out c = tt
throw-HasSize size ErrorCode.operation_aborted c = tt
throw-HasSize size (ErrorCode.other n) c = tt

-- The caller of a filled client is the caller of the client.
fill-Sees : (a : Answer) (c : Client) (r : Client × Result) → Sees (fill a c) r → Sees c r
unfolding fill
fill-Sees a c (d, Result.bytes xs) s = s
fill-Sees a c (d, Result.time_out) s = s
fill-Sees a c (d, Result.failed) s = s
fill-Sees a c (d, Result.done) s = s
fill-Sees a c (d, Result.not_connected) s = s
fill-Sees a c (d, Result.already_connected) s = s

-- Which of the helpers a call comes down to.
by_equation : (c : Client) (r s : Client × Result) → r ≡ s → Sees c s → Sees c r
by_equation c r s e h = subst (Sees c) (sym e) h

read_until-Sees : (a : Answer) (c : Client) → c.is_open ≡ true → Sees c (read_until a c)
unfolding read_until fill
read_until-Sees a c o = elim (Option-cases a.ec) [
  | inl e ↦
      by_equation c (read_until a c) (give a.n (fill a c)) (ground (arith, o, e))
        (fill-Sees a c (give a.n (fill a c)) (give-Sees a.n (fill a c) o))
  | inr (ec, e) ↦
      by_equation c (read_until a c) (throw_on_read_error ec (fill a c)) (ground (arith, o, e))
        (fill-Sees a c (throw_on_read_error ec (fill a c)) (throw-Sees ec (fill a c) o))
]

read-Sees : (size : ℕ) (a : Answer) (c : Client) → c.is_open ≡ true → Sees c (read size a c)
unfolding read fill
read-Sees size a c o = elim (Bool-cases (ltb (length c.read_buffer) size)) [
  | inr l ↦ by_equation c (read size a c) (give size c) (ground (arith, o, l)) (give-Sees size c o)
  | inl l ↦ elim (Option-cases a.ec) [
    | inl e ↦
        by_equation c (read size a c) (give size (fill a c)) (ground (arith, o, l, e))
          (fill-Sees a c (give size (fill a c)) (give-Sees size (fill a c) o))
    | inr (ec, e) ↦
        by_equation c (read size a c) (throw_on_read_error ec (fill a c)) (ground (arith, o, l, e))
          (fill-Sees a c (throw_on_read_error ec (fill a c)) (throw-Sees ec (fill a c) o))
  ]
]

List-cases : (xs : List ℕ) → (xs ≡ []) ⊎ ((y : ℕ) × (ys : List ℕ) × (xs ≡ y ∷ ys))
List-cases [] = inl refl
List-cases (y ∷ ys) = inr (y, ys, refl)

some_arrived-Sees : (a : Answer) (c : Client) → c.is_open ≡ true → Sees c (some_arrived a c)
unfolding some_arrived
some_arrived-Sees a c o = elim (List-cases c.read_buffer) [
  | inr (y, ys, l) ↦
      by_equation c (some_arrived a c) (give_all c) (ground (arith, l)) (give_all-Sees c o)
  | inl l ↦ elim (Option-cases a.ec) [
    | inl e ↦
        by_equation c (some_arrived a c) (give_all c) (ground (arith, l, e)) (give_all-Sees c o)
    | inr (ec, e) ↦
        by_equation c (some_arrived a c) (throw_on_read_error ec c) (ground (arith, l, e))
          (throw-Sees ec c o)
  ]
]

read_some-Sees : (a : Answer) (c : Client) → c.is_open ≡ true → Sees c (read_some a c)
unfolding read_some fill
read_some-Sees a c o = elim (List-cases c.read_buffer) [
  | inr (y, ys, l) ↦
      by_equation c (read_some a c) (give_all c) (ground (arith, o, l)) (give_all-Sees c o)
  | inl l ↦
      by_equation c (read_some a c) (some_arrived a (fill a c)) (ground (arith, o, l))
        (fill-Sees a c (some_arrived a (fill a c)) (some_arrived-Sees a (fill a c) o))
]

give-HasSize : (n : ℕ) (c : Client) → n ≤ length c.read_buffer → HasSize n (give n c).1
unfolding give
give-HasSize n c h = omega (arith, length-take n c.read_buffer, h)

has_size : (size : ℕ) (r s : Client × Result) → r ≡ s → HasSize size s.1 → HasSize size r.1
has_size size r s e h = subst (λ (x : Client × Result). HasSize size x.1) (sym e) h

read-HasSize :
    (size : ℕ) (a : Answer) (c : Client)
    → c.is_open ≡ true
    → AnswersRead size c a
    → HasSize size (read size a c).1
unfolding read fill
read-HasSize size a c o k = elim (Bool-cases (ltb (length c.read_buffer) size)) [
  | inr l ↦
      has_size size (read size a c) (give size c) (ground (arith, o, l))
        (give-HasSize size c (ltb→le (length c.read_buffer) size l))
  | inl l ↦ elim (Option-cases a.ec) [
    | inl e ↦
        has_size size (read size a c) (give size (fill a c)) (ground (arith, o, l, e))
          (give-HasSize size (fill a c) (omega (arith, k e)))
    | inr (ec, e) ↦
        has_size size (read size a c) (throw_on_read_error ec (fill a c)) (ground (arith, o, l, e))
          (throw-HasSize size ec (fill a c))
  ]
]

-- On a connected client, if Boost.Asio fills the buffer of `read` as documented, and whatever else
-- the operation comes to: a call that reads returns bytes, times out or fails otherwise. With bytes it
-- keeps the connection, and the bytes come after those returned before; when it times out it keeps
-- the connection and returns nothing; when it fails otherwise it ends the connection and returns
-- nothing. `read(size)` never returns more or less than `size` bytes.
pub reads_see :
    (c : Client) (a : Answer) (size : ℕ)
    → c.is_open ≡ true
    → AnswersRead size c a
    → Sees c (read_until a c)
      × Sees c (read_some a c)
      × Sees c (read size a c)
      × HasSize size (read size a c).1
reads_see c a size o k =
    (read_until-Sees a c o, read_some-Sees a c o, read-Sees size a c o, read-HasSize size a c o k)

-- If the connection ends while `read` waits for more bytes, `read` throws, and the bytes that had
-- arrived stay buffered; but every later call that reads refuses and changes nothing, and `connect`
-- drops them: no later read returns them.
pub bytes_lost_at_end :
    (c : Client) (a : Answer) (size k : ℕ)
    → c.is_open ≡ true
    → length c.read_buffer < size
    → a.ec ≡ some (ErrorCode.other k)
    → let d = (read size a c).0 in
      ((read size a c).1 ≡ Result.failed)
      × (d.read_buffer ≡ c.read_buffer ++ a.arrived)
      × ((b : Answer) (n : ℕ)
          → (read_until b d ≡ (d, Result.not_connected))
            × (read_some b d ≡ (d, Result.not_connected))
            × (read n b d ≡ (d, Result.not_connected)))
      × ((ec : Option ErrorCode) (left_open : Bool) → (connect ec left_open d).0.read_buffer ≡ [])
unfolding read read_until read_some fill throw_on_read_error disconnect connect
bytes_lost_at_end c a size k o short e = (
  ground (arith, o, short, e),
  ground (arith, o, short, e),
  λ b n. ground (arith, o, short, e),
  λ ec l. ground (arith, o, short, e),
)

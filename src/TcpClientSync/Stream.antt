-- ===== src/TcpClientSync/Stream.antt =====
-- The caller gets the bytes of the socket, in order.
use libsg.Common.{
  ℕ, ◌≡◌, inl, inr, refl, sym, ap, ◌∙◌, List, ◌++◌, take, drop, arith, append-nil, append_assoc,
  take-append-drop, Option-cases,
}
use libsg.TcpClientSync.{
  Answer, Client, fresh, ErrorCode, throw_on_read_error, fill, give, give_all, some_arrived,
  connect, disconnect, read, read_some, read_until, write,
}
use libsg.TcpClientSync.Contract.{Call, Calls, here, next}

-- All bytes that were taken from the socket were returned or are buffered.
abbrev pub InOrder : Client → Type 0
InOrder c = c.received ≡ c.returned ++ c.read_buffer

fill-InOrder : (a : Answer) (c : Client) → InOrder c → InOrder (fill a c)
unfolding fill
fill-InOrder a c h =
    ap (λ (x : List ℕ). x ++ a.arrived) h ∙ append_assoc c.returned c.read_buffer a.arrived

give-InOrder : (n : ℕ) (c : Client) → InOrder c → InOrder (give n c).0
unfolding give
give-InOrder n c h =
    h
    ∙ ap (λ (x : List ℕ). c.returned ++ x) (sym (take-append-drop n c.read_buffer))
    ∙ sym (append_assoc c.returned (take n c.read_buffer) (drop n c.read_buffer))

give_all-InOrder : (c : Client) → InOrder c → InOrder (give_all c).0
unfolding give_all
give_all-InOrder c h = h ∙ sym (append-nil (c.returned ++ c.read_buffer))

throw-InOrder : (ec : ErrorCode) (c : Client) → InOrder c → InOrder (throw_on_read_error ec c).0
unfolding throw_on_read_error disconnect
throw-InOrder ec c h = ground (arith, h)

some_arrived-InOrder : (a : Answer) (c : Client) → InOrder c → InOrder (some_arrived a c).0
unfolding some_arrived
some_arrived-InOrder a c h = elim (Option-cases a.ec) [
  | inl e ↦ ground (arith, e, give_all-InOrder c h)
  | inr (ec, e) ↦ ground (arith, e, give_all-InOrder c h, throw-InOrder ec c h)
]

Call-InOrder : {c d : Client} → Call c d → InOrder c → InOrder d
unfolding connect disconnect read read_some read_until write
Call-InOrder (Call.connects ec left_open) h = ground (arith, h)
Call-InOrder Call.disconnects h = h
Call-InOrder {c} (Call.reads_until a k) h = elim (Option-cases a.ec) [
  | inl e ↦ ground (arith, h, e, give-InOrder a.n (fill a c) (fill-InOrder a c h))
  | inr (ec, e) ↦ ground (arith, h, e, throw-InOrder ec (fill a c) (fill-InOrder a c h))
]
Call-InOrder {c} (Call.reads_some a k) h =
    ground (arith, h, give_all-InOrder c h, some_arrived-InOrder a (fill a c) (fill-InOrder a c h))
Call-InOrder {c} (Call.reads size a k) h = elim (Option-cases a.ec) [
  | inl e ↦
      ground (arith, h, e, give-InOrder size c h, give-InOrder size (fill a c) (fill-InOrder a c h))
  | inr (ec, e) ↦
      ground (arith, h, e, give-InOrder size c h, throw-InOrder ec (fill a c) (fill-InOrder a c h))
]
Call-InOrder (Call.writes ec) h = ground (arith, h)

Calls-InOrder : {c : Client} → Calls fresh c → InOrder c
Calls-InOrder here = refl
Calls-InOrder (next h k) = Call-InOrder k (Calls-InOrder h)

-- After every sequence of calls whose operations do what Boost.Asio documents, the bytes taken from
-- the socket since the last `connect` are the bytes returned to the caller, in order, followed by
-- those that are buffered: none is lost, repeated or moved by timeouts and errors.
pub stream_in_order : (c : Client) → Calls fresh c → c.received ≡ c.returned ++ c.read_buffer
stream_in_order c h = Calls-InOrder h

-- ===== src/TcpClientSync/Examples.antt =====
-- A client that is connected, reads a line in two parts, and whose peer then goes.
use libsg.Common.{◌≡◌, refl, false, none, some, [], ◌∷◌, ◌++◌, arith}
use libsg.TcpClientSync.{
  Answer, Client, fresh, ErrorCode, throw_on_read_error, fill, give, connect, read, read_some,
  read_until,
}
use libsg.TcpClientSync.Contract.{Call, Calls, here, next}
use libsg.TcpClientSync.Stream.{stream_in_order}
use libsg.TcpClientSync.Errors.{Sees, HasSize, reads_see}

-- Half a line comes, and the time is over.
abbrev late : Answer
late = record { arrived = 1 ∷ 2 ∷ []; ec = some ErrorCode.operation_aborted; n = 0 }

abbrev line : Answer
line = record { arrived = 3 ∷ 10 ∷ 4 ∷ []; ec = none; n = 4 }

abbrev connected : Client
unfolding connect
connected = (connect none false fresh).0

abbrev after_line : Client
unfolding connect connected read_until fill give throw_on_read_error
after_line = (read_until line (read_until late connected).0).0

line_read : after_line.returned ≡ 1 ∷ 2 ∷ 3 ∷ 10 ∷ []
unfolding after_line connect connected read_until fill give throw_on_read_error
line_read = refl

after_line-Calls : Calls fresh after_line
unfolding after_line connect connected read_until fill give throw_on_read_error
after_line-Calls =
    let a = next here (Call.connects none false) in
    next (next a (Call.reads_until late (λ e. ground (arith, e))))
      (Call.reads_until line (λ e. omega arith))

stream_in_order_example : after_line.received ≡ after_line.returned ++ after_line.read_buffer
stream_in_order_example = stream_in_order after_line after_line-Calls

reads_see_example :
    Sees connected (read_until late connected)
    × Sees connected (read_some late connected)
    × Sees connected (read 3 late connected)
    × HasSize 3 (read 3 late connected).1
unfolding connected connect
reads_see_example = reads_see connected late 3 refl (λ e. ground (arith, e))

-- Two bytes come, and then the end.

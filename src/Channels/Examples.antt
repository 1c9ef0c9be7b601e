-- ===== src/Channels/Examples.antt =====
-- Two integers of two bytes.
use libsg.Common.{ℕ, ◌*◌, ◌<◌, ◌≡◌, ◌⊎◌, max, true, some, List, [], ◌∷◌, ◌++◌, length, refl, arith}
use libsg.Bytes.{Endian, number, range_to_bytes}
use libsg.RollingBuffer.{make}
use libsg.RollingBuffer.Storage.{Growth}
use libsg.RollingBuffer.Rolling.{make-IsValid}
use libsg.Channels.{vector_from_bytes, rolling_from_bytes}
use libsg.Channels.Received.{Received, Refused, from_bytes-message}

abbrev doubles : Growth
doubles = record {
  grow = λ capacity needed. max (2 * capacity) needed;
  enough = λ capacity needed. omega arith;
  doubling = λ capacity needed. omega arith;
}

abbrev values : List ℕ
values = 258 ∷ 3 ∷ []

abbrev sent : List ℕ
sent = range_to_bytes Endian.big 2 values ++ []

read_back : vector_from_bytes Endian.big 2 (1 ∷ 2 ∷ 0 ∷ 3 ∷ []) ≡ some values
unfolding vector_from_bytes number
read_back = refl

from_bytes-message_example :
    ((0 < length {A = ℕ} [])
      × Refused
          (vector_from_bytes Endian.big 2 sent)
          (rolling_from_bytes doubles true Endian.big 2 sent (make 3 3)))
    ⊎ ((◌≡◌ {A = List ℕ} [] [])
        × Received
            (vector_from_bytes Endian.big 2 sent)
            (rolling_from_bytes doubles true Endian.big 2 sent (make 3 3))
            (make 3 3)
            values)
from_bytes-message_example =
    from_bytes-message doubles true Endian.big 2 values [] (make 3 3) (omega arith)
      (refl, (refl, tt)) (make-IsValid 3 3 (omega arith))

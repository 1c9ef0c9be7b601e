-- ===== src/Channels.antt =====
-- common/include/sg/data: the channels that hold a vector and a rolling buffer. An element is an
-- integer of w bytes; names and hierarchies are left out.
mod Received
mod Examples
use libsg.Common.{
  ℕ, zero, suc, ◌*◌, ◌/◌, ◌%◌, Bool, Option, none, some, List, [], ◌∷◌, length, drop, ltb, u64,
  if◌then◌else◌,
}
use libsg.Bytes.{Endian, to_object}
use libsg.RollingBuffer.{Buffer, append, size}
use libsg.RollingBuffer.Storage.{Growth}

-- The elements at `data`, as the processor reads them: `static_cast<const T*>(data)` and on.
unfoldable pub read_elements : Endian → ℕ → ℕ → List ℕ → List ℕ
unfolding to_object
read_elements native w zero bytes = []
read_elements native w (suc n) bytes =
    to_object native w bytes ∷ read_elements native w n (drop w bytes)

-- `vector_channel::from_bytes` of all bytes of `data`: the new elements; none is the exception.
unfoldable pub vector_from_bytes : Endian → ℕ → List ℕ → Option (List ℕ)
unfolding read_elements
vector_from_bytes native w bytes =
    if ltb 0 (length bytes % w)
    then none
    else some (read_elements native w (length bytes / w) bytes)

-- `channel_rolling::from_bytes`
unfoldable pub rolling_from_bytes :
    Growth → Bool → Endian → ℕ → List ℕ → Buffer ℕ → Option (Buffer ℕ)
unfolding read_elements append
rolling_from_bytes g trivial native w bytes b =
    if ltb 0 (length bytes % w)
    then none
    else some (append g trivial (read_elements native w (length bytes / w) bytes) b)

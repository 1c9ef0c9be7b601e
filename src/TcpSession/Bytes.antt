-- ===== src/TcpSession/Bytes.antt =====
-- The bytes given to `write`, and the counts of those pending.
use libsg.Common.{
  ℕ, ◌+◌, ◌%◌, ◌^◌, ◌≡◌, ◌<◌, refl, sym, ap, ◌∙◌, true, List, [], ◌∷◌, ◌++◌, arith, append-nil,
  append_assoc, flatten, flatten-append, length, length-append, take, drop, take-append-drop, add64,
}
use libsg.TcpSession.{Session, ErrorCode, Writer, pending_bytes}
use libsg.TcpSession.Calls.{
  create, start, set_up_ok, start_throws, start_notes, mark_connected, start_returns, stop_async,
  stop_async_force, start_fails, close, write, set_timeout,
}
use libsg.TcpSession.Strand.{
  took, writer_takes, writer_leaves, writer_sent, writer_fails, writer_notes, reader_loops,
  reader_reads, reader_throws, reader_notes, close_impl, close_returns, batch_size,
}
use libsg.TcpSession.System.{Rules, Step, Reach, created, later, guard}
use libsg.TcpSession.Writers.{Writers, Reach-Writers, has_writer}

-- the batch in `async_write`
abbrev pub in_flight : Writer → List ℕ
in_flight Writer.idle = []
in_flight Writer.spawned = []
in_flight (Writer.noting f) = []
in_flight (Writer.writing t buffers) = flatten buffers

abbrev pub Counted : Writer → ℕ → Type 0
Counted Writer.idle n = Unit {0}
Counted Writer.spawned n = Unit {0}
Counted (Writer.noting f) n = Unit {0}
Counted (Writer.writing t buffers) n = n ≡ length (flatten buffers) % 2 ^ 64

pub record Bytes (s : Session) : Type 0 where
  pub stream : s.accepted ≡ (s.sent ++ s.dropped) ++ (in_flight s.writer ++ flatten s.write_msgs)
  pub queued : s.queued_bytes ≡ length (flatten s.write_msgs) % 2 ^ 64
  pub counted : Counted s.writer s.writing_bytes

pub batch_size_lem :
    (acc : ℕ) (bs : List (List ℕ))
    → acc < 2 ^ 64
    → batch_size acc bs ≡ (acc + length (flatten bs)) % 2 ^ 64
unfolding batch_size
batch_size_lem acc [] h = omega arith
batch_size_lem acc (b ∷ bs) h =
    omega
      (arith, batch_size_lem (add64 acc (length b)) bs (omega arith), length-append b (flatten bs))

took-Bytes :
    (ms : List (List ℕ)) (s : Session)
    → s.write_msgs ≡ ms
    → s.writer ≡ Writer.spawned
    → Bytes s
    → Bytes (took ms s)
unfolding took
took-Bytes [] s m e b = record {
  stream = ground (arith, b);
  queued = ground (arith, b, batch_size_lem 0 []);
  counted = tt;
}
took-Bytes (m ∷ ms) s e f b = record {
  stream = ground (arith, b, append-nil (m ++ flatten ms));
  queued = ground (arith, b, batch_size_lem 0 (m ∷ ms));
  counted = ground (arith, batch_size_lem 0 (m ∷ ms));
}

write-Bytes : (msg : List ℕ) (s : Session) → Writers s → Bytes s → Bytes (write msg s).0
unfolding write
write-Bytes msg s w b = ground (arith, b, w, more, flatten-one, length-append queue msg)
  where
    queue : List ℕ
    queue = flatten s.write_msgs

    flatten-one : flatten (s.write_msgs ++ msg ∷ []) ≡ queue ++ msg
    flatten-one = flatten-append s.write_msgs (msg ∷ []) ∙ ap (λ x. queue ++ x) (append-nil msg)

    more :
        s.accepted ++ msg
        ≡ (s.sent ++ s.dropped) ++ (in_flight s.writer ++ flatten (s.write_msgs ++ msg ∷ []))
    more =
        ap (λ x. x ++ msg) b.stream
        ∙ append_assoc (s.sent ++ s.dropped) (in_flight s.writer ++ queue) msg
        ∙ ap (λ x. (s.sent ++ s.dropped) ++ x)
            (append_assoc (in_flight s.writer) queue msg
              ∙ ap (λ x. in_flight s.writer ++ x) (sym flatten-one))

sent-Bytes :
    (t : ℕ) (bs : List (List ℕ)) (s : Session)
    → s.writer ≡ Writer.writing t bs
    → Writers s
    → Bytes s
    → Bytes (writer_sent bs s)
unfolding writer_sent
sent-Bytes t bs s e w b =
    let batch = flatten bs in
    ground (
      arith,
      b,
      w,
      append-nil s.sent,
      append-nil (s.sent ++ batch),
      append_assoc s.sent batch (flatten s.write_msgs),
    )

fails-Bytes :
    (t : ℕ) (bs : List (List ℕ)) (ec : ErrorCode) (k : ℕ) (s : Session)
    → s.writer ≡ Writer.writing t bs
    → Writers s
    → Bytes s
    → Bytes (writer_fails t bs ec k s)
unfolding writer_fails writer_notes
fails-Bytes t bs ec k s e w b =
    let batch = flatten bs in
    ground (
      arith,
      b,
      w,
      append-nil s.sent,
      append_assoc s.sent (take k batch) (drop k batch),
      take-append-drop k batch,
      append_assoc s.sent batch (flatten s.write_msgs),
    )

Step-Bytes : {r : Rules} {s t : Session} → Writers s → Step r s t → Bytes s → Bytes t
unfolding start set_up_ok start_throws start_notes mark_connected start_returns stop_async
    stop_async_force start_fails close write set_timeout writer_takes writer_leaves writer_sent
    writer_fails writer_notes reader_loops reader_reads reader_throws reader_notes close_impl
    close_returns
Step-Bytes {s} w (Step.takes e free) b = took-Bytes s.write_msgs s refl e b
Step-Bytes {s} w (Step.writes msg m o) b = write-Bytes msg s w b
Step-Bytes {s} w (Step.sends t bs e free) b = sent-Bytes t bs s e w b
Step-Bytes {s} w (Step.fails_to_send t bs ec k e free p) b = fails-Bytes t bs ec k s e w b
Step-Bytes w (Step.starts) b = ground (arith, b)
Step-Bytes w st b = ground (arith, b, guard st)

pub Reach-Bytes : {r : Rules} {s : Session} → Reach r s → Bytes s
unfolding create
Reach-Bytes (created o c e) = ground (arith, e)
Reach-Bytes (later h st) = Step-Bytes (Reach-Writers h) st (Reach-Bytes h)

-- Whatever happens, the bytes that the socket has taken are the first of those given to `write`,
-- in order and each once; the rest are those of a failed batch, those being written and those
-- queued, in this order; and nothing has been dropped as long as there is a writer.
pub bytes_in_order :
    {r : Rules} {s : Session}
    → Reach r s
    → (s.accepted ≡ s.sent ++ (s.dropped ++ (in_flight s.writer ++ flatten s.write_msgs)))
      × (has_writer s.writer ≡ true → s.dropped ≡ [])
bytes_in_order {s} h = (
  (Reach-Bytes h).stream
      ∙ append_assoc s.sent s.dropped (in_flight s.writer ++ flatten s.write_msgs),
  (Reach-Writers h).live,
)

-- While a batch is being written, and fewer than 2 ^ 64 bytes are pending, `pending_bytes()` is the
-- number of the bytes being written and of those queued.
pub pending_bytes-counts :
    {r : Rules} {s : Session} (t : ℕ) (bs : List (List ℕ))
    → Reach r s
    → s.writer ≡ Writer.writing t bs
    → length (flatten bs) + length (flatten s.write_msgs) < 2 ^ 64
    → pending_bytes s ≡ length (flatten bs) + length (flatten s.write_msgs)
unfolding pending_bytes
pending_bytes-counts t bs h e small = ground (arith, Reach-Bytes h)

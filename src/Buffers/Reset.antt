-- ===== src/Buffers/Reset.antt =====
-- What the reset of a shared_buffer does to the balance of blocks and owners.
use libsg.Common.{ℕ, ◌<◌, none, some, Option, ◌∷◌, length, arith}
use libsg.Buffers.{Memory, at, set, take_over, shared_reset}
use libsg.Buffers.Counts.{is_at-le-one, holders-set}
use libsg.Buffers.Unique.{Owes, Balanced, Has, take_over-Owes}
use libsg.Buffers.Shared.{Shares, drop_shared-Balanced}

-- A variable is overwritten by the pointer in hand, and its own is in hand then.
exchange :
    (i n : ℕ) (p : Option ℕ) (m : Memory)
    → i < length m.shareds
    → Owes p m
    → Shares
        (at i m.shareds).ptr
        (record m { shareds = set i (record { ptr = p; size = n }) m.shareds })
exchange i n p m h o = record {
  balance = λ a. omega (
    arith,
    o.balance a,
    o.single a,
    is_at-le-one p a,
    holders-set i a (record { ptr = p; size = n }) m.shareds h,
  );
  single = o.single;
  unused = o.unused;
  clean = o.clean;
  suited = o.suited;
}

marked :
    (p : ℕ) (q : Option ℕ) (m : Memory)
    → Shares q m
    → Shares q (record m { array_deleted = p ∷ m.array_deleted })
marked p q m o = record {
  balance = o.balance;
  single = o.single;
  unused = o.unused;
  clean = o.clean;
  suited = λ e. ground (arith, e);
}

pub shared_reset-Balanced :
    (i n : ℕ) (p : Option ℕ) (m : Memory)
    → i < length m.shareds
    → Has p m
    → Balanced m
    → Balanced (shared_reset i p n m)
unfolding shared_reset take_over
shared_reset-Balanced i n none m h k o =
    drop_shared-Balanced (at i m.shareds).ptr
      (record m { shareds = set i (record { ptr = none; size = n }) m.shareds })
      (exchange i n none m h o)
shared_reset-Balanced i n (some p) m h k o =
    let t = take_over (some p) m in
    drop_shared-Balanced (at i m.shareds).ptr
      (record t {
        shareds = set i (record { ptr = some p; size = n }) t.shareds;
        array_deleted = p ∷ t.array_deleted;
      })
      (marked p (at i m.shareds).ptr
        (record t { shareds = set i (record { ptr = some p; size = n }) t.shareds })
        (exchange i n (some p) t h (take_over-Owes (some p) m k o)))

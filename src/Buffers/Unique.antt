-- ===== src/Buffers/Unique.antt =====
-- The balance of blocks and owners, and what allocation and unique_buffer do to it.
use libsg.Common.{
  ℕ, ◌+◌, ◌≡◌, ◌≤◌, ◌<◌, ◌==◌, false, none, some, Option, [], length, arith, min, Bool-cases, inl,
  inr,
}
use libsg.Buffers.{
  Memory, count, at, set, is_at, holders, free, take_over, malloc, unique_buffer, moved_from,
  unique_move, unique_assign, unique_swap, unique_release, unique_reset, free_loose,
}
use libsg.Buffers.Counts.{
  is_at_self, count-remove, holders-set, count-loosen, is_at-le-count, holders-set-set,
  holders-swap,
}

-- Each block has one owner: a unique buffer, the shared buffers that have it, or the user, who has
-- it as a bare pointer; `p` is a pointer that the operation in hand has.
pub record Owes (p : Option ℕ) (m : Memory) : Type 0 where
  pub balance :
      (a : ℕ)
      → count a m.live
        ≡ holders m.uniques a + min 1 (holders m.shareds a) + count a m.loose + is_at p a
  pub single : (a : ℕ) → count a m.live ≤ 1
  pub unused : (a : ℕ) → m.next ≤ a → count a m.live ≡ 0
  pub clean : m.faults ≡ 0
  pub suited : m.array_deleted ≡ [] → m.mismatched ≡ 0

abbrev pub Balanced : Memory → Type 0
Balanced m = Owes none m

-- The user has this pointer.
abbrev pub Has : Option ℕ → Memory → Type 0
Has none m = Unit {0}
Has (some p) m = 0 < count p m.loose

free_clean : (m : Memory) (p : ℕ) → 0 < count p m.live → (free (some p) m).faults ≡ m.faults
unfolding free
free_clean m p h = ground (arith, h)

pub free-Balanced : (p : Option ℕ) (m : Memory) → Owes p m → Balanced (free p m)
unfolding free
free-Balanced none m o = o
free-Balanced (some p) m o = record {
  balance = λ a. omega (arith, count-remove a p m.live, o.balance a);
  single = λ a. omega (arith, count-remove a p m.live, o.single a);
  unused = λ a h. omega (arith, count-remove a p m.live, o.unused a h);
  clean = ground (arith, o.clean, o.balance p, is_at_self p);
  suited = o.suited;
}

pub take_over-Owes : (p : Option ℕ) (m : Memory) → Has p m → Balanced m → Owes p (take_over p m)
unfolding take_over
take_over-Owes none m h o = o
take_over-Owes (some p) m h o = record {
  balance = λ a. omega (arith, o.balance a, count-remove a p m.loose, is_at-le-count p a m.loose h);
  single = o.single;
  unused = o.unused;
  clean = o.clean;
  suited = o.suited;
}

pub malloc-Balanced : (size : ℕ) (m : Memory) → Balanced m → Balanced (malloc size m)
unfolding malloc
malloc-Balanced size m o = record {
  balance = λ a. omega (arith, o.balance a);
  single = λ a. ground (arith, o.single a, o.unused a);
  unused = λ a h. ground (arith, o.unused a, h);
  clean = o.clean;
  suited = o.suited;
}

pub unique_buffer-Balanced :
    (p : Option ℕ) (n : ℕ) (m : Memory) → Has p m → Balanced m → Balanced (unique_buffer p n m)
unfolding unique_buffer
unique_buffer-Balanced p n m h o =
    let t = take_over-Owes p m h o in
    record {
      balance = λ a. omega (arith, t.balance a);
      single = t.single;
      unused = t.unused;
      clean = t.clean;
      suited = t.suited;
    }

pub unique_move-Balanced :
    (i : ℕ) (m : Memory) → i < length m.uniques → Balanced m → Balanced (unique_move i m)
unfolding unique_move
unique_move-Balanced i m h o = record {
  balance =
      λ a. omega (arith, o.balance a, holders-set i a (moved_from (at i m.uniques)) m.uniques h);
  single = o.single;
  unused = o.unused;
  clean = o.clean;
  suited = o.suited;
}

pub unique_release-Balanced :
    (i : ℕ) (m : Memory) → i < length m.uniques → Balanced m → Balanced (unique_release i m)
unfolding unique_release
unique_release-Balanced i m h o = record {
  balance = λ a. omega (
    arith,
    o.balance a,
    count-loosen (at i m.uniques).ptr a m.loose,
    holders-set i a (moved_from (at i m.uniques)) m.uniques h,
  );
  single = o.single;
  unused = o.unused;
  clean = o.clean;
  suited = o.suited;
}

module _ (i j : ℕ) (m : Memory) (h : i < length m.uniques) (k : j < length m.uniques) where
  unique_assign_apart : Memory
  unique_assign_apart = record m {
    uniques = set i (at j m.uniques) (set j (moved_from (at j m.uniques)) m.uniques);
  }

  apart-Owes : (i == j) ≡ false → Balanced m → Owes (at i m.uniques).ptr unique_assign_apart
  unfolding unique_assign_apart
  apart-Owes e o = record {
    balance = λ a. omega (
      arith,
      o.balance a,
      holders-set-set i j a (at j m.uniques) (moved_from (at j m.uniques)) m.uniques h k e,
    );
    single = o.single;
    unused = o.unused;
    clean = o.clean;
    suited = o.suited;
  }

  pub unique_assign-Balanced : Balanced m → Balanced (unique_assign i j m)
  unfolding unique_assign unique_assign_apart
  unique_assign-Balanced o = elim (Bool-cases (i == j)) [
    | inl e ↦ rw e o
    | inr e ↦ rw e (free-Balanced (at i m.uniques).ptr unique_assign_apart (apart-Owes e o))
  ]

  pub unique_swap-Balanced : Balanced m → Balanced (unique_swap i j m)
  unfolding unique_swap
  unique_swap-Balanced o = record {
    balance = λ a. omega (arith, o.balance a, holders-swap i j a m.uniques h k);
    single = o.single;
    unused = o.unused;
    clean = o.clean;
    suited = o.suited;
  }

-- A variable is overwritten by the pointer in hand, and its own is in hand then.
exchange :
    (i n : ℕ) (p : Option ℕ) (m : Memory)
    → i < length m.uniques
    → Owes p m
    → Owes
        (at i m.uniques).ptr
        (record m { uniques = set i (record { ptr = p; size = n }) m.uniques })
exchange i n p m h o = record {
  balance =
      λ a. omega (arith, o.balance a, holders-set i a (record { ptr = p; size = n }) m.uniques h);
  single = o.single;
  unused = o.unused;
  clean = o.clean;
  suited = o.suited;
}

pub unique_reset-Balanced :
    (i n : ℕ) (p : Option ℕ) (m : Memory)
    → i < length m.uniques
    → Has p m
    → Balanced m
    → Balanced (unique_reset i p n m)
unfolding unique_reset take_over
unique_reset-Balanced i n none m h k o =
    free-Balanced (at i m.uniques).ptr
      (record m { uniques = set i (record { ptr = none; size = n }) m.uniques })
      (exchange i n none m h o)
unique_reset-Balanced i n (some p) m h k o =
    let t = take_over (some p) m in
    free-Balanced (at i m.uniques).ptr
      (record t { uniques = set i (record { ptr = some p; size = n }) t.uniques })
      (exchange i n (some p) t h (take_over-Owes (some p) m k o))

pub free_loose-Balanced :
    (p : ℕ) (m : Memory) → 0 < count p m.loose → Balanced m → Balanced (free_loose p m)
unfolding free_loose
free_loose-Balanced p m h o =
    free-Balanced (some p) (take_over (some p) m) (take_over-Owes (some p) m h o)

-- ===== src/Buffers/Shared.antt =====
-- What shared_buffer does to the balance of blocks and owners.
use libsg.Common.{
  ℕ, ◌+◌, ◌≡◌, ◌≤◌, ◌<◌, ◌==◌, true, false, none, some, Option, List, [], length, arith, min,
  Bool-cases, inl, inr,
}
use libsg.Buffers.{
  Buffer, Memory, count, at, set, is_at, holders, drop_shared, free_shared, moved_from,
  shared_buffer, shared_of_unique, shared_copy, shared_move, shared_assign, shared_move_assign,
  shared_swap,
}
use libsg.Buffers.Counts.{is_at-le-one, holders-set, holders-at, holders-set-set, holders-swap}
use libsg.Buffers.Unique.{Owes, Balanced, Has, free-Balanced, take_over-Owes}

-- The operation in hand has a pointer that shared buffers may have too.
pub record Shares (p : Option ℕ) (m : Memory) : Type 0 where
  pub balance :
      (a : ℕ)
      → count a m.live
        ≡ holders m.uniques a + min 1 (holders m.shareds a + is_at p a) + count a m.loose
  pub single : (a : ℕ) → count a m.live ≤ 1
  pub unused : (a : ℕ) → m.next ≤ a → count a m.live ≡ 0
  pub clean : m.faults ≡ 0
  pub suited : m.array_deleted ≡ [] → m.mismatched ≡ 0

last_share :
    (p a : ℕ) (bs : List Buffer)
    → (holders bs p == 0) ≡ true
    → min 1 (holders bs a + is_at (some p) a) ≡ min 1 (holders bs a) + is_at (some p) a
last_share p a bs e = ground (arith, e)

other_share :
    (p a : ℕ) (bs : List Buffer)
    → (holders bs p == 0) ≡ false
    → min 1 (holders bs a + is_at (some p) a) ≡ min 1 (holders bs a)
other_share p a bs e = ground (arith, e)

free_shared-Balanced : (p : ℕ) (m : Memory) → Owes (some p) m → Balanced (free_shared p m)
unfolding free_shared
free_shared-Balanced p m o =
    let f = free-Balanced (some p) m o in
    record {
      balance = f.balance;
      single = f.single;
      unused = f.unused;
      clean = f.clean;
      suited = λ e. ground (arith, e, o.suited e);
    }

pub drop_shared-Balanced : (p : Option ℕ) (m : Memory) → Shares p m → Balanced (drop_shared p m)
unfolding drop_shared
drop_shared-Balanced none m o = record {
  balance = λ a. omega (arith, o.balance a);
  single = o.single;
  unused = o.unused;
  clean = o.clean;
  suited = o.suited;
}
drop_shared-Balanced (some p) m o = elim (Bool-cases (holders m.shareds p == 0)) [
  | inl e ↦ rw e (
      free_shared-Balanced p m (record {
        balance = λ a. omega (arith, o.balance a, last_share p a m.shareds e);
        single = o.single;
        unused = o.unused;
        clean = o.clean;
        suited = o.suited;
      }))
  | inr e ↦ rw e (record {
    balance = λ a. omega (arith, o.balance a, other_share p a m.shareds e);
    single = o.single;
    unused = o.unused;
    clean = o.clean;
    suited = o.suited;
  })
]

pub shared_buffer-Balanced :
    (p : Option ℕ) (n : ℕ) (m : Memory) → Has p m → Balanced m → Balanced (shared_buffer p n m)
unfolding shared_buffer
shared_buffer-Balanced p n m h o =
    let t = take_over-Owes p m h o in
    record {
      balance = λ a. omega (arith, t.balance a, t.single a, is_at-le-one p a);
      single = t.single;
      unused = t.unused;
      clean = t.clean;
      suited = t.suited;
    }

pub shared_of_unique-Balanced :
    (i : ℕ) (m : Memory) → i < length m.uniques → Balanced m → Balanced (shared_of_unique i m)
unfolding shared_of_unique
shared_of_unique-Balanced i m h o =
    let b = at i m.uniques in
    record {
      balance = λ a. omega (
        arith,
        o.balance a,
        o.single a,
        is_at-le-one b.ptr a,
        holders-set i a (moved_from b) m.uniques h,
      );
      single = o.single;
      unused = o.unused;
      clean = o.clean;
      suited = o.suited;
    }

pub shared_copy-Balanced : (i : ℕ) (m : Memory) → Balanced m → Balanced (shared_copy i m)
unfolding shared_copy
shared_copy-Balanced i m o = record {
  balance = λ a.
      omega (arith, o.balance a, is_at-le-one (at i m.shareds).ptr a, holders-at i a m.shareds);
  single = o.single;
  unused = o.unused;
  clean = o.clean;
  suited = o.suited;
}

pub shared_move-Balanced :
    (i : ℕ) (m : Memory) → i < length m.shareds → Balanced m → Balanced (shared_move i m)
unfolding shared_move
shared_move-Balanced i m h o = record {
  balance =
      λ a. omega (arith, o.balance a, holders-set i a (moved_from (at i m.shareds)) m.shareds h);
  single = o.single;
  unused = o.unused;
  clean = o.clean;
  suited = o.suited;
}

module _ (i j : ℕ) (m : Memory) (h : i < length m.shareds) (k : j < length m.shareds) where
  pub shared_assign-Balanced : Balanced m → Balanced (shared_assign i j m)
  unfolding shared_assign
  shared_assign-Balanced o =
      drop_shared-Balanced (at i m.shareds).ptr
        (record m { shareds = set i (at j m.shareds) m.shareds })
        (record {
          balance = λ a. omega (
            arith,
            o.balance a,
            is_at-le-one (at j m.shareds).ptr a,
            holders-at j a m.shareds,
            holders-set i a (at j m.shareds) m.shareds h,
          );
          single = o.single;
          unused = o.unused;
          clean = o.clean;
          suited = o.suited;
        })

  assigned_apart : Memory
  assigned_apart = record m {
    shareds = set i (at j m.shareds) (set j (moved_from (at j m.shareds)) m.shareds);
  }

  apart-Shares : (i == j) ≡ false → Balanced m → Shares (at i m.shareds).ptr assigned_apart
  unfolding assigned_apart
  apart-Shares e o = record {
    balance = λ a. omega (
      arith,
      o.balance a,
      holders-set-set i j a (at j m.shareds) (moved_from (at j m.shareds)) m.shareds h k e,
    );
    single = o.single;
    unused = o.unused;
    clean = o.clean;
    suited = o.suited;
  }

  pub shared_move_assign-Balanced : Balanced m → Balanced (shared_move_assign i j m)
  unfolding shared_move_assign assigned_apart
  shared_move_assign-Balanced o = elim (Bool-cases (i == j)) [
    | inl e ↦ rw e o
    | inr e ↦ rw e (drop_shared-Balanced (at i m.shareds).ptr assigned_apart (apart-Shares e o))
  ]

  pub shared_swap-Balanced : Balanced m → Balanced (shared_swap i j m)
  unfolding shared_swap
  shared_swap-Balanced o = record {
    balance = λ a. omega (arith, o.balance a, holders-swap i j a m.shareds h k);
    single = o.single;
    unused = o.unused;
    clean = o.clean;
    suited = o.suited;
  }

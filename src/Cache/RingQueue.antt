-- ===== src/Cache/RingQueue.antt =====
-- The class `ringqueue`, include/kungfu/yijinjing/cache/ringqueue.h (the part that is compiled). The
-- counters are size_t, 64 bits. A cell of raw memory is `none`; one thread's calls are modelled, in the
-- order in which it makes them.
mod Masks
mod Slots
mod Contents
mod Tests
use Prim.Native.Nat.{bit_and, bit_or}
use kungfu_cpp.Base.{
  ℕ, ◌+◌, ◌-◌, ◌/◌, ◌%◌, ◌^◌, Bool, true, false, Option, none, some, ltb, leb, ◌==◌, if◌then◌else◌,
}

abbrev pub u64 : ℕ → ℕ
u64 n = n % 2 ^ 64

abbrev pub spread : ℕ → ℕ → ℕ
spread i mask = bit_or mask (mask / 2 ^ i)

-- The constructor's loop, i from 1 by doubling to sizeof(void *) * 4.
unfoldable pub capacity_mask : ℕ → ℕ
capacity_mask capacity =
    spread 32 (spread 16 (spread 8 (spread 4 (spread 2 (spread 1 (u64 (capacity + 2 ^ 64 - 1)))))))

module _ (A : Type 0) where
  pub record RingQueue : Type 0 where
    pub mask : ℕ
    pub capacity : ℕ
    pub head : ℕ
    pub tail : ℕ
    pub cells : ℕ → Option A

  unfoldable pub new_queue : ℕ → RingQueue
  unfolding capacity_mask
  new_queue capacity = record {
    mask = capacity_mask capacity;
    capacity = u64 (capacity_mask capacity + 1);
    head = 0;
    tail = 0;
    cells = λ i. none;
  }

  abbrev pub size : RingQueue → ℕ
  size q = u64 (q.tail + 2 ^ 64 - q.head)

  abbrev pub set_cell : ℕ → Option A → RingQueue → RingQueue
  set_cell k c q = record q { cells = λ i. if i == k then c else q.cells i }

  -- The node at the tail is written in any case; the result is always true.
  unfoldable pub push : A → RingQueue → Bool × RingQueue
  push x q =
      let q' = set_cell (bit_and q.tail q.mask) (some x) q in
      (true, (if ltb (size q) (q.capacity - 1) then record q' { tail = u64 (q.tail + 1) } else q'))

  -- The value comes back where the program sets `result`; the node is destroyed.
  unfoldable pub pop : RingQueue → Option A × RingQueue
  pop q = if leb q.tail q.head then (none, q) else (
    q.cells (bit_and q.head q.mask),
    record (set_cell (bit_and q.head q.mask) none q) { head = u64 (q.head + 1) },
  )

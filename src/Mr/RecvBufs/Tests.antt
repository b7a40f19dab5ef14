-- ===== src/Mr/RecvBufs/Tests.antt =====
-- The receive buffer at concrete states of a buffer of 100 bytes, and of the program's 64 MiB.
use ibv.Prelude.{ℕ, ◌+◌, ◌*◌, ◌≡◌, inl, refl, some, [], ◌∷◌, arith}
use ibv.Memory.{Memory, load}
use ibv.Mr.RecvBufs.{RecvBuffer, slice, read, notify_release, IsValid}
use ibv.Mr.RecvBufs.Agreement.{Agrees, Follows, notify_release-Follows}

abbrev counting : Memory
counting x = x

abbrev buffer : ℕ → ℕ → ℕ → ℕ → RecvBuffer (Unit {0})
buffer size released done index = record {
  mr = record { inner = 7; addr = 1000; length = size; lkey = 1; rkey = 2 };
  rx = tt;
  recv_buffer = record { ptr = 1000; len = size };
  released = released;
  done = done;
  index = index;
  left = 1000;
  right = 1000 + size;
}

abbrev small : RecvBuffer (Unit {0})
small = buffer 100 40 1020 1095

small-IsValid : IsValid small
small-IsValid = record {
  index_low = omega arith;
  index_high = omega arith;
  done_low = omega arith;
  done_high = omega arith;
  headroom = omega arith;
  short = omega arith;
  region = refl;
  base = refl;
  extent = refl;
}

-- three bytes straddle nothing, and eight start again at the left
three_read : (read counting small 3).0 ≡ some (1095 ∷ 1096 ∷ 1097 ∷ [])
unfolding read load slice
three_read = refl

abbrev half : ℕ
half = 24 * 1024 * 1024

abbrev large : RecvBuffer (Unit {0})
large = buffer (64 * 1024 * 1024) half 1000 (1000 + half)

large-IsValid : IsValid large
large-IsValid = record {
  index_low = omega arith;
  index_high = omega arith;
  done_low = omega arith;
  done_high = omega arith;
  headroom = omega arith;
  short = omega arith;
  region = refl;
  base = refl;
  extent = refl;
}

-- Two messages of 15 and 25 bytes are released and not reported.
small-Agrees : Agrees 1020 (15 ∷ 25 ∷ []) small
small-Agrees = record { valid = small-IsValid; total = refl; ends = refl; mode = inl refl }

notify_release-Follows_example :
    Follows 1000 1100 1020 (15 ∷ 25 ∷ 50 ∷ []) (notify_release small 50)
notify_release-Follows_example = notify_release-Follows small 50 small-Agrees (omega arith)

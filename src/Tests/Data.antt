-- ===== src/Tests/Data.antt =====
-- Test data that several modules share.
use lgears.Prelude.{[], false, none}
use lgears.Space.{Space}
use lgears.Heap.{Heap, no_space}

abbrev pub small : Space
small = record { mem = 4096; pos = 4096; size = 256; free_mem = 256; blocks = 0 }

-- A heap of three spaces of 256 bytes with nothing in it.
abbrev pub idle : Heap
idle = record {
  mem = 4096;
  mem_size = 768;
  fresh = small;
  survived = record small { mem = 4352; pos = 4352 };
  future_survived = record small { mem = 4608; pos = 4608 };
  old = no_space;
  remembered_set = [];
  full_gc = false;
  old_map = none;
}

-- ===== src/Tests/CircBuf.antt =====
-- Runs of src/circ_buf.c, and its theorems at a ring whose bytes go round the end of the storage.
use libsimple.Base.{◌≡◌, refl, ◌+◌, ◌-◌, ◌≤◌, List, [], ◌∷◌, ◌++◌, Bytes, arith}
use libsimple.CircBuf.{
  CircBuf, create, read, write, get_data_cnt, get_space_cnt, cnt, space, circ_cnt_to_end,
  circ_space_to_end,
}
use libsimple.CircBuf.Bounds.{IsValid}
use libsimple.CircBuf.Session.{
  Op, put, get, data_cnt, space_cnt, stored, got, count, run, run_queue, run-create,
  chunks_in_bounds,
}
use libsimple.Mutex.{init}

abbrev block : Bytes
block = 0 ∷ 0 ∷ 0 ∷ 0 ∷ 0 ∷ []

-- Four slots; 8 is the oldest byte and 9 follows it at the start of the storage.
abbrev wrapped : CircBuf
wrapped = record { buf = 9 ∷ 7 ∷ 7 ∷ 8 ∷ 0 ∷ []; head = 1; tail = 3; size = 4; mutex = init ∷ [] }

abbrev script : List Op
script = put (1 ∷ 2 ∷ []) ∷ data_cnt ∷ get 2 ∷ space_cnt ∷ put (3 ∷ 4 ∷ 5 ∷ []) ∷ get 9 ∷ []

wrapped-IsValid : IsValid wrapped
wrapped-IsValid = omega arith

run-script :
    run (create block 4) script
    ≡ stored 2 ∷ count 2 ∷ got (1 ∷ 2 ∷ []) 2 ∷ count 3 ∷ stored 3 ∷ got (3 ∷ 4 ∷ 5 ∷ []) 3 ∷ []
unfolding run create read write get_data_cnt get_space_cnt cnt space circ_cnt_to_end
    circ_space_to_end libsimple.Base.store
run-script = refl

run-create_example : run (create block 4) script ≡ run_queue 3 [] script
run-create_example = run-create script block 4 (omega arith) refl

chunks_in_bounds_example : (3 + circ_cnt_to_end 1 3 4 ≤ 4) × (1 + circ_space_to_end 1 3 4 ≤ 4)
chunks_in_bounds_example = chunks_in_bounds wrapped wrapped-IsValid

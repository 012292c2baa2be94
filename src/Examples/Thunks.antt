-- ===== src/Examples/Thunks.antt =====
-- Applications to a pool of 256 bytes at 0x2000.
use udynlink.Prelude.{◌+◌, ◌≡◌, ◌≢◌, inr, refl, arith}
use udynlink.Memory.{Memory, read16}
use udynlink.Thunk.{
  Pool, pool_init, gateway_size, stub_size, encode_mov_imm, decode_mov_ip, alloc_stub,
  alloc_gateway, write_stub, find_stub, find_gateway,
}
use udynlink.Thunk.Bounds.{IsPool}
use udynlink.Thunk.Branch.{branch_target, branch_target-write_stub}
use udynlink.Thunk.Call.{serve_stub, serve_stub-serve_stub}

abbrev m : Memory
m = λ a. 0

abbrev pool : Pool
pool = record { base = 0x2000; size = 256; gateway_top = 256; used = 0 }

pool-IsPool : IsPool pool
pool-IsPool = record {
  ordered = omega arith;
  inside = omega arith;
  addressable = omega arith;
  aligned = inr refl;
}

-- A gateway at the top of the pool is in reach.
in_reach : (write_stub m 0x2000 0x8001 0x20E0).0 ≢ 0
unfolding write_stub udynlink.Thunk.branch_offset
in_reach = omega arith

stub_served : (alloc_stub m pool 0x8001 0x20E0).0 ≢ 0
unfolding alloc_stub udynlink.Thunk.alloc udynlink.Thunk.stub_result write_stub
    udynlink.Thunk.branch_offset
stub_served = omega arith

branch_target-write_stub_example :
    branch_target 0x2000 (read16 (write_stub m 0x2000 0x8001 0x20E0).1 (0x2000 + 8)) ≡ 0x20E0
branch_target-write_stub_example =
    branch_target-write_stub m 0x2000 0x8001 0x20E0 refl (omega arith) (omega arith) in_reach

call_served : (serve_stub m pool 0x8001 0x9000).0 ≢ 0
unfolding serve_stub find_stub find_gateway udynlink.Thunk.find_gateway_loop alloc_gateway
    alloc_stub udynlink.Thunk.alloc udynlink.Thunk.stub_result write_stub
    udynlink.Thunk.branch_offset
call_served = omega arith

serve_stub-serve_stub_example :
    serve_stub (serve_stub m pool 0x8001 0x9000).1 (serve_stub m pool 0x8001 0x9000).2 0x8001 0x9000
    ≡ serve_stub m pool 0x8001 0x9000
serve_stub-serve_stub_example =
    serve_stub-serve_stub m pool 0x8001 0x9000 0x9000 pool-IsPool (omega arith) call_served

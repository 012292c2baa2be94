-- ===== src/Wasm/Traps.antt =====
-- Traps, udynlink/wasm2c_runtime/wasm-rt-udynlink.c. A trap jumps to the recovery point that the host
-- registered, or calls the handler and halts.
use udynlink.Prelude.{ℕ, ◌≡◌, ◌≢◌, refl, arith, Bool, true, ◌!=◌, ◌&&◌, if◌then◌else◌}

-- What the runtime keeps; no recovery point is 0. `initialized` is `g_initialized`.
pub record TrapState : Type 0 where
  pub last_trap : ℕ
  pub recovery : ℕ
  pub call_stack_depth : ℕ
  pub initialized : Bool

-- Where a trap goes, by the code that the handler is given and by the recovery point.
pub data TrapEnd : Type 0 where
  unwound : ℕ → TrapEnd
  halted : ℕ → TrapEnd

-- What the build chooses: WASM_RT_ENABLE_RECOVERY and WASM_RT_USE_STACK_DEPTH_COUNT.
pub record TrapConfig : Type 0 where
  pub enable_recovery : Bool
  pub depth_count : Bool

-- `wasm_rt_set_recovery`.
unfoldable pub set_recovery : TrapState → ℕ → TrapState
set_recovery s jb = record s { recovery = jb }

-- `wasm_rt_trap`.
unfoldable pub trap : TrapConfig → TrapState → ℕ → TrapEnd × TrapState
trap cfg s code =
    let seen : TrapState = record s { last_trap = code } in
    if cfg.enable_recovery && s.recovery != 0
    then (
      unwound s.recovery,
      record seen {
        recovery = 0;
        call_stack_depth = if cfg.depth_count then 0 else s.call_stack_depth;
      },
    )
    else (halted code, seen)

-- `wasm_rt_init` and `wasm_rt_free`.
unfoldable pub set_initialized : TrapState → Bool → TrapState
set_initialized s on = record s { initialized = on }

-- A recovery point takes one trap: the first trap behind its registration jumps to it, with the depth
-- of the stack reset where it is counted, and the next one halts, whichever traps they are.
pub trap-set_recovery :
    (cfg : TrapConfig) (s : TrapState) (jb first second : ℕ)
    → cfg.enable_recovery ≡ true
    → jb ≢ 0
    → let (to, after) = trap cfg (set_recovery s jb) first in
      let (to', after') = trap cfg after second in
      (to ≡ unwound jb)
      × (after.last_trap ≡ first)
      × (after.call_stack_depth ≡ (if cfg.depth_count then 0 else s.call_stack_depth))
      × (to' ≡ halted second)
      × (after'.last_trap ≡ second)
unfolding trap set_recovery
trap-set_recovery cfg s jb first second on given =
    let point : (jb != 0) ≡ true = ground (arith, given) in
    rw (on, point) (refl, refl, refl, refl, refl)

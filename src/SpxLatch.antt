-- ===== src/SpxLatch.antt =====
-- libs/nscore/spx_latch.c: the latch that is shared or exclusive, on one atomic word. Each atomic
-- operation of the source is one step; what a thread does between two of them is part of the step
-- before. The word is a 64-bit number, as `atomic_uint_fast32_t` is on the hosts.
pub mod Totals
pub mod Threads
pub mod Safety
mod Tests
use numstore.Prelude.{
  ℕ, ◌+◌, ◌-◌, ◌/◌, ◌%◌, ◌^◌, Bool, true, false, ◌||◌, Option, none, some, ltb, ◌==◌, if◌then◌else◌,
}

-- PENDING_BIT.
abbrev pub pending_bit : ℕ
pending_bit = 2147483648

-- `is_P_set`.
abbrev pub is_pending : ℕ → Bool
is_pending val = val / pending_bit % 2 == 1

-- P_lock (val): the bit is set.
abbrev pub p_lock : ℕ → ℕ
p_lock val = if is_pending val then val else val + pending_bit

-- X_lock: every bit.
abbrev pub x_lock : ℕ
x_lock = 18446744073709551615

-- `is_X_set`: every bit but the pending one, which may be set or not.
abbrev pub is_exclusive : ℕ → Bool
is_exclusive val = p_lock val == x_lock

-- `no_S_left`: no bit but the pending one.
abbrev pub no_s_left : ℕ → Bool
no_s_left val = (if is_pending val then val - pending_bit else val) == 0

-- S_lock (val).
abbrev pub s_lock : ℕ → ℕ
s_lock val = (val + 1) % 2 ^ 64

-- Where a thread stands: outside; in a call, before its atomic operation, with the value that it has
-- loaded where the operation is a compare-and-exchange; or holding the latch. `raising` is the upgrade.
pub data Pc : Type 0 where
  out shared exclusive : Pc
  s_load x_load up_load drain_load : Pc
  s_swap x_swap up_swap drain_swap : (expected : ℕ) → Pc

-- What a thread does: it calls an operation, goes on with it, or its weak compare-and-exchange fails
-- though the values are equal.
pub data Action : Type 0 where
  lock_s unlock_s lock_x unlock_x upgrade downgrade go fail : Action

-- The loads: what the loops do with the value.
unfoldable pub load : Pc → ℕ → Pc
load s_load w = if is_pending w || is_exclusive w then s_load else s_swap w
load x_load w = if is_pending w then x_load else x_swap w
load up_load w = if is_pending w then up_load else up_swap w
load drain_load w = if no_s_left w then drain_swap w else drain_load
load p w = p

-- The compare-and-exchanges: the new word and where the thread goes.
unfoldable pub swap : Pc → ℕ → ℕ × Pc
swap (s_swap e) w = if w == e then (s_lock e, shared) else (w, s_load)
swap (x_swap e) w = if w == e then (p_lock e, drain_load) else (w, x_load)
swap (up_swap e) w = if w == e then (p_lock (e - 1), drain_load) else (w, up_load)
swap (drain_swap e) w = if w == e then (x_lock, exclusive) else (w, drain_load)
swap p w = (w, p)

-- A compare-and-exchange that fails: the loop begins again.
unfoldable pub retry : Pc → Pc
retry (s_swap e) = s_load
retry (x_swap e) = x_load
retry (up_swap e) = up_load
retry (drain_swap e) = drain_load
retry p = p

-- One step of a thread: `spx_latch_lock_s`, `spx_latch_unlock_s`, `spx_latch_lock_x`,
-- `spx_latch_unlock_x`, `spx_latch_upgrade_s_x` and `spx_latch_downgrade_x_s`. `none`: a thread in this
-- place does not do that.
unfoldable pub act : Action → Pc → ℕ → Option (ℕ × Pc)
act lock_s out w = some (w, s_load)
act lock_x out w = some (w, x_load)
act unlock_s shared w = some ((w + 2 ^ 64 - 1) % 2 ^ 64, out)
act upgrade shared w = some (w, up_load)
act unlock_x exclusive w = some (0, out)
act downgrade exclusive w = some (1, shared)
act fail p w = some (w, retry p)
act go s_load w = some (w, load s_load w)
act go x_load w = some (w, load x_load w)
act go up_load w = some (w, load up_load w)
act go drain_load w = some (w, load drain_load w)
act go p w = some (swap p w)
act a p w = none

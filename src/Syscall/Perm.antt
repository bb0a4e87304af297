-- ===== src/Syscall/Perm.antt =====
-- What the tests of `perm` accept.
use comp530h.Base.{ℕ, ◌/◌, ◌%◌, ◌≡◌, false, ◌&&◌, arith, ◌==◌}
use comp530h.Base.Bits.{bit_and-zero}
use comp530h.Layout.{flag, pte_syscall}
use comp530h.Layout.Address.{flag_p, flag_u}
use comp530h.Syscall.{perm_ok, lnot}

flag_none : (x : ℕ) → flag x (lnot pte_syscall) ≡ false
unfolding flag
flag_none x = ground (arith, bit_and-zero x)

-- The test of perm in the calls on pages accepts exactly the values with PTE_U and PTE_P, whatever
-- their other bits.
pub perm_ok_lem : (perm : ℕ) → perm_ok perm ≡ ((perm / 4 % 2 == 1) && (perm % 2 == 1))
unfolding perm_ok
perm_ok_lem perm = rw (flag_u perm, flag_p perm, flag_none perm) (ground arith)

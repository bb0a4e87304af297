-- ===== src/Trap/Gates.antt =====
-- kern/trap.c: the gates that `trap_init` sets, by the numbers of inc/trap.h.
use comp530h.Base.{ℕ, ◌≡◌, ◌⊎◌, ◌↔◌, Option, none, some, List, [], ◌∷◌, update, arith}

-- The entry points of kern/trapentry.S.
pub data Handler : Type 0 where
  xtrapx_divzero xtrapx_debug xtrapx_nonmask xtrapx_breakpoint xtrapx_overflow xtrapx_bound
        xtrapx_illop xtrapx_device xtrapx_dblflt xtrapx_tss xtrapx_segnp xtrapx_stack xtrapx_gpflt
        xtrapx_pgflt xtrapx_fperr xtrapx_align xtrapx_mchk xtrapx_simderr xtrapx_syscall
        xtrapx_default xtrapx_irq_timer xtrapx_irq_kbd xtrapx_irq_serial xtrapx_irq_spurious
        xtrapx_irq_ide xtrapx_irq_error :
      Handler

-- A gate with the handler in the kernel's code segment, an interrupt gate: `istrap` is 0 in each call
-- of SETGATE.
pub record Gate : Type 0 where
  pub handler : Handler
  pub dpl : ℕ

abbrev pub Idt : Type 0
Idt = ℕ → Option Gate

abbrev pub set_gate : ℕ → Handler → ℕ → Idt → Idt
set_gate n h d idt = update idt n (some (record { handler = h; dpl = d }))

-- The gates in the order of the calls: the number, the handler and the privilege level.
abbrev pub set_gates : List (ℕ × (Handler × ℕ)) → Idt → Idt
set_gates [] idt = idt
set_gates ((n, (h, d)) ∷ gs) idt = set_gates gs (set_gate n h d idt)

abbrev pub gates : List (ℕ × (Handler × ℕ))
gates =
    (0, (xtrapx_divzero, 0))
    ∷ (1, (xtrapx_debug, 0))
    ∷ (2, (xtrapx_nonmask, 0))
    ∷ (3, (xtrapx_breakpoint, 3))
    ∷ (4, (xtrapx_overflow, 0))
    ∷ (5, (xtrapx_bound, 0))
    ∷ (6, (xtrapx_illop, 0))
    ∷ (7, (xtrapx_device, 0))
    ∷ (8, (xtrapx_dblflt, 0))
    ∷ (10, (xtrapx_tss, 0))
    ∷ (11, (xtrapx_segnp, 0))
    ∷ (12, (xtrapx_stack, 0))
    ∷ (13, (xtrapx_gpflt, 0))
    ∷ (14, (xtrapx_pgflt, 0))
    ∷ (16, (xtrapx_fperr, 0))
    ∷ (17, (xtrapx_align, 0))
    ∷ (18, (xtrapx_mchk, 0))
    ∷ (19, (xtrapx_simderr, 0))
    ∷ (48, (xtrapx_syscall, 3))
    ∷ (500, (xtrapx_default, 0))
    ∷ (32, (xtrapx_irq_timer, 0))
    ∷ (33, (xtrapx_irq_kbd, 0))
    ∷ (36, (xtrapx_irq_serial, 0))
    ∷ (39, (xtrapx_irq_spurious, 0))
    ∷ (46, (xtrapx_irq_ide, 0))
    ∷ (51, (xtrapx_irq_error, 0))
    ∷ []

unfoldable pub trap_init : Idt → Idt
trap_init idt = set_gates gates idt

-- The gates of a table that starts empty.
abbrev empty : Idt
empty n = none

-- Whether a program may raise the interrupt itself.
abbrev pub is_open : Option Gate → ℕ
is_open none = 0
is_open (some g) = g.dpl

-- After trap_init a program may raise exactly the interrupts 3 (breakpoint) and 48 (system call)
-- itself.
pub trap_init-user : (n : ℕ) → (is_open (trap_init empty n) ≡ 3) ↔ ((n ≡ 3) ⊎ (n ≡ 48))
unfolding trap_init
trap_init-user n = (λ h. ground arith, λ h. ground arith)

-- ===== src/Tests/Devices.antt =====
-- The lock and the console at small states.
use comp530h.Base.{
  ℕ, List, ◌==◌, if◌then◌else◌, ◌≡◌, refl, true, false, some, [], ◌∷◌, update, arith,
}
use comp530h.Bytes.{Memory}
use comp530h.Readline.{readline}
use comp530h.Readline.Line.{Returns, readline_lem}
use comp530h.Mp.{Cpus, mpsearch1, mp_init, mpconfig, mpsearch, search_from, entries_from, add_entry}
use comp530h.Mp.Entries.{IsNumbered}
use comp530h.Lock.{
  outside, spinning, entered, critical, not_locked, win, record_cpu, System, turn, start, Reach,
  here, later,
}
use comp530h.Lock.Safety.{is_inside, Reach-exclusive}
use comp530h.Lock.Progress.{Reach-Enters}
use comp530h.Console.{Cons, cons_getc}
use comp530h.Console.Queue.{Holds, Reads, cons_getc-Reads}
use comp530h.Console.Screen.{Screen, cons_putc}
use comp530h.Console.Screen.Cursor.{IsOnScreen, cons_putc-IsOnScreen}

-- CPU 0 has the lock, and CPU 1 spins.
abbrev busy : System
busy = record {
  lock = record { locked = 1; cpu = some 0 };
  pc = update (update (update (update (λ _. outside) 0 spinning) 1 spinning) 0 entered) 0 critical;
}

busy-Reach : Reach 2 start busy
busy-Reach =
    later
      (later
        (later (later here (turn 0 (omega arith) (not_locked refl)))
          (turn 1 (omega arith) (not_locked refl)))
        (turn 0 (omega arith) (win refl)))
      (turn 0 (omega arith) record_cpu)

Reach-exclusive_example : is_inside (busy.pc 1) ≡ false
Reach-exclusive_example = Reach-exclusive 2 busy 0 1 busy-Reach refl (omega arith)

Reach-Enters_example : (t : System) × Reach 2 busy t × (t.pc 1 ≡ entered)
Reach-Enters_example = Reach-Enters 2 busy 1 (omega arith) busy-Reach refl

-- The buffer's end is behind one character that waits.
abbrev one_waits : Cons
one_waits = record { buf = λ _. 104; rpos = 511; wpos = 0 }

one_waits-Holds : Holds one_waits (104 ∷ [])
one_waits-Holds = record {
  in_range = omega arith;
  shorter = omega arith;
  behind = refl;
  chars = refl;
}

cons_getc-Reads_example :
    Reads (cons_getc true (105 ∷ 0 ∷ []) (106 ∷ []) one_waits) (104 ∷ 105 ∷ 106 ∷ [])
cons_getc-Reads_example =
    cons_getc-Reads true (105 ∷ 0 ∷ []) (106 ∷ []) one_waits (104 ∷ []) one_waits-Holds
      (omega arith)

abbrev none_waits : Cons
none_waits = record { buf = λ _. 0; rpos = 0; wpos = 0 }

none_waits-Holds : Holds none_waits []
none_waits-Holds = record {
  in_range = omega arith;
  shorter = omega arith;
  behind = refl;
  chars = refl;
}

-- The last place of the screen
abbrev full : Screen
full = record { sent = []; crt_buf = λ _. 7; crt_pos = 1999 }

full-IsOnScreen : IsOnScreen (λ _. 7) full
full-IsOnScreen = record { cursor = omega arith; outside = λ i le. refl }

cons_putc-IsOnScreen_example : IsOnScreen (λ _. 7) (cons_putc 97 full)
cons_putc-IsOnScreen_example = cons_putc-IsOnScreen (λ _. 7) 97 full full-IsOnScreen

-- "ax", a rubout, "b" and a return: the line "ab"
readline_lem_example :
    Returns (readline true (97 ∷ 120 ∷ 127 ∷ 98 ∷ 10 ∷ 99 ∷ []) (λ _. 0)) (98 ∷ 97 ∷ [])
readline_lem_example =
    readline_lem true (97 ∷ 120 ∷ 127 ∷ 98 ∷ []) 10 (99 ∷ []) (λ _. 0)
      (omega arith, refl, (omega arith, refl, (omega arith, refl, (omega arith, refl, tt))))
      (omega arith) refl

-- A structure at 0x10010: "_MP_", the table at 0x20000, a length of 1 and a checksum.
abbrev firmware : Memory
firmware a =
    if a == 0x10010
    then 95
    else if a == 0x10011
    then 77
    else if a == 0x10012
    then 80
    else if a == 0x10013
    then 95
    else if a == 0x10016
    then 2
    else if a == 0x10018
    then 1
    else if a == 0x1001A
    then 182
    else 0

abbrev booting : Cpus
booting = record {
  ncpu = 0;
  cpu_id = λ _. 0;
  bootcpu = 0;
  started = λ _. false;
  ismp = false;
  lapicaddr = 0;
}

booting-IsNumbered : IsNumbered booting
booting-IsNumbered = record {
  few = omega arith;
  ids = λ j lt. absurd (omega arith);
  first = refl;
  boot = omega arith;
}

-- The EBDA at 0x90000 starts with a structure that leads to a table of one processor at 0x8000.
abbrev entries : List (ℕ × ℕ)
entries =
    (0x40F, 0x90)
    ∷ (0x90000, 95)
    ∷ (0x90001, 77)
    ∷ (0x90002, 80)
    ∷ (0x90003, 95)
    ∷ (0x90005, 0x80)
    ∷ (0x90008, 1)
    ∷ (0x9000A, 36)
    ∷ (0x8000, 80)
    ∷ (0x8001, 67)
    ∷ (0x8002, 77)
    ∷ (0x8003, 80)
    ∷ (0x8004, 64)
    ∷ (0x8006, 4)
    ∷ (0x8007, 136)
    ∷ (0x8022, 1)
    ∷ (0x802F, 3)
    ∷ []

abbrev holding : List (ℕ × ℕ) → Memory
holding [] a = 0
holding ((p, v) ∷ l) a = if a == p then v else holding l a

abbrev one_cpu : Cpus
one_cpu = record {
  ncpu = 1;
  cpu_id = update (λ _. 0) 0 0;
  bootcpu = 0;
  started = update (λ _. false) 0 true;
  ismp = true;
  lapicaddr = 0;
}

found_cpu : mp_init 512 (holding entries) booting ≡ some one_cpu
unfolding mp_init mpconfig mpsearch mpsearch1 search_from entries_from add_entry
found_cpu = refl

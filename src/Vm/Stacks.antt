-- ===== src/Vm/Stacks.antt =====
-- The kernel stacks of the CPUs.

-- ===== src/Kernel.antt =====
-- The state of the kernel and the monad of its code.
--
-- One CPU's view under the big kernel lock: `curenv` is this CPU's `thiscpu->cpu_env`.
-- Memory is seen through its 4 KB frames, each of 512 words of 64 bits. A kernel pointer to a
-- page-aligned object (a page table) is the number of its frame, a `pte_t *` is a frame and an index, a
-- `struct PageInfo *` is an index of `pages` and a `struct Env *` an index of `envs`; a pointer that may
-- be NULL is an Option of these.
mod Defs
pub mod Keeps
pub mod Ends
pub mod Env
pub use Env.*
unfoldable pub use Defs.*

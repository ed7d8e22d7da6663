-- ===== src/Allocator/Hook.antt =====
-- The hook round `malloc` (les12_malloc/src/main.c).
use summer_school.Base.{ℕ, suc, ◌+◌, ◌≡◌, some, if◌then◌else◌, arith}
use summer_school.Allocator.{HookState, malloc}

-- `malloc` ends after at most one inner call: it returns what `__libc_malloc` returns, leaves the
-- hook as active as it was, and logs the call once if the hook was active.
pub malloc_lem :
    (fuel : ℕ) (libc_malloc : ℕ → ℕ) (k : HookState) (size : ℕ)
    → malloc (suc (suc fuel)) libc_malloc k size
      ≡ some
          (libc_malloc size, record k { logged = if k.hook_active then k.logged + 1 else k.logged })
unfolding malloc
malloc_lem fuel libc_malloc k size = ground arith

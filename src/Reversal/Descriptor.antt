-- ===== src/Reversal/Descriptor.antt =====
-- What les10_my_nano/src/reverse.c uses of the descriptor of a file.
use summer_school.Base.{ℕ, ◌+◌, ◌-◌, ◌≤◌, ◌<◌, ◌≡◌, List, length, take, drop}

-- `lseek_end i` is `lseek(fd, -i, SEEK_END)`: it fails, and moves nothing, when that is in front of the
-- file. `read` gives the bytes at the offset, fewer only at the end of the file, and moves behind them.
pub record File (F : Type 0) : Type 0 where
  pub lseek_end : ℕ → F → F
  pub read : ℕ → F → List ℕ × F
  pub content : F → List ℕ
  pub offset : F → ℕ
  pub seeks :
      (i : ℕ) (f : F) → i ≤ length (content f) → offset (lseek_end i f) ≡ length (content f) - i
  pub stays : (i : ℕ) (f : F) → length (content f) < i → offset (lseek_end i f) ≡ offset f
  pub keeps : (i : ℕ) (f : F) → content (lseek_end i f) ≡ content f
  pub reads : (n : ℕ) (f : F) → (read n f).0 ≡ take n (drop (offset f) (content f))
  pub moves : (n : ℕ) (f : F) → offset (read n f).1 ≡ offset f + length (read n f).0
  pub keeps_read : (n : ℕ) (f : F) → content (read n f).1 ≡ content f

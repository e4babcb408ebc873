-- ===== src/ShadowReg.antt =====
-- src/lib/toyos/include/toyos/util/shadow_reg.hpp with buffer_view.hpp: a register of some bytes that is
-- read and written in part. Memory is a list of bytes, an offset is not negative, and `none` is a failed
-- ASSERT or an unsupported size.
pub mod Access
use guest_tests.Base.{
  ℕ, ◌+◌, Bool, ◌||◌, ◌==◌, leb, if◌then◌else◌, Option, none, some, ◌>>=◌, ◌>>◌, assert, List, ◌++◌,
  length, take, drop,
}

-- `buffer_view::read` of `n` bytes, and `buffer_view::write`.
unfoldable pub view_read : ℕ → List ℕ → ℕ → Option (List ℕ)
view_read n buf offset = assert (leb (n + offset) (length buf)) >> some (take n (drop offset buf))

unfoldable pub view_write : List ℕ → List ℕ → ℕ → Option (List ℕ)
view_write val buf offset =
    assert (leb (length val + offset) (length buf))
    >> some (take offset buf ++ (val ++ drop (offset + length val) buf))

-- The sizes that the switch supports.
abbrev pub supported : ℕ → Bool
supported n = n == 1 || n == 2 || n == 4 || n == 8

-- `read`: the buffer behind it.
unfoldable pub read : List ℕ → List ℕ → ℕ → Option (List ℕ)
read shadow buf offset =
    let whole =
      if length shadow == length buf + offset then view_write shadow buf 0 else some buf in
    assert (leb (length shadow) (length buf + offset)) >> whole >>= (λ buf2.
      assert (supported (length buf))
      >> view_read (length buf) shadow offset
      >>= (λ val. view_write val buf2 0))

-- `set_shadow`: the register behind it.
unfoldable pub set_shadow : List ℕ → List ℕ → ℕ → Option (List ℕ)
set_shadow shadow buf offset =
    let part =
      assert (supported (length buf))
      >> view_read (length buf) buf 0
      >>= (λ val. view_write val shadow offset) in
    assert (leb (length buf + offset) (length shadow))
    >> (if length shadow == length buf then view_read (length shadow) buf 0 else part)

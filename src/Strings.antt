-- ===== src/Strings.antt =====
-- kernel/utils/string.c. `Memory` is the byte blocks (memset, memcpy, memmove, memcpy64, memcmp)
-- over an address space; `Text` is the NUL-terminated strings. A string argument is the list of
-- the bytes from the pointer to the end of the object that it points into, and reading past that
-- end is `none`.
pub mod Memory
pub mod Text
pub mod Search
pub mod Bounds
pub mod Zeros
pub mod Words
pub mod Scan
pub mod Tokens
pub mod Spans
pub mod Copies

-- ===== src/Descriptor.antt =====
-- Open files: file_api.c, the functions of file.c on `file_t`, and the table of process.c. A file is
-- named by its address, and `files` is what is allocated; a descriptor of -1 or 256 and above is
-- `none`, and a function that returns -1 for it returns `none` too. An access through a null pointer
-- or to memory that was freed is a panic, as in the trap handler. The operations of a file (`ops`) are
-- parameters, and so are `malloc` and the resolution of a path.
pub mod Table
pub mod Sharing
pub mod MemFile
pub mod Examples
use mikucos.Base.{
  ℕ, zero, suc, ◌+◌, ◌-◌, ◌%◌, ◌^◌, Bool, ◌||◌, Option, none, some, List, [], ◌∷◌, ◌==◌, ltb, leb,
  if◌then◌else◌, length, take, drop,
}
use mikucos.Base.Int.{ℤ, pos, negsuc, ◌+ℤ◌, ◌-ℤ◌, is_zero}
use mikucos.Base.Outcome.{Outcome, ok, panic, ◌>>=◌}
use mikucos.ListHead.{Ptr, write}

-- MAX_FD
abbrev pub max_fd : ℕ
max_fd = 256

pub record OpenFile : Type 0 where
  pub position : ℕ
  pub flags : ℕ
  pub fnode : Ptr
  pub reference_count : ℤ

-- The descriptors of the current process, and the files that are allocated.
pub record Kernel : Type 0 where
  pub fd : ℕ → Ptr
  pub files : Ptr → Option OpenFile

-- What `process_init_pcb` makes of the table.
unfoldable pub process_init_fds : ℕ → (ℕ → Ptr) → ℕ → Ptr
process_init_fds zero fd = fd
process_init_fds (suc i) fd = write (process_init_fds i fd) i 0

-- The loop of `file_find_next_fd` from `i` on, with `k` rounds left.
unfoldable pub next_fd_loop : (ℕ → Ptr) → ℕ → ℕ → Option ℕ
next_fd_loop fd zero i = none
next_fd_loop fd (suc k) i =
    let rest = next_fd_loop fd k (i + 1) in if fd i == 0 then some i else rest

unfoldable pub file_find_next_fd : Kernel → Option ℕ
file_find_next_fd k = next_fd_loop k.fd max_fd 0

-- For the address that `malloc` returns.
unfoldable pub file_open_fnode_file : Ptr → Ptr → ℕ → Kernel → Kernel
file_open_fnode_file new fnode flags k = record k {
  files =
      write k.files new
        (some (record { position = 0; flags = flags; fnode = fnode; reference_count = pos 1 }));
}

unfoldable pub file_open_fnode : Ptr → Ptr → ℕ → Kernel → Outcome (ℕ × Kernel)
file_open_fnode new fnode flags k =
    let k' = file_open_fnode_file new fnode flags k in
    elim (file_find_next_fd k') [
      | none ↦ panic
      | some fd ↦ ok (fd, record k' { fd = write k'.fd fd new })
    ]

-- The reference count that is left; at 0 the file is freed.
unfoldable pub file_close : Ptr → Kernel → Outcome (ℤ × Kernel)
file_close file k = elim (k.files file) [
  | none ↦ panic
  | some f ↦
      let r = f.reference_count -ℤ pos 1 in
      let left : Option OpenFile =
        if is_zero r then none else some (record f { reference_count = r }) in
      ok (r, record k { files = write k.files file left })
]

-- `open`, for what `file_resolve_path` returns.
unfoldable pub open_file : Ptr → Option Ptr → ℕ → Kernel → Outcome (Option ℕ × Kernel)
open_file new none flags k = ok (none, k)
open_file new (some fnode) flags k =
    file_open_fnode new fnode flags k >>= λ (fd, k'). ok (some fd, k')

unfoldable pub close : ℕ → Kernel → Outcome (Option ℕ × Kernel)
close fd k =
    if leb max_fd fd || k.fd fd == 0
    then ok (none, k)
    else (file_close (k.fd fd) k >>= λ (r, k').
        ok (some 0, if is_zero r then record k' { fd = write k'.fd fd 0 } else k'))

-- `fd[newfd]->reference_count++`, behind the write of the descriptor.
unfoldable pub share : ℕ → Kernel → Outcome Kernel
share newfd k = elim (k.files (k.fd newfd)) [
  | none ↦ panic
  | some f ↦ ok (record k {
    files =
        write k.files (k.fd newfd)
          (some (record f { reference_count = f.reference_count +ℤ pos 1 }));
  })
]

unfoldable pub dup2 : ℕ → ℕ → Kernel → Outcome (Option ℕ × Kernel)
dup2 oldfd newfd k =
    if leb max_fd oldfd || leb max_fd newfd
    then ok (none, k)
    else if oldfd == newfd
    then ok (some oldfd, k)
    else (close newfd k >>= λ (r, k').
        share newfd (record k' { fd = write k'.fd newfd (k'.fd oldfd) }) >>= λ k''.
        ok (some newfd, k''))

-- What `read` of a file does: the bytes read, or `none` for -1, and the new position.
abbrev pub ReadOp : Type 0
ReadOp = OpenFile → ℕ → Outcome (Option (List ℕ) × ℕ)

unfoldable pub file_read : ReadOp → Ptr → ℕ → Kernel → Outcome (Option (List ℕ) × Kernel)
file_read op file len k = elim (k.files file) [
  | none ↦ panic
  | some f ↦ op f len >>= λ (bytes, position).
      ok (bytes, record k { files = write k.files file (some (record f { position = position })) })
]

-- `read`, with a buffer.
unfoldable pub read : ReadOp → ℕ → ℕ → Kernel → Outcome (Option (List ℕ) × Kernel)
read op fd len k =
    if leb max_fd fd || (k.fd fd == 0 || len == 0)
    then ok (none, k)
    else file_read op (k.fd fd) len k

-- Files over a buffer in memory. Sizes and positions have 32 bits and no sign; bytes outside the
-- buffer are a panic here.
unfoldable pub memfile_read : List ℕ → ReadOp
memfile_read memory f len =
    let left = (length memory + 2 ^ 32 - f.position) % 2 ^ 32 in
    let n = if ltb left len then left else len in
    if left == 0
    then ok (none, f.position)
    else if ltb (length memory) (f.position + n)
    then panic
    else ok (some (take n (drop f.position memory)), (f.position + n) % 2 ^ 32)

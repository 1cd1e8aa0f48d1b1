-- ===== src/Descriptor/Sharing.antt =====
-- Descriptors that share a file.
use mikucos.Base.{ℕ, suc, ◌<◌, ◌≡◌, ◌≢◌, refl, ap, true, false, ◌||◌, none, some, ◌==◌, leb, arith}
use mikucos.Base.Int.{pos, ◌+ℤ◌}
use mikucos.Base.Outcome.{ok, panic}
use mikucos.ListHead.{Ptr, write}
use mikucos.Descriptor.{max_fd, OpenFile, Kernel, close, share, dup2, ReadOp, file_read, read}
use mikucos.Descriptor.Table.{close-last, close-shared}

-- The descriptor `newfd` made one more for the file `p`, and the file's count.
abbrev pub duplicated : Kernel → ℕ → Ptr → OpenFile → ℕ → Kernel
duplicated k newfd p f n = record {
  fd = write k.fd newfd p;
  files = write k.files p (some (record f { reference_count = pos n }));
}

share-eq :
    (k : Kernel) (fd : ℕ) (p : Ptr) (f : OpenFile)
    → k.fd fd ≡ p
    → k.files p ≡ some f
    → share fd k
      ≡ ok (record k {
        files = write k.files p (some (record f { reference_count = f.reference_count +ℤ pos 1 }));
      })
unfolding share
share-eq k fd p f at live = ground arith

module _ (k : Kernel) (oldfd newfd : ℕ) (p : Ptr) (f : OpenFile) (n : ℕ) (old_low : oldfd < max_fd)
    (new_low : newfd < max_fd) (apart : oldfd ≢ newfd) (old : k.fd oldfd ≡ p) (u : p ≢ 0)
    (live : k.files p ≡ some f) (count : f.reference_count ≡ pos (suc n))
    (free : k.fd newfd ≡ 0) where
  -- `dup2` of an open descriptor to a closed one makes both refer to the file, and counts one
  -- reference more; the other descriptors and files stay.
  pub dup2-shares : dup2 oldfd newfd k ≡ ok (some newfd, duplicated k newfd p f (suc (suc n)))
  unfolding dup2 close ◌+ℤ◌
  dup2-shares =
      let closed : (leb max_fd newfd || k.fd newfd == 0) ≡ true = ground arith in
      let other : (oldfd == newfd) ≡ false = ground arith in
      let low : (leb max_fd oldfd || leb max_fd newfd) ≡ false = ground arith in
      let more : f.reference_count +ℤ pos 1 ≡ pos (suc (suc n)) = ground (arith, count) in
      let shared = share-eq (record k { fd = write k.fd newfd p }) newfd p f (ground arith) live in
      rw (low, other, closed, old, shared, more)

  -- When `oldfd` holds the only reference to a file and is duplicated, `close` of the duplicate
  -- succeeds and leaves it open; a second `close` of it frees the file, though `oldfd` still refers to
  -- it, and the next `read` through `oldfd` reads the file that was freed.
  pub closed_twice_dangles :
      (op : ReadOp) (len : ℕ)
      → n ≡ 0
      → len ≢ 0
      → (k1 : Kernel) × (k2 : Kernel) × (k3 : Kernel) × (dup2 oldfd newfd k ≡ ok (some newfd, k1))
        × (close newfd k1 ≡ ok (some 0, k2))
        × (k2.fd newfd ≡ p)
        × (close newfd k2 ≡ ok (some 0, k3))
        × (k3.fd oldfd ≡ p)
        × (k3.files p ≡ none)
        × (read op oldfd len k3 ≡ panic)
  unfolding read file_read
  closed_twice_dangles op len z l =
      let f1 : OpenFile = record f { reference_count = pos (suc (suc n)) } in
      let f2 : OpenFile = record f { reference_count = pos (suc n) } in
      let k1 = duplicated k newfd p f (suc (suc n)) in
      let k2 : Kernel = record k1 { files = write k1.files p (some f2) } in
      let k3 : Kernel = record { fd = write k2.fd newfd 0; files = write k2.files p none } in
      let here : k1.fd newfd ≡ p = ground arith in
      let there : k3.fd oldfd ≡ p = ground arith in
      let freed : k3.files p ≡ none = ground arith in
      let test : (leb max_fd oldfd || (p == 0 || len == 0)) ≡ false = ground arith in
      (
        k1,
        k2,
        k3,
        dup2-shares,
        close-shared k1 newfd p f1 here u new_low (ground arith) n refl,
        here,
        close-last k2 newfd p f2 here u new_low (ground arith) (ap (λ m. pos (suc m)) z),
        there,
        freed,
        rw (there, test, file_read, freed),
      )

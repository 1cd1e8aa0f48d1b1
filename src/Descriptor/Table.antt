-- ===== src/Descriptor/Table.antt =====
-- Descriptors are given out from the lowest on, and given back by `close`.
use mathlib.Core.Path.{fun_ext, subst, ap₂}
use mikucos.Base.{
  ℕ, zero, suc, ◌+◌, ◌≤◌, ◌<◌, ◌≡◌, ◌≢◌, refl, sym, ap, ==_iff, ◌∙◌, false, Option, none, some,
  ◌==◌, arith, leb, ◌||◌, Bool-cases, inl, inr,
}
use mikucos.Base.Int.{pos, ◌-ℤ◌}
use mikucos.Base.Outcome.{ok}
use mikucos.ListHead.{Ptr, write}
use mikucos.Descriptor.{
  max_fd, OpenFile, Kernel, next_fd_loop, file_find_next_fd, file_open_fnode_file, file_open_fnode,
  file_close, close,
}

-- What a search from `i` on, over `n` descriptors, says of the table.
abbrev pub LowestFree : (ℕ → Ptr) → ℕ → ℕ → Option ℕ → Type 0
LowestFree fd i n none = (j : ℕ) → i ≤ j → j < i + n → fd j ≢ 0
LowestFree fd i n (some m) =
    (i ≤ m) × (m < i + n) × (fd m ≡ 0) × ((j : ℕ) → i ≤ j → j < m → fd j ≢ 0)

next_fd_loop-lowest : (fd : ℕ → Ptr) (n i : ℕ) → LowestFree fd i n (next_fd_loop fd n i)
unfolding next_fd_loop
next_fd_loop-lowest fd zero i = λ j h k. absurd (omega arith)
next_fd_loop-lowest fd (suc n) i = elim (Bool-cases (fd i == 0)) [
  | inl e ↦ rw e (omega arith, omega arith, ground arith, λ j h k. absurd (omega arith))
  | inr e ↦
      rw e (later (next_fd_loop fd n (i + 1)) (ground arith) (next_fd_loop-lowest fd n (i + 1)))
]
  where
    from_here :
        fd i ≢ 0
        → (m : ℕ) → ((j : ℕ) → i + 1 ≤ j → j < m → fd j ≢ 0)
        → (j : ℕ) → i ≤ j
        → j < m
        → fd j ≢ 0
    from_here u m h j a b = elim (Bool-cases (i == j)) [
      | inl e ↦ ground arith
      | inr e ↦ h j (ground arith) b
    ]

    later : (r : Option ℕ) → fd i ≢ 0 → LowestFree fd (i + 1) n r → LowestFree fd i (suc n) r
    later none u h = λ j a b. from_here u (i + suc n) (λ j a b. h j a (omega arith)) j a b
    later (some m) u (a, b, e, h) = (omega arith, omega arith, e, from_here u m h)

-- `file_find_next_fd` returns the lowest descriptor of the 256 that is free, and -1 exactly when none
-- is.
pub find_next_fd-lowest : (k : Kernel) → LowestFree k.fd 0 max_fd (file_find_next_fd k)
unfolding file_find_next_fd
find_next_fd-lowest k = next_fd_loop-lowest k.fd max_fd 0

write-back {ℓ} :
    {A : Type ℓ} (f : Ptr → A) (p : Ptr) (v w : A) → f p ≡ w → write (write f p v) p w ≡ f
write-back f p v w e = fun_ext (λ q. elim (Bool-cases (q == p)) [
  | inl s ↦ rw s (sym e ∙ ap f (sym ((==_iff q p).0 s)))
  | inr s ↦ rw s
])

-- Closing a descriptor that is open, on a file with one reference and with more.
module _ (k : Kernel) (fd : ℕ) (p : Ptr) (f : OpenFile) (at : k.fd fd ≡ p) (u : p ≢ 0)
    (low : fd < max_fd) (live : k.files p ≡ some f) where
  pub close-last :
      f.reference_count ≡ pos 1
      → close fd k ≡ ok (some 0, record { fd = write k.fd fd 0; files = write k.files p none })
  unfolding close file_close ◌-ℤ◌
  close-last c =
      let test : (leb max_fd fd || p == 0) ≡ false = ground arith in
      rw (at, test, live, file_close, c)
        (ap (λ q. ok (some 0, record { fd = write k.fd fd 0; files = write k.files q none })) at)

  pub close-shared :
      (n : ℕ)
      → f.reference_count ≡ pos (suc (suc n))
      → close fd k
        ≡ ok (
          some 0,
          record k { files = write k.files p (some (record f { reference_count = pos (suc n) })) },
        )
  unfolding close file_close ◌-ℤ◌
  close-shared n c =
      let test : (leb max_fd fd || p == 0) ≡ false = ground arith in
      let less : pos (suc (suc n)) -ℤ pos 1 ≡ pos (suc n) = ground arith in
      rw (at, test, live, file_close, c) (ground (arith, less))

-- A file is opened at an address that is not null and not in use, and there is a free descriptor `fd`:
-- it refers to the new file then, and closing it frees the file and leaves everything as it was.
pub close-open :
    (k : Kernel) (new fnode : Ptr) (flags fd : ℕ)
    → new ≢ 0
    → k.files new ≡ none
    → file_find_next_fd k ≡ some fd
    → (k' : Kernel) × (file_open_fnode new fnode flags k ≡ ok (fd, k'))
      × (k'.fd fd ≡ new)
      × (close fd k' ≡ ok (some 0, k))
unfolding file_open_fnode file_open_fnode_file file_find_next_fd
close-open k new fnode flags fd u free e =
    let low : LowestFree k.fd 0 max_fd (some fd) =
      subst (LowestFree k.fd 0 max_fd) e (find_next_fd-lowest k) in
    let file : OpenFile = record {
      position = 0;
      flags = flags;
      fnode = fnode;
      reference_count = pos 1;
    } in
    let k' : Kernel = record { fd = write k.fd fd new; files = write k.files new (some file) } in
    let there : k'.fd fd ≡ new = ground arith in
    (
      k',
      ground arith,
      there,
      close-last k' fd new file there u (omega arith) (ground arith) refl
          ∙ ap₂ (λ fds files. ok (some 0, record { fd = fds; files = files }))
              (write-back k.fd fd new 0 low.2) (write-back k.files new (some file) none free),
    )

-- ===== src/Descriptor/Examples.antt =====
-- A process with the descriptor 0 open on the file at 10.
use mikucos.Base.{◌≡◌, refl, ℕ, some, none, List, [], ◌∷◌, ◌==◌, if◌then◌else◌, arith}
use mikucos.Base.Int.{pos}
use mikucos.Base.Outcome.{ok}
use mikucos.Descriptor.{
  Kernel, OpenFile, next_fd_loop, file_find_next_fd, file_open_fnode, close, dup2,
}
use mikucos.Descriptor.Table.{close-open}
use mikucos.Descriptor.Sharing.{duplicated, dup2-shares}

abbrev file : OpenFile
file = record { position = 2; flags = 0; fnode = 50; reference_count = pos 1 }

abbrev kernel : Kernel
kernel = record {
  fd = λ n. if n == 0 then 10 else 0;
  files = λ p. if p == 10 then some file else none;
}

close-open_example :
    (k' : Kernel) × (file_open_fnode 20 60 0 kernel ≡ ok (1, k'))
    × (k'.fd 1 ≡ 20)
    × (close 1 k' ≡ ok (some 0, kernel))
unfolding file_find_next_fd next_fd_loop
close-open_example = close-open kernel 20 60 0 1 (omega arith) refl refl

dup2-shares_example : dup2 0 1 kernel ≡ ok (some 1, duplicated kernel 1 10 file 2)
dup2-shares_example =
    dup2-shares kernel 0 1 10 file 0 (omega arith) (omega arith) (omega arith) refl (omega arith)
      refl refl refl

abbrev memory : List ℕ
memory = 7 ∷ 8 ∷ 9 ∷ []

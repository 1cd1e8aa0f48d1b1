-- ===== src/Tarfs/Populate.antt =====
-- The nodes of an archive: each file outside a subdirectory has its number in the order of the archive.
use mikucos.Base.{
  ℕ, zero, suc, ◌+◌, ◌-◌, ◌<◌, ◌≤◌, ◌≡◌, refl, sym, ap, ◌∙◌, true, false, none, some, List, [], ◌∷◌,
  ◌++◌, ◌==◌, ltb, if◌then◌else◌, length, length-append, get_elem?, arith, Bool-cases, inl, inr,
}
use mathlib.Core.List.{append_assoc}
use mikucos.Base.Int.{pos}
use mikucos.Base.Outcome.{Outcome, ok}
use mikucos.Tar.{Block, tar_is_valid_file, tar_next_file}
use mikucos.Tar.Find.{TarFile, AllTarFiles, archive_of, get_elem?-middle, next-fits}
use mikucos.Tarfs.{TarfsNode, tarfs_node, in_subdirectory, populate_loop, tarfs_populate, find_node}

-- The nodes of the files whose blocks start at `i`, in order, numbered from `id` on.
unfoldable pub numbered : ℕ → ℕ → List TarFile → List TarfsNode
numbered i id [] = []
numbered i id (f ∷ fs) =
    let skipped = numbered (i + suc (length f.contents)) id fs in
    let more = numbered (i + suc (length f.contents)) (id + 1) fs in
    if in_subdirectory f.header then skipped else tarfs_node id f.header i ∷ more

-- The nodes that are in `files` have numbers below `id`.
Below : ℕ → List TarfsNode → Type 0
Below id files = (k : ℕ) → id ≤ k → find_node (pos k) files ≡ none

Below-add :
    (id i : ℕ) (header : Block) (files : List TarfsNode)
    → Below id files
    → Below (id + 1) (tarfs_node id header i ∷ files)
unfolding Below find_node
Below-add id i header files h k l = let e = h k (omega arith) in ground (arith, e)

-- By a number the ring finds what the list in order has there.
Found : ℕ → List TarfsNode → List TarfsNode → List TarfsNode → Type 0
Found id nodes files result =
    (k : ℕ)
    → find_node (pos k) result
      ≡ (if ltb k id then find_node (pos k) files else get_elem? nodes (k - id))

Found-nil : (id : ℕ) (files : List TarfsNode) → Below id files → Found id [] files files
unfolding Found Below
Found-nil id files h k = elim (Bool-cases (ltb k id)) [
  | inl e ↦ rw e refl
  | inr e ↦ rw e (h k (ground arith))
]

Found-cons :
    (id : ℕ) (node : TarfsNode) (nodes files result : List TarfsNode)
    → node.file_id ≡ id
    → Found (id + 1) nodes (node ∷ files) result
    → Found id (node ∷ nodes) files result
unfolding Found find_node
Found-cons id node nodes files result e h k = elim (Bool-cases (ltb k (id + 1))) [
  | inl low ↦ elim (Bool-cases (ltb k id)) [
    | inl l ↦ let ne : (node.file_id == k) ≡ false = ground arith in rw l (h k ∙ rw (low, ne) refl)
    | inr l ↦
        let eq : (node.file_id == k) ≡ true = ground arith in
        let here : k - id ≡ 0 = ground arith in rw (l, here) (h k ∙ rw (low, eq) refl)
  ]
  | inr high ↦
      let l : ltb k id ≡ false = ground arith in
      let there : k - id ≡ suc (k - (id + 1)) = ground arith in rw (l, there) (h k ∙ rw high refl)
]

-- The blocks in front of the next file.
ahead : (front : List Block) (f : TarFile) → List Block
ahead front f = front ++ f.header ∷ f.contents

ahead-archive :
    (front : List Block) (f : TarFile) (rest : List Block)
    → front ++ f.header ∷ (f.contents ++ rest) ≡ ahead front f ++ rest
unfolding ahead
ahead-archive front f rest = sym (append_assoc front (f.header ∷ f.contents) rest)

length-ahead :
    (front : List Block) (f : TarFile)
    → length front + suc (length f.contents) ≡ length (ahead front f)
unfolding ahead
length-ahead front f = sym (length-append front (f.header ∷ f.contents))

Populated : ℕ → List Block → ℕ → ℕ → List TarfsNode → List TarfsNode → Type 0
Populated fuel archive i id nodes files =
    (result : List TarfsNode) × (populate_loop fuel archive i id files ≡ ok result)
    × Found id nodes files result

next_files : ℕ → ℕ → Block → List TarfsNode → List TarfsNode
next_files id i header files =
    if in_subdirectory header then files else tarfs_node id header i ∷ files

next_id : ℕ → Block → ℕ
next_id id header = if in_subdirectory header then id else id + 1

-- One round of the loop.
round :
    (fuel : ℕ) (archive : List Block) (i j id : ℕ) (files : List TarfsNode) (header next : Block)
    → get_elem? archive i ≡ some header
    → tar_next_file header i ≡ some j
    → get_elem? archive j ≡ some next
    → populate_loop (suc fuel) archive i id files
      ≡ (elim (tar_is_valid_file next) as (λ b. Outcome (List TarfsNode)) [
        | false ↦ ok (next_files id i header files)
        | true ↦ populate_loop fuel archive j (next_id id header) (next_files id i header files)
      ])
unfolding populate_loop next_files next_id
round fuel archive i j id files header next a b c = rw (populate_loop, a, b, c) refl

next-Below :
    (id i : ℕ) (header : Block) (files : List TarfsNode)
    → Below id files
    → Below (next_id id header) (next_files id i header files)
unfolding next_files next_id
next-Below id i header files h = elim (Bool-cases (in_subdirectory header)) [
  | inl s ↦ rw s h
  | inr s ↦ rw s (Below-add id i header files h)
]

next-Found :
    (id i : ℕ) (f : TarFile) (fs : List TarFile) (files result : List TarfsNode)
    → Found
        (next_id id f.header)
        (numbered (i + suc (length f.contents)) (next_id id f.header) fs)
        (next_files id i f.header files)
        result
    → Found id (numbered i id (f ∷ fs)) files result
unfolding next_files next_id numbered
next-Found id i f fs files result = elim (Bool-cases (in_subdirectory f.header)) [
  | inl s ↦ rw s (λ h. h)
  | inr s ↦ rw s (
      Found-cons id (tarfs_node id f.header i) (numbered (i + suc (length f.contents)) (id + 1) fs)
        files result refl)
]

populate_loop-Found :
    (fuel : ℕ) (archive front : List Block) (f : TarFile) (fs : List TarFile) (end : Block)
    (rest : List Block) (id : ℕ) (files : List TarfsNode)
    → length fs < fuel
    → AllTarFiles (f ∷ fs)
    → tar_is_valid_file end ≡ false
    → archive ≡ front ++ archive_of (f ∷ fs) (end ∷ rest)
    → Below id files
    → Populated fuel archive (length front) id (numbered (length front) id (f ∷ fs)) files
unfolding Populated numbered
populate_loop-Found zero archive front f fs end rest id files l h v e b = absurd (omega arith)
populate_loop-Found (suc fuel) archive front f [] end rest id files l h v e b =
    let here : get_elem? archive (length front) ≡ some f.header =
      rw e (get_elem?-middle front f.header (f.contents ++ end ∷ rest)) in
    let split = e ∙ ahead-archive front f (end ∷ rest) in
    let there : get_elem? archive (length (ahead front f)) ≡ some end =
      rw split (get_elem?-middle (ahead front f) end rest) in
    let next = next-fits f (length front) h.0 ∙ ap some (length-ahead front f) in
    let last =
      Found-nil (next_id id f.header) (next_files id (length front) f.header files)
        (next-Below id (length front) f.header files b) in
    (
      next_files id (length front) f.header files,
      rw
          (
            round fuel archive (length front) (length (ahead front f)) id files f.header end here
                next there,
            v,
          )
          refl,
      next-Found id (length front) f [] files (next_files id (length front) f.header files) last,
    )
populate_loop-Found (suc fuel) archive front f (g ∷ gs) end rest id files l h v e b =
    let more = g.contents ++ archive_of gs (end ∷ rest) in
    let here : get_elem? archive (length front) ≡ some f.header =
      rw e (get_elem?-middle front f.header (f.contents ++ g.header ∷ more)) in
    let split = e ∙ ahead-archive front f (g.header ∷ more) in
    let there : get_elem? archive (length (ahead front f)) ≡ some g.header =
      rw split (get_elem?-middle (ahead front f) g.header more) in
    let next = next-fits f (length front) h.0 ∙ ap some (length-ahead front f) in
    let (result, r, found) =
      populate_loop-Found fuel archive (ahead front f) g gs end rest (next_id id f.header)
        (next_files id (length front) f.header files) (omega arith) h.1 v split
        (next-Below id (length front) f.header files b) in
    (
      result,
      rw
          (
            round fuel archive (length front) (length (ahead front f)) id files f.header g.header
                here next there,
            h.1.0.valid,
          )
          r,
      next-Found id (length front) f (g ∷ gs) files result (rw (length-ahead front f) found),
    )

empty-Below : Below 1 []
unfolding Below find_node
empty-Below k l = refl

-- The ring that the loop leaves has by the number `k + 1` what the list has at `k`.
pub populate-Found :
    (fuel : ℕ) (f : TarFile) (fs : List TarFile) (end : Block) (rest : List Block)
    → length fs < fuel
    → AllTarFiles (f ∷ fs)
    → tar_is_valid_file end ≡ false
    → (files : List TarfsNode) × (tarfs_populate fuel (archive_of (f ∷ fs) (end ∷ rest)) ≡ ok files)
      × ((k : ℕ) → find_node (pos (k + 1)) files ≡ get_elem? (numbered 0 1 (f ∷ fs)) k)
unfolding tarfs_populate Populated Found
populate-Found fuel f fs end rest l h v =
    let (files, r, found) =
      populate_loop-Found fuel (archive_of (f ∷ fs) (end ∷ rest)) [] f fs end rest 1 [] l h v refl
        empty-Below in
    (
      files,
      r,
      λ k.
          let high : ltb (k + 1) 1 ≡ false = ground arith in
          let back : k + 1 - 1 ≡ k = omega arith in found (k + 1) ∙ rw (high, back) refl,
    )

-- ===== src/ListHead/Ring.antt =====
-- The list that a ring of nodes stands for.
use mikucos.Base.{◌≡◌, ◌≢◌, refl, Bool, true, false, ◌||◌, List, [], ◌∷◌, ◌++◌, arith, ◌==◌}
use mikucos.ListHead.{Ptr, Heap}

abbrev pub mem : Ptr → List Ptr → Bool
mem a [] = false
mem a (x ∷ xs) = (a == x) || mem a xs

infix 40 ◌∉◌
abbrev pub ◌∉◌ : Ptr → List Ptr → Type 0
a ∉ xs = mem a xs ≡ false

abbrev pub Distinct : List Ptr → Type 0
Distinct [] = Unit
Distinct (x ∷ xs) = (x ∉ xs) × Distinct xs

-- From `a` the pointers lead through `xs` to `b`, and back.
abbrev pub Links : Heap → Ptr → List Ptr → Ptr → Type 0
Links h a [] b = (h.next a ≡ b) × (h.prev b ≡ a)
Links h a (x ∷ xs) b = (h.next a ≡ x) × (h.prev x ≡ a) × Links h x xs b

-- The ring behind the head `head` is the list `xs` of different nodes.
pub record Ring (h : Heap) (head : Ptr) (xs : List Ptr) : Type 0 where
  pub links : Links h head xs head
  pub distinct : Distinct (head ∷ xs)

abbrev pub last_of : Ptr → List Ptr → Ptr
last_of a [] = a
last_of a (x ∷ xs) = last_of x xs

abbrev pub first_of : List Ptr → Ptr → Ptr
first_of [] b = b
first_of (x ∷ xs) b = x

pub mem-append : (a : Ptr) (xs ys : List Ptr) → mem a (xs ++ ys) ≡ (mem a xs || mem a ys)
mem-append a [] ys = refl
mem-append a (x ∷ xs) ys = ground (arith, mem-append a xs ys)

pub prev-last : (h : Heap) (a b : Ptr) (xs : List Ptr) → Links h a xs b → h.prev b ≡ last_of a xs
prev-last h a b [] l = l.1
prev-last h a b (x ∷ xs) l = prev-last h x b xs l.2

pub next-first : (h : Heap) (a b : Ptr) (xs : List Ptr) → Links h a xs b → h.next a ≡ first_of xs b
next-first h a b [] l = l.0
next-first h a b (x ∷ xs) l = l.0

pub last-mem : (a c : Ptr) (xs : List Ptr) → c ∉ (a ∷ xs) → c ≢ last_of a xs
last-mem a c [] h = ground arith
last-mem a c (x ∷ xs) h = last-mem x c xs (ground arith)

-- A path survives a change elsewhere: `next` is read at `a` and `xs`, `prev` at `xs` and `b`.
pub Links-frame :
    {h g : Heap} (a b : Ptr) (xs : List Ptr)
    → Links h a xs b
    → ((c : Ptr) → mem c (a ∷ xs) ≡ true → g.next c ≡ h.next c)
    → ((c : Ptr) → mem c (xs ++ (b ∷ [])) ≡ true → g.prev c ≡ h.prev c)
    → Links g a xs b
Links-frame a b [] l n p = ground (arith, n a, p b)
Links-frame a b (x ∷ xs) l n p =
    let rest = Links-frame x b xs l.2 (λ c i. n c (ground arith)) (λ c i. p c (ground arith)) in
    ground (arith, n a, p x, rest)

-- So does a ring, where every node is spared.
pub Ring-frame :
    {h g : Heap} (head : Ptr) (xs : List Ptr)
    → Ring h head xs
    → ((c : Ptr) → mem c (head ∷ xs) ≡ true → (g.next c ≡ h.next c) × (g.prev c ≡ h.prev c))
    → Ring g head xs
Ring-frame head xs r same = record {
  links =
      Links-frame head head xs r.links (λ c i. (same c i).0)
        (λ c i. (same c (ground (arith, mem-append c xs (head ∷ [])))).1);
  distinct = r.distinct;
}

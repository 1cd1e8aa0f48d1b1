-- ===== src/Numeral/Reverse.antt =====
-- The swapping loop of `itoa` reverses the buffer.
use mathlib.Core.List.{reverse, reverse_aux, reverse_aux-append, append_assoc, append-nil}
use mikucos.Base.{
  ℕ, zero, suc, ◌+◌, ◌-◌, ◌≤◌, ◌≡◌, refl, sym, List, [], ◌∷◌, ◌++◌, arith, length, length-append,
  get_or, set, get_or-append, set-append, snoc-cases, inl, inr, lt→ltb,
}
use mikucos.Numeral.{reverse_loop}

module _ (front m back : List ℕ) (x y : ℕ) where
  get_end : get_or (front ++ x ∷ (m ++ y ∷ back)) (length front + suc (length m)) 0 ≡ y
  get_end =
      rw (append_assoc front (x ∷ m) (y ∷ back), length-append front (x ∷ m)) at
        (get_or-append (front ++ x ∷ m) y back 0)

  set_end :
      (v : ℕ)
      → set (front ++ x ∷ (m ++ y ∷ back)) (length front + suc (length m)) v
        ≡ front ++ x ∷ (m ++ v ∷ back)
  set_end v =
      rw
        (
          append_assoc front (x ∷ m) (y ∷ back),
          append_assoc front (x ∷ m) (v ∷ back),
          length-append front (x ∷ m),
        )
        at (set-append (front ++ x ∷ m) y back v)

-- One round of the loop swaps the ends of the middle.
reverse_loop-swap :
    (fuel : ℕ) (front m back : List ℕ) (x y : ℕ)
    → reverse_loop
        (suc fuel)
        (front ++ x ∷ (m ++ y ∷ back))
        (length front)
        (length front + suc (length m))
      ≡ reverse_loop fuel
          (front ++ y ∷ (m ++ x ∷ back))
          (length front + 1)
          (length front + length m)
unfolding reverse_loop
reverse_loop-swap fuel front m back x y =
    let e : length front + suc (length m) - 1 ≡ length front + length m = omega arith in
    rw (
      lt→ltb (length front) (length front + suc (length m)) (omega arith),
      get_end front m back x y,
      get_or-append front x (m ++ y ∷ back) 0,
      set-append front x (m ++ y ∷ back) y,
      set_end front m back y y x,
      e,
    )

-- Between what has been swapped in front and behind, the loop reverses `mid`.
reverse_loop-middle :
    (fuel : ℕ) (front mid back : List ℕ) (p1 p2 : ℕ)
    → length mid ≤ fuel
    → p1 ≡ length front
    → p2 + 1 ≡ length front + length mid
    → reverse_loop fuel (front ++ (mid ++ back)) p1 p2 ≡ front ++ reverse_aux mid back
reverse_loop-middle zero front [] back p1 p2 h e1 e2 = unfold reverse_loop in refl
reverse_loop-middle zero front (x ∷ mid) back p1 p2 h e1 e2 = absurd (omega arith)
reverse_loop-middle (suc fuel) front [] back p1 p2 h e1 e2 = unfold reverse_loop in ground arith
reverse_loop-middle (suc fuel) front (x ∷ mid) back p1 p2 h e1 e2 = elim (snoc-cases mid) [
  | inl e ↦ unfold reverse_loop in rw e (ground arith)
  | inr (m, y, e) ↦
      let longer : length mid ≡ length m + 1 = rw e (length-append m (y ∷ [])) in
      let end_at : p2 ≡ length front + suc (length m) = omega arith in
      rw
        (
          e,
          append_assoc m (y ∷ []) back,
          end_at,
          e1,
          reverse_loop-swap fuel front m back x y,
          reverse_aux-append m (y ∷ []) (x ∷ back),
        )
        (rw
          (
            append_assoc front (y ∷ []) (m ++ x ∷ back),
            append_assoc front (y ∷ []) (reverse_aux m (x ∷ back)),
          )
          at
          (reverse_loop-middle fuel (front ++ y ∷ []) m (x ∷ back) (length front + 1)
            (length front + length m) (omega arith) (sym (length-append front (y ∷ [])))
            (omega (arith, length-append front (y ∷ [])))))
]

pub reverse_loop-reverse :
    (buf : List ℕ) → reverse_loop (length buf) buf 0 (length buf - 1) ≡ reverse buf
reverse_loop-reverse [] = unfold reverse_loop in refl
reverse_loop-reverse (x ∷ buf) = rw (append-nil (x ∷ buf)) at (
    reverse_loop-middle (length (x ∷ buf)) [] (x ∷ buf) [] 0 (length (x ∷ buf) - 1) (omega arith)
      refl (omega arith))

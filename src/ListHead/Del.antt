-- ===== src/ListHead/Del.antt =====
-- `list_del` takes a node out of its ring.
use mikucos.Base.{◌≡◌, ◌≢◌, refl, sym, true, false, List, [], ◌∷◌, ◌++◌, arith, ◌==◌}
use mathlib.Core.Path.{subst₂}
use mikucos.ListHead.{Ptr, Heap, init_list_head, list_del_between, list_del, list_del_init}
use mikucos.ListHead.Ring.{
  mem, ◌∉◌, Distinct, Links, Ring, last_of, first_of, mem-append, next-first, last-mem, Links-frame,
  Ring-frame,
}

first-mem :
    (y b : Ptr) (ys : List Ptr) (x : Ptr) (zs : List Ptr)
    → y ∉ (ys ++ (x ∷ zs))
    → y ≢ b
    → y ≢ first_of zs b
first-mem y b ys x [] out ne = ne
first-mem y b ys x (z ∷ zs) out ne = ground (arith, mem-append y ys (x ∷ z ∷ zs))

-- The neighbours of a node.
prev-middle :
    (h : Heap) (a b x : Ptr) (ys zs : List Ptr)
    → Links h a (ys ++ (x ∷ zs)) b
    → (h.prev x ≡ last_of a ys) × (h.next x ≡ first_of zs b)
prev-middle h a b x [] zs l = (l.1, next-first h x b zs l.2)
prev-middle h a b x (y ∷ ys) zs l = prev-middle h y b x ys zs l.2

del-Links :
    (h : Heap) (a b x : Ptr) (ys zs : List Ptr)
    → Links h a (ys ++ (x ∷ zs)) b
    → Distinct (a ∷ (ys ++ (x ∷ zs)))
    → b ∉ (ys ++ (x ∷ zs))
    → Links (list_del_between (last_of a ys) (first_of zs b) h) a (ys ++ zs) b
unfolding list_del_between
del-Links h a b x [] [] l d nb = ground arith
del-Links h a b x [] (z ∷ zs) l d nb =
    let rest =
      Links-frame {g = list_del_between a z h} z b zs l.2.2 (λ c i. ground arith)
        (λ c i. ground (arith, mem-append c zs (b ∷ []))) in
    ground (arith, rest)
del-Links h a b x (y ∷ ys) zs l d nb =
    let rest = del-Links h y b x ys zs l.2 d.1 (ground arith) in
    let ne : y ≢ b = ground arith in
    ground (
      arith,
      rest,
      last-mem y a ys (ground (arith, mem-append a ys (x ∷ zs))),
      first-mem y b ys x zs d.1.0 ne,
    )

Distinct-middle :
    (x : Ptr) (ys zs : List Ptr)
    → Distinct (ys ++ (x ∷ zs))
    → Distinct (ys ++ zs) × (x ∉ (ys ++ zs))
Distinct-middle x [] zs d = (d.1, d.0)
Distinct-middle x (y ∷ ys) zs d =
    let rest = Distinct-middle x ys zs d.1 in
    ground (arith, rest, mem-append y ys (x ∷ zs), mem-append y ys zs)

module _ {h : Heap} {head : Ptr} (x : Ptr) (ys zs : List Ptr)
    (r : Ring h head (ys ++ (x ∷ zs))) where
  -- The ring without the node, which `list_del` leaves; `list_del_init` makes the node an empty ring
  -- besides.
  pub list_del-Ring :
      Ring (list_del x h) head (ys ++ zs)
      × Ring (list_del_init x h) head (ys ++ zs)
      × Ring (list_del_init x h) x []
  unfolding list_del list_del_init init_list_head
  list_del-Ring =
      let out = Distinct-middle x ys zs r.distinct.1 in
      let d : Distinct (head ∷ (ys ++ zs)) =
        ground (arith, out, r.distinct, mem-append head ys (x ∷ zs), mem-append head ys zs) in
      let n : x ∉ (head ∷ (ys ++ zs)) =
        ground (arith, out, r.distinct, mem-append head ys (x ∷ zs)) in
      let ring : Ring (list_del x h) head (ys ++ zs) = record { links = path; distinct = d } in
      (
        ring,
        Ring-frame head (ys ++ zs) ring
            (λ c i. let ne : (c == x) ≡ false = go c (head ∷ (ys ++ zs)) i n in (rw ne, rw ne)),
        record { links = ground arith; distinct = (refl, tt) },
      )
    where
      path : Links (list_del x h) head (ys ++ zs) head
      path =
          let at = prev-middle h head head x ys zs r.links in
          subst₂ (λ p n. Links (list_del_between p n h) head (ys ++ zs) head) (sym at.0) (sym at.1)
            (del-Links h head head x ys zs r.links r.distinct r.distinct.0)

      go : (c : Ptr) (xs : List Ptr) → mem c xs ≡ true → x ∉ xs → (c == x) ≡ false
      go c [] i n = cc
      go c (y ∷ xs) i n = ground (arith, go c xs)

  pub not_in_rest : x ∉ (head ∷ (ys ++ zs))
  not_in_rest =
      ground (arith, Distinct-middle x ys zs r.distinct.1, r.distinct, mem-append head ys (x ∷ zs))

  -- `list_del` writes only to nodes of the ring.
  pub list_del-outside :
      (c : Ptr)
      → c ∉ (head ∷ (ys ++ (x ∷ zs)))
      → ((list_del x h).next c ≡ h.next c) × ((list_del x h).prev c ≡ h.prev c)
  unfolding list_del list_del_between
  list_del-outside c out =
      let at = prev-middle h head head x ys zs r.links in
      let back : c ≢ last_of head ys =
        last-mem head c ys (ground (arith, mem-append c ys (x ∷ zs))) in
      let on : c ≢ first_of zs head = first-mem c head ys x zs (ground arith) (ground arith) in
      (ground (arith, at, back, on), ground (arith, at, back, on))

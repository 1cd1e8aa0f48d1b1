-- ===== src/ListHead/Add.antt =====
-- `list_add` puts a node at the front of a ring, `list_add_tail` at its end.
use mikucos.Base.{◌≡◌, ◌≢◌, ◌↔◌, refl, sym, true, List, [], ◌∷◌, ◌++◌, arith, ◌==◌}
use mathlib.Core.Path.{subst}
use mikucos.ListHead.{
  Ptr, Heap, init_list_head, list_add_between, list_add, list_add_tail, list_empty,
}
use mikucos.ListHead.Ring.{
  ◌∉◌, Distinct, Links, Ring, last_of, first_of, mem-append, prev-last, next-first, last-mem,
  Links-frame,
}

tail-Links :
    (h : Heap) (new a b : Ptr) (xs : List Ptr)
    → Links h a xs b
    → Distinct (a ∷ xs)
    → b ∉ xs
    → new ∉ (a ∷ xs)
    → new ≢ b
    → Links (list_add_between new (last_of a xs) b h) a (xs ++ (new ∷ [])) b
unfolding list_add_between
tail-Links h new a b [] l d nb nn ne = ground arith
tail-Links h new a b (x ∷ xs) l d nb nn ne =
    let rest = tail-Links h new x b xs l.2 d.1 (ground arith) (ground arith) ne in
    ground (arith, rest, last-mem x a xs d.0)

front-Links :
    (h : Heap) (new a b : Ptr) (xs : List Ptr)
    → Links h a xs b
    → Distinct (a ∷ xs)
    → b ∉ xs
    → new ∉ (a ∷ xs)
    → new ≢ b
    → Links (list_add_between new a (first_of xs b) h) a (new ∷ xs) b
unfolding list_add_between
front-Links h new a b [] l d nb nn ne = ground arith
front-Links h new a b (x ∷ xs) l d nb nn ne =
    let rest =
      Links-frame {g = list_add_between new a x h} x b xs l.2 (λ c i. ground arith)
        (λ c i. ground (arith, mem-append c xs (b ∷ []))) in
    ground (arith, rest)

Distinct-snoc : (new : Ptr) (xs : List Ptr) → Distinct xs → new ∉ xs → Distinct (xs ++ (new ∷ []))
Distinct-snoc new [] d n = (refl, tt)
Distinct-snoc new (x ∷ xs) d n =
    (ground (arith, mem-append x xs (new ∷ [])), Distinct-snoc new xs d.1 (ground arith))

-- `INIT_LIST_HEAD` makes an empty ring.
pub init_list_head-Ring : (head : Ptr) (h : Heap) → Ring (init_list_head head h) head []
unfolding init_list_head
init_list_head-Ring head h = record { links = ground arith; distinct = (refl, tt) }

module _ {h : Heap} {head : Ptr} {xs : List Ptr} (r : Ring h head xs) where
  -- A node that is not in the ring is put in front of the list by `list_add`, and behind it by
  -- `list_add_tail`.
  pub list_add-Ring :
      (new : Ptr)
      → new ∉ (head ∷ xs)
      → Ring (list_add new head h) head (new ∷ xs)
        × Ring (list_add_tail new head h) head (xs ++ (new ∷ []))
  unfolding list_add list_add_tail
  list_add-Ring new out = (
    record {
      links =
          subst (λ n. Links (list_add_between new head n h) head (new ∷ xs) head)
            (sym (next-first h head head xs r.links))
            (front-Links h new head head xs r.links r.distinct r.distinct.0 out (ground arith));
      distinct = ground (arith, r.distinct);
    },
    record {
      links =
          subst (λ p. Links (list_add_between new p head h) head (xs ++ (new ∷ [])) head)
            (sym (prev-last h head head xs r.links))
            (tail-Links h new head head xs r.links r.distinct r.distinct.0 out (ground arith));
      distinct = (
        ground (arith, r.distinct, mem-append head xs (new ∷ [])),
        Distinct-snoc new xs r.distinct.1 (ground arith),
      );
    },
  )

  -- `list_add_tail` writes only to the new node and to the nodes of the ring.
  pub list_add_tail-outside :
      (new c : Ptr)
      → c ∉ (new ∷ head ∷ xs)
      → ((list_add_tail new head h).next c ≡ h.next c)
        × ((list_add_tail new head h).prev c ≡ h.prev c)
  unfolding list_add_tail list_add_between
  list_add_tail-outside new c out =
      let e = prev-last h head head xs r.links in
      let ne = last-mem head c xs (ground arith) in (ground (arith, e, ne), ground (arith, e, ne))

  -- `list_empty` holds exactly of the ring with no node.
  pub list_empty-Ring : (list_empty head h ≡ true) ↔ (xs ≡ [])
  unfolding list_empty
  list_empty-Ring = go xs r.links r.distinct
    where
      go :
          (xs : List Ptr)
          → Links h head xs head
          → Distinct (head ∷ xs)
          → ((h.next head == head) ≡ true) ↔ (xs ≡ [])
      go [] l d = (λ e. refl, λ e. ground arith)
      go (x ∷ xs) l d = (λ e. absurd (ground arith), λ e. cc)

-- ===== src/Memory/Vas/Links.antt =====
-- The writes to the links around an inserted or removed region in beelzebub/src/memory/vas.cpp.
use beelzebub.Common.{
  ℕ, ◌≡◌, refl, sym, subst, ap, ◌∙◌, List, [], ◌∷◌, ◌++◌, append_assoc, ==_differ,
}
use beelzebub.Avl.Node.{Cell}
use beelzebub.Avl.Edit.{Allocator}
use beelzebub.Memory.Regions.{MemoryRegion}
use beelzebub.Memory.Places.{put, member-All}
use beelzebub.Memory.Vas.{Vas}
use beelzebub.Memory.Vas.Writes.{link_from, link_back, set_next, set_prev}
use beelzebub.Memory.Vas.Chain.{AddressMap, Chain, chain-Last, first_of, relink_prev, relink_next}
use beelzebub.Memory.Vas.Holding.{Laws, Holding, write_held}

module _ {κ} {S : Type κ} {alloc : Allocator S} (laws : Laws alloc) where
  abbrev pub LinkedBack : Vas S → ℕ → ℕ → (zs ys : List (Cell MemoryRegion)) → Type 0
  LinkedBack v n reg zs ys =
      Holding laws (link_back n reg v) (zs ++ relink_prev reg ys)
      × ((link_back n reg v).first ≡ v.first)

  pub linked_back :
      (v : Vas S) (reg : ℕ) (zs ys : List (Cell MemoryRegion))
      → Holding laws v (zs ++ ys)
      → LinkedBack v (first_of ys 0) reg zs ys
  linked_back v reg zs [] h = (h, refl)
  linked_back v reg zs (y ∷ ys) h =
      rw (==_differ y.address 0 (member-All _ zs y ys h.alive).0)
        (write_held laws v zs y ys (set_prev reg) h, refl)

  relink_next-last :
      (n : ℕ) (front : List (Cell MemoryRegion)) (c : Cell MemoryRegion)
      → relink_next n (front ++ c ∷ []) ≡ front ++ put (set_next n) c ∷ []
  relink_next-last n [] c = refl
  relink_next-last n (x ∷ []) c = refl
  relink_next-last n (x ∷ y ∷ ys) c = ap (◌∷◌ x) (relink_next-last n (y ∷ ys) c)

  first_of-last :
      (front : List (Cell MemoryRegion)) (c d : Cell MemoryRegion) (n n' : ℕ)
      → c.address ≡ d.address
      → first_of (front ++ c ∷ []) n ≡ first_of (front ++ d ∷ []) n'
  first_of-last [] c d n n' e = e
  first_of-last (x ∷ xs) c d n n' e = refl

  abbrev pub LinkedFrom : Vas S → ℕ → ℕ → (xs zs : List (Cell MemoryRegion)) → Type 0
  LinkedFrom v m reg xs zs =
      Holding laws (link_from m reg v) (relink_next reg xs ++ zs)
      × ((link_from m reg v).first ≡ first_of (relink_next reg xs) reg)

  linked_last :
      (v : Vas S) (reg k : ℕ) (front : List (Cell MemoryRegion)) (c : Cell MemoryRegion)
      (zs : List (Cell MemoryRegion))
      → v.first ≡ first_of (front ++ c ∷ []) k
      → Holding laws v ((front ++ c ∷ []) ++ zs)
      → LinkedFrom v c.address reg (front ++ c ∷ []) zs
  linked_last v reg k front c zs f h =
      let h' = subst (Holding laws v) (append_assoc front (c ∷ []) zs) h in
      rw (==_differ c.address 0 (member-All _ front c zs h'.alive).0, relink_next-last reg front c)
        (
          subst (Holding laws _) (sym (append_assoc front (put (set_next reg) c ∷ []) zs))
              (write_held laws v front c zs (set_next reg) h'),
          f ∙ first_of-last front c (put (set_next reg) c) k reg refl,
        )

  pub linked_from :
      (g : AddressMap) (lo m mid n : ℕ) (v : Vas S) (reg k : ℕ) (xs zs : List (Cell MemoryRegion))
      → Chain g 0 lo xs m mid n
      → v.first ≡ first_of xs k
      → Holding laws v (xs ++ zs)
      → LinkedFrom v m reg xs zs
  linked_from g lo m mid n v reg k [] zs ch f h = rw (sym ch.0) (
    record { held = h.held; distinct = h.distinct; alive = h.alive; balanced = h.balanced },
    refl,
  )
  linked_from g lo m mid n v reg k (x ∷ xs) zs ch f h =
      let l = chain-Last g 0 lo x xs m mid n ch in
      let k' =
        linked_last v reg k l.front l.cell zs (f ∙ ap (λ cs. first_of cs k) l.whole)
          (subst (λ cs. Holding laws v (cs ++ zs)) l.whole h) in
      subst (λ cs. LinkedFrom v m reg cs zs) (sym l.whole)
        (subst (λ a. LinkedFrom v a reg (l.front ++ l.cell ∷ []) zs) l.address k')

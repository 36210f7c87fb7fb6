-- ===== src/McKusick/Linked/Chain.antt =====
-- Lists that are kept by pointers, and writes to their pointers.
use mai_os_labs.Prelude.{
  ℕ, zero, suc, ◌+◌, ◌<◌, ◌≤◌, ◌≡◌, ◌≢◌, refl, sym, subst, ◌∙◌, true, List, [], ◌∷◌, arith, ◌==◌,
  inl, inr, Bool-cases,
}
use mai_os_labs.McKusick.{blocks_from}
use mai_os_labs.McKusick.Ownership.{Every, IsNew, Every-weaken}
use mai_os_labs.McKusick.Ownership.Refill.{blocks_above}
use mai_os_labs.McKusick.Linked.{write, link_blocks}

-- From the pointer `p` on, `next` leads through the list to `nullptr`.
abbrev pub Chain : (ℕ → ℕ) → ℕ → List ℕ → Type 0
Chain next p [] = p ≡ 0
Chain next p (x ∷ l) = (p ≡ x) × (x ≢ 0) × Chain next (next x) l

pub write_self : (cells : ℕ → ℕ) (a v : ℕ) → write cells a v a ≡ v
write_self cells a v = let here : (a == a) ≡ true = ground arith in rw here

pub write_other : (cells : ℕ → ℕ) (a v x : ℕ) → x ≢ a → write cells a v x ≡ cells x
write_other cells a v x ne = elim (Bool-cases (x == a)) [
  | inl e ↦ absurd (ne (ground arith))
  | inr e ↦ rw e
]

module _ (next next' : ℕ → ℕ) where
  pub Chain-kept :
      (p : ℕ) (l : List ℕ) → Every (λ x. next' x ≡ next x) l → Chain next p l → Chain next' p l
  Chain-kept p [] same c = c
  Chain-kept p (x ∷ l) (e, same) (here, ne, c) =
      (here, ne, subst (λ q. Chain next' q l) (sym e) (Chain-kept (next x) l same c))

pub Chain-write :
    (next : ℕ → ℕ) (a v p : ℕ) (l : List ℕ)
    → IsNew a l
    → Chain next p l
    → Chain (write next a v) p l
Chain-write next a v p l new c =
    Chain-kept next (write next a v) p l (Every-weaken _ _ l (write_other next a v) new) c

-- An entry in front.
pub Chain-push :
    (next : ℕ → ℕ) (a p : ℕ) (l : List ℕ)
    → a ≢ 0
    → IsNew a l
    → Chain next p l
    → Chain (write next a p) a (a ∷ l)
Chain-push next a p l ne new c = (
  refl,
  ne,
  subst (λ q. Chain (write next a p) q l) (sym (write_self next a p))
      (Chain-write next a p p l new c),
)

-- What the blocks of a page point to, when the last one points to `h`.
abbrev pub linked_cells : ℕ → ℕ → ℕ → ℕ → (ℕ → ℕ) → ℕ → ℕ
linked_cells n a size h next = let r = link_blocks n a size next in write r.1 r.0 h

pub linked_outside :
    (n a size h : ℕ) (next : ℕ → ℕ) (x : ℕ)
    → IsNew x (blocks_from (suc n) a size)
    → linked_cells n a size h next x ≡ next x
unfolding link_blocks blocks_from
linked_outside zero a size h next x (ne, tt) = write_other next a h x λ e. ne (sym e)
linked_outside (suc n) a size h next x (ne, new) =
    linked_outside n (a + size) size h (write next a (a + size)) x new
    ∙ write_other next a (a + size) x λ e. ne (sym e)

pub linked-Chain :
    (n a size : ℕ) (next : ℕ → ℕ)
    → 0 < a
    → 0 < size
    → Chain (linked_cells n a size 0 next) a (blocks_from (suc n) a size)
unfolding link_blocks blocks_from
linked-Chain zero a size next pos pos' = (refl, (λ e. absurd (omega arith)), write_self next a 0)
linked-Chain (suc n) a size next pos pos' =
    let cells = linked_cells n (a + size) size 0 (write next a (a + size)) in
    let at_first : cells a ≡ a + size =
      linked_outside n (a + size) size 0 (write next a (a + size)) a (
        Every-weaken (λ y. a + size ≤ y) (λ y. y ≢ a) (blocks_from (suc n) (a + size) size)
          (λ y k e. absurd (omega arith)) (blocks_above (suc n) (a + size) size))
      ∙ write_self next a (a + size) in
    (
      refl,
      (λ e. absurd (omega arith)),
      subst (λ q. Chain cells q (blocks_from (suc n) (a + size) size)) (sym at_first)
          (linked-Chain n (a + size) size (write next a (a + size)) (omega arith) pos'),
    )

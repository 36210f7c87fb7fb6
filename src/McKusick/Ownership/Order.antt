-- ===== src/McKusick/Ownership/Order.antt =====
-- What a client holds has no order.
use mathlib.Core.List.{Permᴰ}
use mathlib.Core.List.Permᴰ
use mai_os_labs.Prelude.{ℕ, sym, ◌∙◌, subst, List}
use mai_os_labs.McKusick.{McKusickAllocator}
use mai_os_labs.McKusick.Ownership.{
  Owners, Allocation, Every, Every-weaken, IsNew, AreDistinct, bucket, IsSound,
}

Every-perm {ℓ} : {A : Type ℓ} (P : A → Type 0) {l k : List A} → Permᴰ l k → Every P l → Every P k
Every-perm P Permᴰ.nil e = e
Every-perm P (Permᴰ.cons e d) (p, q) = (subst P e p, Every-perm P d q)
Every-perm P (Permᴰ.swap e e') (p, (q, r)) = (subst P e' q, (subst P e p, r))
Every-perm P (Permᴰ.trans c d) e = Every-perm P d (Every-perm P c e)

AreDistinct-perm : {l k : List ℕ} → Permᴰ l k → AreDistinct l → AreDistinct k
AreDistinct-perm Permᴰ.nil d = d
AreDistinct-perm (Permᴰ.cons {a} {b} {l₂ = k} e d) (new, apart) =
    (subst (λ x. IsNew x k) e (Every-perm _ d new), AreDistinct-perm d apart)
AreDistinct-perm (Permᴰ.swap {a} {b} {a'} {b'} {l} e e') ((ne, new), (new', d)) = (
  ((λ f. ne (e' ∙ sym f ∙ sym e)), subst (λ x. IsNew x l) e' new'),
  (subst (λ x. IsNew x l) e new, d),
)
AreDistinct-perm (Permᴰ.trans c d) e = AreDistinct-perm d (AreDistinct-perm c e)

pub IsSound-perm :
    (n : ℕ) (owner : Owners) (s : McKusickAllocator) {held held' : List Allocation}
    → Permᴰ held held'
    → IsSound n owner s held
    → IsSound n owner s held'
IsSound-perm n owner s d o =
    let p = Permᴰ.map (λ (h : Allocation). h.ptr) d in
    record {
      laid = o.laid;
      unowned = o.unowned;
      sizes = o.sizes;
      granted = Every-perm _ d o.granted;
      held_apart = AreDistinct-perm p o.held_apart;
      buckets = o.buckets;
      blocks = o.blocks;
      blocks_apart = o.blocks_apart;
      blocks_unused =
          λ b lt. Every-weaken _ _ (bucket b s) (λ x u. Every-perm _ p u) (o.blocks_unused b lt);
    }

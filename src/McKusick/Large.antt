-- ===== src/McKusick/Large.antt =====
-- The loops over the pages of a range in `alloc` and `free` of Labs/CP/src/Mckusey-Carels.cpp.
use mai_os_labs.Prelude.{
  ℕ, zero, suc, ◌+◌, ◌≤◌, ◌≡◌, inl, inr, ◌∙◌, refl, sym, ap, subst, Bool, true, false, ◌&&◌, List,
  [], ◌∷◌, ◌++◌, arith, ltb, leb, ◌==◌, append_assoc, if◌then◌else◌, Bool-cases,
}
use mai_os_labs.McKusick.{
  McKusickAllocator, PageInfo, PageInfos, indices, insert_sorted, update, set_start, mark_range,
  free_pages,
}
use mai_os_labs.McKusick.Layout.{
  IsRising, AreInOrder, AreBelow, AreBelow-snoc, insert_sorted_between, IsRising-lower,
}

-- A page info as `free` leaves it.
abbrev pub blank : PageInfo → PageInfo
blank i = record i { size = 0; is_start_of_buffer = false }

abbrev pub is_within : ℕ → ℕ → ℕ → Bool
is_within page m i = leb page i && ltb i (page + m)

set_start-blank :
    (first : Bool) (p : ℕ) (infos : PageInfos) (i : ℕ)
    → blank (set_start p first infos i) ≡ blank (infos i)
set_start-blank first p infos i = elim (Bool-cases (i == p)) [
  | inl e ↦ let same : i ≡ p = ground arith in rw (e, same)
  | inr e ↦ rw e
]

pub mark_range-blank :
    (m : ℕ) (first : Bool) (p : ℕ) (infos : PageInfos) (i : ℕ)
    → blank (mark_range m first p infos i) ≡ blank (infos i)
unfolding mark_range
mark_range-blank zero first p infos i = set_start-blank false p infos i
mark_range-blank (suc m) first p infos i =
    mark_range-blank m false (p + 1) (set_start p first infos) i ∙ set_start-blank first p infos i

pub mark_range_outside :
    (m : ℕ) (first : Bool) (p : ℕ) (infos : PageInfos) (i : ℕ)
    → is_within p (suc m) i ≡ false
    → mark_range m first p infos i ≡ infos i
unfolding mark_range
mark_range_outside zero first p infos i h = let out : (i == p) ≡ false = ground arith in rw out
mark_range_outside (suc m) first p infos i h =
    let out : (i == p) ≡ false = ground arith in
    mark_range_outside m false (p + 1) (set_start p first infos) i (ground arith) ∙ rw out

abbrev pub blank_at : ℕ → PageInfos → PageInfos
blank_at page infos = update infos page (blank (infos page))

blank_step :
    (page m i : ℕ) (infos : PageInfos)
    → (if is_within (page + 1) m i then blank (blank_at page infos i) else blank_at page infos i)
      ≡ (if is_within page (suc m) i then blank (infos i) else infos i)
blank_step page m i infos = elim (Bool-cases (i == page)) [
  | inl e ↦
      let same : page ≡ i = ground arith in
      let behind : is_within (page + 1) m i ≡ false = ground arith in
      let here : is_within page (suc m) i ≡ true = ground arith in
      rw (e, behind, here) (ap (λ k. blank (infos k)) same)
  | inr e ↦ elim (Bool-cases (is_within page (suc m) i)) [
    | inl e' ↦ let behind : is_within (page + 1) m i ≡ true = ground arith in rw (e, behind, e')
    | inr e' ↦ let behind : is_within (page + 1) m i ≡ false = ground arith in rw (e, behind, e')
  ]
]

pub blank_at-page_addr :
    (page i : ℕ) (infos : PageInfos) → (blank_at page infos i).page_addr ≡ (infos i).page_addr
blank_at-page_addr page i infos = elim (Bool-cases (i == page)) [
  | inl e ↦ let same : i ≡ page = ground arith in rw (e, same)
  | inr e ↦ rw e
]

-- What the loop of `free` does to the page infos.
pub free_pages_infos :
    (m page : ℕ) (s : McKusickAllocator) (i : ℕ)
    → (free_pages m page s).page_infos i
      ≡ (if is_within page m i then blank (s.page_infos i) else s.page_infos i)
unfolding free_pages
free_pages_infos zero page s i = let out : is_within page 0 i ≡ false = ground arith in rw out
free_pages_infos (suc m) page s i =
    free_pages_infos m (page + 1) _ i ∙ blank_step page m i s.page_infos

pub free_pages_rest :
    (m page : ℕ) (s : McKusickAllocator)
    → free_pages m page s ≡ record s {
      page_infos = (free_pages m page s).page_infos;
      free_page_info = (free_pages m page s).free_page_info;
    }
unfolding free_pages
free_pages_rest zero page s = refl
free_pages_rest (suc m) page s = free_pages_rest m (page + 1) _

-- The pages go back between those in front of them and those behind them.
pub free_pages_list :
    (base n m page : ℕ) (s : McKusickAllocator) (before after : List ℕ)
    → AreInOrder base n s.page_infos
    → page + m ≤ n
    → AreBelow page before
    → IsRising (page + m) n after
    → s.free_page_info ≡ before ++ after
    → (free_pages m page s).free_page_info ≡ before ++ (indices page m ++ after)
unfolding free_pages
free_pages_list base n zero page s before after order h below r e = e
free_pages_list base n (suc m) page s before after order h below r e =
    let order' : AreInOrder base n (blank_at page s.page_infos) =
      λ i lt. blank_at-page_addr page i s.page_infos ∙ order i lt in
    let back =
      ap (insert_sorted (blank_at page s.page_infos) page) e
      ∙ insert_sorted_between base n (blank_at page s.page_infos) order' page before after
          (omega arith) below (IsRising-lower _ _ n after (omega arith) r)
      ∙ sym (append_assoc before (page ∷ []) after) in
    free_pages_list base n m (page + 1) _ (before ++ page ∷ []) after order' (omega arith)
      (AreBelow-snoc page before below) (subst (λ k. IsRising k n after) (omega arith) r) back
    ∙ append_assoc before (page ∷ []) (indices (page + 1) m ++ after)
    ∙ ap (λ k. before ++ page ∷ (indices k m ++ after)) (omega arith)

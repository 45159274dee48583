-- ===== src/FreeList/Lifo.antt =====
-- kernel/src/mm.rs: `pop` gives the pages back in the reverse of the order they were pushed in.
use chocolate_milk.Base.{
  ℕ, zero, suc, ◌+◌, ◌-◌, ◌*◌, ◌%◌, ◌^◌, ◌≤◌, ◌<◌, ◌≡◌, ◌≢◌, refl, sym, ap, subst, ◌∙◌, arith,
  Bool-cases, true, false, ltb, ◌==◌, Option, some, inl, inr, List, [], ◌∷◌, ◌++◌,
}
use chocolate_milk.Base.Outcome.{ok}
use chocolate_milk.RangeSet.{Range, RangeSet}
use chocolate_milk.RangeSet.Alloc.{allocate_prefer}
use chocolate_milk.FreeList.{
  FreeListNode, PageFreeList, max_slots, kernel_phys_window_size, put_node, push_batch, take_page,
  pop, alloc_phys, free_phys, free_list_batch,
}
use chocolate_milk.FreeList.Stack.{
  Apart, IsPage, slots, contents, IsStack, from_raw-ok, Chain-first, contents-first, slots-take,
  run,
}
use chocolate_milk.FreeList.Pages.{HasFirst, first_node, pushed}

cons_inj : {a b : ℕ} {x y : List ℕ} → ◌≡◌ {A = List ℕ} (a ∷ x) (b ∷ y) → (a ≡ b) × (x ≡ y)
cons_inj e = (cc, cc)

snoc_not_nil : (xs : List ℕ) (a : ℕ) (ys : List ℕ) → xs ++ a ∷ ys ≢ []
snoc_not_nil [] a ys e = cc
snoc_not_nil (x ∷ xs) a ys e = cc

take_first :
    (l : PageFreeList) (p : ℕ) (pages : List ℕ)
    → HasFirst l (p ∷ pages)
    → (l' : PageFreeList) × (take_page l ≡ ok (p, l')) × IsStack l' pages
unfolding take_page
take_first l p pages f =
    let node = l.nodes l.head in
    let (_, good, few, later) = f.chain in
    let raw = from_raw-ok l.nodes l.head good in
    elim (Bool-cases (ltb node.free_slots max_slots)) [
      | inl some_left ↦
          let node' : FreeListNode = record node { free_slots = node.free_slots + 1 } in
          let here = slots-take node (ground arith) in
          let eq =
            cons_inj (sym (ap (λ more. more ++ l.head ∷ contents l.nodes f.rest) here) ∙ f.holds) in
          (
            record l { nodes = put_node l.nodes l.head node' },
            rw (raw, some_left, eq.0) refl,
            record {
              addresses = l.head ∷ f.rest;
              chain = Chain-first l.nodes l.head node' f.rest f.apart.0 f.chain refl (ground arith);
              apart = f.apart;
              holds = contents-first l.nodes l.head node' f.rest f.apart.0 ∙ eq.1;
            },
          )
      | inr none_left ↦
          let full : max_slots - node.free_slots ≡ 0 = ground arith in
          let eq = cons_inj (
            subst
              (λ n.
                run node.free_pages node.free_slots n ++ l.head ∷ contents l.nodes f.rest
                ≡ p ∷ pages)
              full f.holds) in
          (
            record l { head = node.next },
            rw (raw, none_left, eq.0) refl,
            record { addresses = f.rest; chain = later; apart = f.apart.1; holds = eq.1 },
          )
    ]

take_page-IsStack :
    (l : PageFreeList) (p : ℕ) (pages : List ℕ)
    → IsStack l (p ∷ pages)
    → (l' : PageFreeList) × (take_page l ≡ ok (p, l')) × IsStack l' pages × (l.head ≢ 0)
take_page-IsStack l p pages st = elim (first_node l (p ∷ pages) st) [
  | inl (_, e) ↦ absurd cc
  | inr f ↦ let (l', e, st') = take_first l p pages f in (l', e, st', λ z. f.chain.1.0 z)
]

empty-head : (l : PageFreeList) → IsStack l [] → l.head ≡ 0
empty-head l st = elim (first_node l [] st) [
  | inl (z, _) ↦ z
  | inr f ↦ absurd (snoc_not_nil (slots (l.nodes l.head)) l.head (contents l.nodes f.rest) f.holds)
]

-- The pages of a batch, the last one first.
abbrev pub batch : ℕ → ℕ → List ℕ → List ℕ
batch zero paddr pages = pages
batch (suc n) paddr pages = batch n (paddr + 4096) (paddr ∷ pages)

batch-cons :
    (n paddr : ℕ) (pages : List ℕ)
    → batch (suc n) paddr pages ≡ (paddr + n * 4096) ∷ batch n paddr pages
batch-cons zero paddr pages = let at : paddr + 0 * 4096 ≡ paddr = omega arith in rw at refl
batch-cons (suc n) paddr pages =
    let at : paddr + 4096 + n * 4096 ≡ paddr + suc n * 4096 = omega arith in
    batch-cons n (paddr + 4096) (paddr ∷ pages) ∙ (rw at refl)

abbrev AllBelow : ℕ → List ℕ → Type 0
AllBelow a [] = Unit
AllBelow a (b ∷ bs) = (b < a) × AllBelow a bs

AllBelow-Apart : (a : ℕ) (bs : List ℕ) → AllBelow a bs → Apart a bs
AllBelow-Apart a [] h = tt
AllBelow-Apart a (b ∷ bs) h = (omega arith, AllBelow-Apart a bs h.1)

AllBelow-le : (a b : ℕ) (bs : List ℕ) → a ≤ b → AllBelow a bs → AllBelow b bs
AllBelow-le a b [] le h = tt
AllBelow-le a b (c ∷ bs) le h = (omega arith, AllBelow-le a b bs le h.1)

push_batch-IsStack :
    (n : ℕ) (l : PageFreeList) (paddr : ℕ) (pages : List ℕ)
    → IsStack l pages
    → paddr ≢ 0
    → paddr + n * 4096 ≤ kernel_phys_window_size
    → AllBelow paddr pages
    → (l' : PageFreeList) × (push_batch n l paddr ≡ ok l') × IsStack l' (batch n paddr pages)
unfolding push_batch
push_batch-IsStack zero l paddr pages st nz fits below = (l, refl, st)
push_batch-IsStack (suc n) l paddr pages st nz fits below =
    let (l1, e, st1) =
      pushed l pages paddr st (nz, omega arith) (AllBelow-Apart paddr pages below) in
    let (l2, e2, st2) =
      push_batch-IsStack n l1 (paddr + 4096) (paddr ∷ pages) st1 (omega arith) (omega arith)
        (omega arith, AllBelow-le paddr (paddr + 4096) pages (omega arith) below) in
    (l2, rw e e2, st2)

-- A list of the pages `p ∷ pages` gives `p`, and takes no memory.
pop-IsStack :
    (memory : RangeSet) (region : Option Range) (l : PageFreeList) (p : ℕ) (pages : List ℕ)
    → IsStack l (p ∷ pages)
    → (l' : PageFreeList) × (pop memory region l ≡ ok (p, l', memory)) × IsStack l' pages
unfolding pop
pop-IsStack memory region l p pages st =
    let (l', e, st', other) = take_page-IsStack l p pages st in
    let head : (l.head == 0) ≡ false = ground arith in (l', rw (head, e) refl, st')

-- On an empty list for which `allocate_prefer` gives a batch at `alc`, other than 0 and within the
-- window, `pop` gives the last page of the batch, and leaves a list of the other 255, the later ones
-- first, and the memory that the allocation left.
pub pop-batch :
    (memory : RangeSet) (region : Option Range) (l : PageFreeList) (alc : ℕ) (memory' : RangeSet)
    → IsStack l []
    → allocate_prefer (2 ^ 64 - 1) memory free_list_batch 4096 region ≡ ok (some alc, memory')
    → alc ≢ 0
    → alc + free_list_batch ≤ kernel_phys_window_size
    → (l' : PageFreeList) × (pop memory region l ≡ ok (alc + 255 * 4096, l', memory'))
      × IsStack l' (batch 255 alc [])
unfolding pop
pop-batch memory region l alc memory' st given nz fits =
    let none' = empty-head l st in
    let head : (l.head == 0) ≡ true = ground arith in
    let (l1, e, st1) = push_batch-IsStack 256 l alc [] st nz fits tt in
    let (l2, e2, st2, _) =
      take_page-IsStack l1 (alc + 255 * 4096) (batch 255 alc [])
        (subst (IsStack l1) (batch-cons 255 alc []) st1) in
    (l2, rw (head, given, e, e2) refl, st2)

-- A page on a 4 KiB boundary within the window, other than page 0 and not on the list: `free_phys`
-- puts it in front of the `pages` of the list, and the next `alloc_phys` of a page gives it back and
-- leaves a list of `pages`. Neither takes memory from the range set or puts some there.
pub alloc_phys-free_phys :
    (memory : RangeSet) (region : Option Range) (l : PageFreeList) (pages : List ℕ) (page : ℕ)
    → IsStack l pages
    → IsPage page
    → page % 2 ^ 12 ≡ 0
    → Apart page pages
    → (l' : PageFreeList) × (free_phys memory l page 4096 ≡ ok (l', memory))
      × IsStack l' (page ∷ pages)
      × ((l'' : PageFreeList) × (alloc_phys memory region l' 4096 4096 ≡ ok (page, l'', memory))
          × IsStack l'' pages)
unfolding free_phys alloc_phys
alloc_phys-free_phys memory region l pages page st good even new =
    let (l', e, st') = pushed l pages page st good new in
    let aligned : (page % 2 ^ 12 == 0) ≡ true = ground arith in
    (l', rw (aligned, e) refl, st', pop-IsStack memory region l' page pages st')

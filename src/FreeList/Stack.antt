-- ===== src/FreeList/Stack.antt =====
-- kernel/src/mm.rs: the nodes of the free list as a stack of pages.
use chocolate_milk.Base.{
  ℕ, zero, suc, ◌+◌, ◌-◌, ◌≤◌, ◌<◌, ◌≡◌, ◌≢◌, refl, sym, ap, ap₂, subst, ◌∙◌, arith, Bool-cases,
  true, false, ltb, leb, ◌==◌, ==→≡, ==_refl, inl, inr, List, [], ◌∷◌, ◌++◌,
}
use chocolate_milk.Base.Outcome.{ok}
use chocolate_milk.RangeSet.{u64_max}
use chocolate_milk.FreeList.{
  FreeListNode, PageFreeList, max_slots, kernel_phys_window_size, put_node, put_page, from_raw,
  push_node,
}

abbrev pub Apart : ℕ → List ℕ → Type 0
Apart a [] = Unit
Apart a (b ∷ bs) = (a ≢ b) × Apart a bs

abbrev pub AllApart : List ℕ → Type 0
AllApart [] = Unit
AllApart (a ∷ rest) = Apart a rest × AllApart rest

-- A page that can hold a node.
abbrev pub IsPage : ℕ → Type 0
IsPage a = (a ≢ 0) × (a + 4096 ≤ kernel_phys_window_size)

abbrev pub run : (ℕ → ℕ) → ℕ → ℕ → List ℕ
run pages i zero = []
run pages i (suc n) = pages i ∷ run pages (i + 1) n

-- The pages of a node from its first one in use on.
abbrev pub slots : FreeListNode → List ℕ
slots node = run node.free_pages node.free_slots (max_slots - node.free_slots)

abbrev pub Chain : (ℕ → FreeListNode) → ℕ → List ℕ → Type 0
Chain nodes head [] = head ≡ 0
Chain nodes head (a ∷ rest) =
    (head ≡ a) × IsPage a × ((nodes a).free_slots ≤ max_slots) × Chain nodes (nodes a).next rest

-- The free pages, in the order in which `pop` gives them.
abbrev pub contents : (ℕ → FreeListNode) → List ℕ → List ℕ
contents nodes [] = []
contents nodes (a ∷ rest) = slots (nodes a) ++ a ∷ contents nodes rest

-- The list holds these pages.
pub record IsStack (l : PageFreeList) (pages : List ℕ) : Type 0 where
  pub addresses : List ℕ
  pub chain : Chain l.nodes l.head addresses
  pub apart : AllApart addresses
  pub holds : contents l.nodes addresses ≡ pages

put_node-other :
    (nodes : ℕ → FreeListNode) (a : ℕ) (n : FreeListNode) (b : ℕ)
    → a ≢ b
    → put_node nodes a n b ≡ nodes b
put_node-other nodes a n b other = elim (Bool-cases (a == b)) [
  | inl same ↦ absurd (other (==→≡ a b same))
  | inr e ↦ rw e refl
]

put_node-same : (nodes : ℕ → FreeListNode) (a : ℕ) (n : FreeListNode) → put_node nodes a n a ≡ n
put_node-same nodes a n = rw (==_refl a) refl

Chain-put_node :
    (nodes : ℕ → FreeListNode) (a : ℕ) (n : FreeListNode) (head : ℕ) (rest : List ℕ)
    → Apart a rest
    → Chain nodes head rest
    → Chain (put_node nodes a n) head rest
Chain-put_node nodes a n head [] apart c = c
Chain-put_node nodes a n head (b ∷ bs) apart c =
    let e = put_node-other nodes a n b apart.0 in
    let (at, page, few, rest) = c in
    (
      at,
      page,
      subst (λ (m : FreeListNode). m.free_slots ≤ max_slots) (sym e) few,
      subst (λ (m : FreeListNode). Chain (put_node nodes a n) m.next bs) (sym e)
          (Chain-put_node nodes a n (nodes b).next bs apart.1 rest),
    )

contents-put_node :
    (nodes : ℕ → FreeListNode) (a : ℕ) (n : FreeListNode) (rest : List ℕ)
    → Apart a rest
    → contents (put_node nodes a n) rest ≡ contents nodes rest
contents-put_node nodes a n [] apart = refl
contents-put_node nodes a n (b ∷ bs) apart =
    ap₂ (λ (m : FreeListNode) rest. slots m ++ b ∷ rest) (put_node-other nodes a n b apart.0)
      (contents-put_node nodes a n bs apart.1)

-- A page that is not on the list is no node of it.
Apart-append : (p : ℕ) (xs ys : List ℕ) → Apart p (xs ++ ys) → Apart p ys
Apart-append p [] ys h = h
Apart-append p (x ∷ xs) ys h = Apart-append p xs ys h.1

pub Apart-contents :
    (nodes : ℕ → FreeListNode) (p : ℕ) (rest : List ℕ)
    → Apart p (contents nodes rest)
    → Apart p rest
Apart-contents nodes p [] h = tt
Apart-contents nodes p (a ∷ rest) h =
    let later = Apart-append p (slots (nodes a)) (a ∷ contents nodes rest) h in
    (later.0, Apart-contents nodes p rest later.1)

run-put_page :
    (pages : ℕ → ℕ) (i page j n : ℕ) → i < j → run (put_page pages i page) j n ≡ run pages j n
run-put_page pages i page j zero late = refl
run-put_page pages i page j (suc n) late =
    let other : (i == j) ≡ false = ground arith in
    rw other (ap (◌∷◌ (pages j)) (run-put_page pages i page (j + 1) n (omega arith)))

pub from_raw-ok : (nodes : ℕ → FreeListNode) (a : ℕ) → IsPage a → from_raw nodes a ≡ ok (nodes a)
unfolding from_raw
from_raw-ok nodes a page =
    let fits : leb (a + 4095) u64_max ≡ true = ground arith in
    let inside : ltb (a + 4095) kernel_phys_window_size ≡ true = ground arith in
    rw (fits, inside) refl

pub node_in_front :
    (l : PageFreeList) (pages : List ℕ) (page : ℕ)
    → IsStack l pages
    → IsPage page
    → Apart page pages
    → (l' : PageFreeList) × (push_node l page ≡ ok l') × IsStack l' (page ∷ pages)
unfolding push_node
node_in_front l pages page st good new =
    let addresses = st.addresses in
    let node : FreeListNode = record (l.nodes page) { next = l.head; free_slots = max_slots } in
    let other = Apart-contents l.nodes page addresses (subst (Apart page) (sym st.holds) new) in
    let here = put_node-same l.nodes page node in
    (
      record { head = page; nodes = put_node l.nodes page node },
      rw (from_raw-ok l.nodes page good) refl,
      record {
        addresses = page ∷ addresses;
        chain = (
          refl,
          good,
          subst (λ (m : FreeListNode). m.free_slots ≤ max_slots) (sym here) (omega arith),
          subst (λ (m : FreeListNode). Chain (put_node l.nodes page node) m.next addresses)
              (sym here) (Chain-put_node l.nodes page node l.head addresses other st.chain),
        );
        apart = (other, st.apart);
        holds =
            ap₂ (λ (m : FreeListNode) rest. slots m ++ page ∷ rest) here
              (contents-put_node l.nodes page node addresses other)
            ∙ ap (λ rest. page ∷ rest) st.holds;
      },
    )

-- A new first node of the same address.
pub Chain-first :
    (nodes : ℕ → FreeListNode) (a : ℕ) (n : FreeListNode) (rest : List ℕ)
    → Apart a rest
    → Chain nodes a (a ∷ rest)
    → n.next ≡ (nodes a).next
    → n.free_slots ≤ max_slots
    → Chain (put_node nodes a n) a (a ∷ rest)
Chain-first nodes a n rest other (at, page, few, c) same fits =
    let here = sym (put_node-same nodes a n) in
    (
      refl,
      page,
      subst (λ (m : FreeListNode). m.free_slots ≤ max_slots) here fits,
      subst (λ (m : FreeListNode). Chain (put_node nodes a n) m.next rest) here
          (subst (λ k. Chain (put_node nodes a n) k rest) (sym same)
            (Chain-put_node nodes a n (nodes a).next rest other c)),
    )

-- The pages of a list whose first node was replaced.
pub contents-first :
    (nodes : ℕ → FreeListNode) (a : ℕ) (n : FreeListNode) (rest : List ℕ)
    → Apart a rest
    → contents (put_node nodes a n) (a ∷ rest) ≡ slots n ++ a ∷ contents nodes rest
contents-first nodes a n rest other =
    ap₂ (λ (m : FreeListNode) more. slots m ++ a ∷ more) (put_node-same nodes a n)
      (contents-put_node nodes a n rest other)

pub slots-push :
    (node : FreeListNode) (page slot : ℕ)
    → slot < max_slots
    → node.free_slots ≡ slot + 1
    → slots (record node { free_slots = slot; free_pages = put_page node.free_pages slot page })
      ≡ page ∷ slots node
slots-push node page slot fits at =
    let left : max_slots - slot ≡ suc (max_slots - (slot + 1)) = omega arith in
    rw (left, at, ==_refl slot)
      (ap (λ more. page ∷ more)
        (run-put_page node.free_pages slot page (slot + 1) (max_slots - (slot + 1)) (omega arith)))

pub slots-take :
    (node : FreeListNode)
    → node.free_slots < max_slots
    → slots node
      ≡ node.free_pages node.free_slots ∷ slots (record node { free_slots = node.free_slots + 1 })
slots-take node fits =
    let left : max_slots - node.free_slots ≡ suc (max_slots - (node.free_slots + 1)) =
      omega arith in
    ap (run node.free_pages node.free_slots) left

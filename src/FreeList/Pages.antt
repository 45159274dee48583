-- ===== src/FreeList/Pages.antt =====
-- kernel/src/mm.rs: `push` and `pop` are those of a stack of pages.
use chocolate_milk.Base.{
  ℕ, ◌-◌, ◌≡◌, ◌≢◌, refl, sym, ap, subst, ◌∙◌, arith, Bool-cases, true, false, ◌==◌, ==→≢, inl, inr,
  ◌⊎◌, List, [], ◌∷◌, ◌++◌,
}
use chocolate_milk.Base.Outcome.{ok}
use chocolate_milk.FreeList.{FreeListNode, PageFreeList, put_page, push_slot, push}
use chocolate_milk.FreeList.Stack.{
  Apart, AllApart, IsPage, Chain, contents, IsStack, from_raw-ok, node_in_front, Chain-first,
  contents-first, slots-push,
}

-- The list has a first node, or no page.
pub record HasFirst (l : PageFreeList) (pages : List ℕ) : Type 0 where
  pub rest : List ℕ
  pub chain : Chain l.nodes l.head (l.head ∷ rest)
  pub apart : AllApart (l.head ∷ rest)
  pub holds : contents l.nodes (l.head ∷ rest) ≡ pages

first_at :
    (l : PageFreeList) (pages addresses : List ℕ)
    → Chain l.nodes l.head addresses
    → AllApart addresses
    → contents l.nodes addresses ≡ pages
    → ((l.head ≡ 0) × (pages ≡ [])) ⊎ HasFirst l pages
first_at l pages [] c a h = inl (c, sym h)
first_at l pages (b ∷ rest) c a h =
    let at = sym c.0 in
    inr (record {
      rest = rest;
      chain = subst (λ k. Chain l.nodes l.head (k ∷ rest)) at c;
      apart = subst (λ k. AllApart (k ∷ rest)) at a;
      holds = subst (λ k. contents l.nodes (k ∷ rest) ≡ pages) at h;
    })

pub first_node :
    (l : PageFreeList) (pages : List ℕ)
    → IsStack l pages
    → ((l.head ≡ 0) × (pages ≡ [])) ⊎ HasFirst l pages
first_node l pages st = first_at l pages st.addresses st.chain st.apart st.holds

in_a_slot :
    (l : PageFreeList) (pages : List ℕ) (page : ℕ)
    → HasFirst l pages
    → (l.nodes l.head).free_slots ≢ 0
    → IsStack (push_slot l page (l.nodes l.head)) (page ∷ pages)
unfolding push_slot
in_a_slot l pages page f free =
    let node = l.nodes l.head in
    let slot = node.free_slots - 1 in
    let (_, good, few, _) = f.chain in
    let node' : FreeListNode = record node {
      free_slots = slot;
      free_pages = put_page node.free_pages slot page;
    } in
    record {
      addresses = l.head ∷ f.rest;
      chain = Chain-first l.nodes l.head node' f.rest f.apart.0 f.chain refl (omega arith);
      apart = f.apart;
      holds =
          contents-first l.nodes l.head node' f.rest f.apart.0
          ∙ (ap (λ more. more ++ l.head ∷ contents l.nodes f.rest)
                (slots-push node page slot (omega arith) (omega arith))
              ∙ ap (λ more. page ∷ more) f.holds);
    }

pub pushed :
    (l : PageFreeList) (pages : List ℕ) (page : ℕ)
    → IsStack l pages
    → IsPage page
    → Apart page pages
    → (l' : PageFreeList) × (push l page ≡ ok l') × IsStack l' (page ∷ pages)
unfolding push
pushed l pages page st good new =
    let in_front = node_in_front l pages page st good new in
    elim (first_node l pages st) [
      | inl (none', _) ↦
          let empty : (l.head == 0) ≡ true = ground arith in
          (in_front.0, rw empty in_front.1, in_front.2)
      | inr f ↦
          let page_at = f.chain.1 in
          let some_head : (l.head == 0) ≡ false = ground arith in
          elim (Bool-cases ((l.nodes l.head).free_slots == 0)) [
            | inl full ↦ (
              in_front.0,
              rw (some_head, from_raw-ok l.nodes l.head page_at, full) in_front.1,
              in_front.2,
            )
            | inr free ↦ (
              push_slot l page (l.nodes l.head),
              rw (some_head, from_raw-ok l.nodes l.head page_at, free) refl,
              in_a_slot l pages page f (==→≢ (l.nodes l.head).free_slots 0 free),
            )
          ]
    ]

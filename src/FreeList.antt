-- ===== src/FreeList.antt =====
-- kernel/src/mm.rs: the list of free 4 KiB pages, and the physical memory of the kernel over it. A
-- free page holds a node of the list, which `nodes` gives for the address of the page.
pub mod Stack
pub mod Pages
pub mod Lifo
use package.chocolate_milk.Base.{
  ℕ, zero, suc, ◌+◌, ◌-◌, ◌*◌, ◌/◌, ◌%◌, ◌^◌, Bool, ◌&&◌, ◌||◌, ltb, leb, ◌==◌, if◌then◌else◌,
  Option, none, some,
}
use package.chocolate_milk.Base.Outcome.{Outcome, ok, panic, ◌>>=◌, ◌>>◌, assert, unwrap}
use package.chocolate_milk.RangeSet.{Range, RangeSet, insert}
use package.chocolate_milk.RangeSet.Alloc.{checked_add, allocate_prefer}

abbrev pub max_slots : ℕ
max_slots = 510

pub record FreeListNode : Type 0 where
  pub next : ℕ
  pub free_slots : ℕ
  pub free_pages : ℕ → ℕ

pub record PageFreeList : Type 0 where
  pub head : ℕ
  pub nodes : ℕ → FreeListNode

abbrev pub put_node : (ℕ → FreeListNode) → ℕ → FreeListNode → ℕ → FreeListNode
put_node nodes a node b = if a == b then node else nodes b

abbrev pub put_page : (ℕ → ℕ) → ℕ → ℕ → ℕ → ℕ
put_page pages i page j = if i == j then page else pages j

abbrev pub free_list_batch : ℕ
free_list_batch = 1024 * 1024

-- The size of the window through which the kernel sees physical memory.
abbrev pub kernel_phys_window_size : ℕ
kernel_phys_window_size = 64 * 1024 * 1024 * 1024

pub from_raw : (ℕ → FreeListNode) → ℕ → Outcome FreeListNode
from_raw nodes paddr = unwrap (checked_add paddr 4095) >>= λ end.
    assert (ltb end kernel_phys_window_size) >> ok (nodes paddr)

-- A page as a new node in front of the list.
pub push_node : PageFreeList → ℕ → Outcome PageFreeList
push_node l page = do
  node ← from_raw l.nodes page
  ok (record {
    head = page;
    nodes = put_node l.nodes page (record node { next = l.head; free_slots = max_slots });
  })

-- A page in a slot of the first node.
pub push_slot : PageFreeList → ℕ → FreeListNode → PageFreeList
push_slot l page node =
    let slot = node.free_slots - 1 in
    let pages = put_page node.free_pages slot page in
    record l {
      nodes = put_node l.nodes l.head (record node { free_slots = slot; free_pages = pages });
    }

pub push : PageFreeList → ℕ → Outcome PageFreeList
push l page =
    if l.head == 0
    then push_node l page
    else (from_raw l.nodes l.head >>= λ node.
        if node.free_slots == 0 then push_node l page else ok (push_slot l page node))

-- The loop over the pages of a batch.
pub push_batch : ℕ → PageFreeList → ℕ → Outcome PageFreeList
push_batch zero l paddr = ok l
push_batch (suc left) l paddr = push l paddr >>= λ l'. push_batch left l' (paddr + 4096)

-- The end of `pop`, on a list that has been populated.
pub take_page : PageFreeList → Outcome (ℕ × PageFreeList)
take_page l = do
  node ← from_raw l.nodes l.head
  ok (
      if ltb node.free_slots max_slots
      then (
        node.free_pages node.free_slots,
        record l {
          nodes = put_node l.nodes l.head (record node { free_slots = node.free_slots + 1 });
        },
      )
      else (l.head, record l { head = node.next }))

-- `pop`, with the memory it takes a batch from.
pub pop : RangeSet → Option Range → PageFreeList → Outcome (ℕ × PageFreeList × RangeSet)
pop memory region l =
    if l.head == 0
    then (allocate_prefer (2 ^ 64 - 1) memory free_list_batch 4096 region >>= λ a.
        unwrap a.0 >>= λ alc. push_batch (free_list_batch / 4096) l alc >>= λ l'.
        take_page l' >>= λ p. ok (p.0, p.1, a.1))
    else (take_page l >>= λ p. ok (p.0, p.1, memory))

-- `PhysicalMemory::alloc_phys`
pub alloc_phys :
    RangeSet → Option Range → PageFreeList → ℕ → ℕ → Outcome (ℕ × PageFreeList × RangeSet)
alloc_phys memory region l size align =
    if (size == 4096) && leb 4096 align
    then pop memory region l
    else (allocate_prefer (2 ^ 64 - 1) memory size align region >>= λ a.
        unwrap a.0 >>= λ alc. ok (alc, l, a.1))

-- `PhysicalMemory::free_phys`
pub free_phys : RangeSet → PageFreeList → ℕ → ℕ → Outcome (PageFreeList × RangeSet)
free_phys memory l phys size =
    if (phys % 2 ^ 12 == 0) && (size == 4096)
    then (push l phys >>= λ l'. ok (l', memory))
    else (assert (ltb 0 size) >> unwrap (checked_add (size - 1) phys) >>= λ end.
        insert memory (record { start = phys; end = end }) >>= λ memory'. ok (l, memory'))

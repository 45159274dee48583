-- ===== src/Lib.antt =====
-- chocolate_milk is a kernel for x86_64 with its bootloader. This library models the parts whose
-- results the rest of the system builds on, as functions over the state that the code keeps.
--
-- Base holds what the parts share: Boolean tests, slices as lists with native indices (Base/Lists,
-- Base/Bytes), masks of words (Base/Bits), the outcome of code that may panic (Base/Outcome) and of
-- code that returns an `Option` and may panic (Base/Parsed), with Base/Returns and Base/Safe to reason
-- about them.
--
-- RangeSet models shared/rangeset/src/lib.rs, the set of inclusive ranges of u64 from which the
-- bootloader and the kernel allocate physical memory. A `RangeSet` has the array of 256 entries and
-- `in_use`, and each method returns the new set: delete, insert, remove and subtract in RangeSet,
-- sum, allocate_prefer and allocate in RangeSet/Alloc. RangeSet/Meaning says which addresses a set
-- holds and when a set is valid; the theorems stand in RangeSet/Sets, RangeSet/Alloc/Sound and
-- RangeSet/Alloc/Sum, over the lemmas of the other files. The labelled loops run on fuel `in_use + 1`:
-- each round of `'try_merges` but the last deletes an entry, and each round of `'try_subtractions` but
-- the last deletes one or is the only split. usize::MAX is a parameter. Arithmetic wraps where the
-- code says so, and elsewhere as a release build does.
--
-- Net models the packets of kernel/src/net.rs: the parsers `raw`, `eth`, `ip` and `udp`, the checksum
-- and the writer `create_udp_raw`. A `Packet` is the array of 4096 bytes and its length. The native
-- byte order is little endian. Net/Device models the queues of NetDevice
-- (`bind_udp`, `unbind_udp`, `recv_udp`) over an interface for the driver; a PacketLease that is dropped
-- is the release of its packet.
--
-- Dhcp models kernel/src/dhcp.rs: the options (`parse`, `serialize`) in Dhcp, the message over UDP
-- (`parse_dhcp_packet`, `create_dhcp_packet`) in Dhcp/Message, and `get_lease` in Dhcp/Lease, over the
-- sequence of UDP packets that its bind on port 68 hands to the closures. It uses the packets of Net.
-- The loop over the options runs on fuel, one unit for each byte, and every option takes at least
-- two. The time stamp, and the packets that the driver allocates, are arguments; a wait that the
-- packets do not end is a state of the result. Dhcp/Lease/Reading says which messages are offers and
-- acknowledgements, by their options.
--
-- PeParser models shared/pe_parser/src/lib.rs, with which the bootloader loads the kernel: `parse` and
-- `sections`, whose closure carries a state. The largest usize is an argument. `sections` is a loop
-- over the number of sections that `parse` read. The theorems stand in PeParser/Bounds.
--
-- FlattenPe models `flatten_pe` of src/main.rs, the build script, which lays the bootloader's file out as
-- it is loaded, with two passes of `sections`. FlattenPe/Fold makes a pass a fold over the list of
-- sections; the theorem stands in FlattenPe/Loads.
--
-- PageTable models shared/page_table/src/lib.rs, the 4-level tables of x86_64: `translate` in
-- PageTable, `free` in PageTable/Unmap, `map_raw`, `map_init` and `map` in PageTable/Map. Physical
-- memory is an interface, the record `PhysMem`: reads and writes of words, an allocator that gives
-- `none` where the code panics, and cr3. PageTable/Laws names what the tables rely on of it. A table
-- is its root's address, and `indices`, masks and shifts are quotients and remainders;
-- canonicalize_address is the one of shared/cpu/src/lib.rs. The loop of `free` runs on fuel, a unit
-- for each 4096 bytes and two more, since every round frees a page of 4096 bytes at least. The
-- theorems stand in PageTable/Address and, over the lemmas of its siblings, PageTable/Map/Mapped.
--
-- BootMemory models bootloader/src/mm.rs: `PhysicalMemory`, the global allocator and `init`, which puts
-- the memory map of the BIOS into a RangeSet. The BIOS is the interface `Bios`, whose answers a
-- theorem lists (`Lists`); the loop over them runs on fuel, one unit for each entry. The theorems stand
-- in BootMemory/Usable and BootMemory/Freed.
--
-- FreeList models the free pages of kernel/src/mm.rs: `PageFreeList` with `push` and `pop`, which takes a
-- batch of pages from a RangeSet, and `alloc_phys` and `free_phys` over both. A free page holds a node
-- of the list, which `nodes` gives for its address. FreeList/Stack says which pages a list holds, and
-- the theorems stand in FreeList/Lifo.
--
-- Acpi models kernel/src/acpi.rs: the states of the APICs, the search of `init` for the RSDP, on
-- the bytes of physical memory, `parse_header`, and in Acpi/Madt and Acpi/Srat `parse_madt` and
-- `parse_srat`, whose loops run on fuel, a unit for every two bytes of the table, which each entry takes
-- at least. Acpi/Tables has `init` from the RSDP to the launch of the cores. Acpi/Cores has the launch and
-- `core_checkin` as steps of the cores, one access each, in any order; a core is the number of its
-- APIC, and its way from the startup command through the bootloader to `core_checkin` is one step. The
-- theorems stand in Acpi/Search, Acpi/States, Acpi/Madt/Layout, Acpi/Srat/Affinity, Acpi/Tables/Found
-- and, over the stages of a core in Acpi/Cores/Stages, in Acpi/Cores/Barrier.
--
-- KernelMemory models of kernel/src/mm.rs, over PageTable, `alloc_virt_addr_4k`, the global
-- allocator and `PhysContig`, and in KernelMemory/Numa `register_numa_nodes` and `memory_range`, with
-- a theorem in KernelMemory/Numa/Local.
--
-- LockCell models shared/lockcell/src/lib.rs, the ticket lock. A party is a call of `lock_int` with the
-- guard it gives, `advance` is its next atomic access, and a run (`Reach`) interleaves the accesses of
-- any number of parties on any cores with changes of the interrupt state, which is the interface
-- `InterruptState`. The runs end where the 32-bit ticket would wrap around: a `try_lock` that
-- is held up between its load and its compare-and-swap while 2^32 tickets are taken would win a lock
-- that is taken. LockCell/Tickets, Invariant and Owner are the invariants; the theorems stand in
-- LockCell/Safety and, for the lock as a queue of parties, LockCell/Refines.
--
-- CoreReqs models `memmove`, `memcpy` and `memcmp` of shared/core_reqs/src/lib.rs on a memory of bytes;
-- the theorems stand in CoreReqs/Copy and CoreReqs/Compare.
--
-- E1000 models kernel/src/e1000.rs, the driver of the Intel network card: `recv`, `send` and the free list
-- in E1000, `probe` and `IntelGbit::new` in E1000/Setup. An `IntelGbit` carries beside its fields what the
-- card shares with it: the bytes of the packets by their physical addresses, and the frames that went
-- out. A packet is a physical address and a length, `Packet::new` and the drop of a packet are the
-- interface `PacketMemory`, which always has room, and a free list has its end first. The card acts
-- between the polls of the busy loop of `send`; the operations take what it does as a parameter, and
-- E1000/Nic says what the manual promises. E1000/Owned follows the packets: a slot of the ring, the free
-- list or somebody else has each. The theorems stand in E1000/Receive, E1000/Send/Waits and
-- E1000/Setup/Starts, over the address of the registers in E1000/Setup/Bar, their pages in
-- E1000/Setup/Mapped, the filled ring in E1000/Setup/Filled and the programmed registers in
-- E1000/Setup/Programmed. `new` maps the registers
-- and takes the memory of the rings from KernelMemory. The loop of `send` runs over the list of what
-- the card does, and the wait for the reset over the values of the register.
--
-- Pci models the types of kernel/src/pci.rs and its `init`, over the configuration space as a function of
-- what the address port has, with the drivers as a parameter; E1000/Setup has the one there is. The theorem
-- stands in Pci/Walk.
--
-- Apic models kernel/src/apic.rs: the registers, inter-processor interrupts and the timer in Apic, `init` and
-- the drop of an `Apic` in Apic/Lifetime. The hardware is a `Machine`: the words of the mapping, the machine
-- registers and the ports, of which the code sees what it has written and what the hardware does
-- between the rounds of a loop, a list. The theorem stands in Apic/Lifetime/Restored.
--
-- CoreLocals models the counters of kernel/src/core_locals.rs and the interrupt flag of the core, with a
-- theorem on nested sections in CoreLocals/Nested. Interrupts models kernel/src/interrupts.rs:
-- `interrupt_handler` over them and over the handlers as a parameter, which get the interrupt number
-- and the kernel's state, and the descriptor tables of `init`. The theorems stand in Interrupts/Handler
-- and Interrupts/Gate.
--
-- Not modelled: machine instructions, assembly and the calls of the BIOS, which are input and output,
-- and with them the entry of the bootloader (bootloader/src/main.rs), the download over PXE
-- (bootloader/src/pxe.rs), the serial port, the clock, and the panic handler with the soft reboot.
--
-- Tests runs the models on small inputs.
pub mod Acpi
pub mod Apic
pub mod Base
pub mod BootMemory
pub mod CoreLocals
pub mod CoreReqs
pub mod Dhcp
pub mod E1000
pub mod FlattenPe
pub mod FreeList
pub mod Interrupts
pub mod KernelMemory
pub mod LockCell
pub mod Net
pub mod PageTable
pub mod Pci
pub mod PeParser
pub mod RangeSet
pub mod Tests

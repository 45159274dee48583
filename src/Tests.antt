-- ===== src/Tests.antt =====
-- Runs of the models on small inputs, and the theorems at inputs that meet their hypotheses.
mod Acpi
mod Apic
mod BootMemory
mod CoreLocals
mod Cores
mod CoreReqs
mod Dhcp
mod E1000
mod Net
mod FlattenPe
mod FreeList
mod Interrupts
mod LockCell
mod PageTable
mod Pci
mod PeParser
mod RangeSet
mod Tables

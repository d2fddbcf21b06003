-- ===== src/StrMap.antt =====
-- native/src/strmap.py: the hash map and the hash set of strings that the native compiler uses.
pub mod Hash
pub mod Probe
pub mod Loops
pub mod Mask
pub mod Machine
pub mod Table
pub mod Locate
pub mod View
pub mod Invariant
pub mod Store
pub mod Entry
pub mod Grow
pub mod Rehash
pub mod Laws
pub mod Delete
pub mod DeleteLaws
pub mod Set
pub mod SetLaws
pub mod SetAdd
pub mod SetGrow
pub mod SetRoom
pub mod SetInsert
pub mod SetDuplicate

-- ===== src/Macmeta/Plist.antt =====
-- macmeta/plist.go: the parser of binary property lists.
pub mod Reading
pub mod Object
pub mod Lengths
pub mod Elements
pub mod Objects
pub mod Safe
mod Tests

-- ===== src/Matrix.antt =====
-- internal/matrix: the Matrix client behind the pages. One module for each part of the package.
pub mod Event
pub mod BTree
pub mod Ids
pub mod Tree
pub mod Verification
pub mod Refresh
pub mod Verified
pub mod KeyBackup
pub mod Rooms
pub mod Trees
pub mod Direct
pub mod Manager
pub mod Typing
mod Tests

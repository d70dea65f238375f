-- ===== src/Groups.antt =====
-- A group's members, their order and their summary: pages/projects/projectMembers.ts.
pub mod Members
pub mod Order
pub mod Assignment
pub mod Deletion
pub mod Tests

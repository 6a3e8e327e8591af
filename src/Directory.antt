-- ===== src/Directory.antt =====
-- main.py: the endpoints for contacts, groups, memberships and rules.
pub mod Paging
pub mod Contacts
pub mod Groups
pub mod Members
pub mod Rules
pub mod References
pub mod Integrity
pub mod Membership
pub mod Listing

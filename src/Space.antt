-- ===== src/Space.antt =====
-- flask_app/space_manager.py and prune_backed_up.py: what may be deleted from the run store.
pub mod Disk
pub mod Listing
pub mod Verify
pub mod Delete
pub mod Preserved
pub mod Deleted
pub mod Removed
pub mod Swept
pub mod Restore
pub mod Restored
pub mod Examples

-- ===== src/Friend/Requests.antt =====
-- The life of a friend request: AddFriend makes it, HandleRequest ends it.
pub mod Store
pub mod Handle
pub mod Settled
pub mod Pending
pub mod Blocked
pub mod Accepted

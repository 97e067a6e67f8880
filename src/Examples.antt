-- ===== src/Examples.antt =====
-- Each property of the library at a small list.
pub mod State
mod Inserting
mod Updating
mod Deleting
mod Searching
mod Building
mod Drawing
mod Picturing
mod Doubling
mod Returning
mod Sorting
mod Generating
pub mod TwoLists
mod Joining
mod Locking
mod Guarding
mod Storing
mod Intersecting

-- ===== src/Tests.antt =====
-- Tests of the definitions, and applications of the theorems at concrete values.
mod Wire
mod Sender
mod Receiving
mod Reaping
mod Peers
mod Transfers
mod Typing
mod Routing
mod Links
mod Rounds
mod Uploads
mod Setup
mod Listings
mod Courses
mod Discoveries
mod Turns
mod Trials
mod Releases

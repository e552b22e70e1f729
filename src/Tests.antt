-- ===== src/Tests.antt =====
-- Concrete inputs, and the theorems at them.
mod Sorting
mod Data
mod Access
mod Challenges
mod Log
mod Library
mod Directory
mod Adapter
mod Crowd
mod Response

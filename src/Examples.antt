-- ===== src/Examples.antt =====
-- The theorems at concrete inputs: loads, counters and tables as the code meets them.
mod Single
mod App
mod Sockets
mod Sample
mod Table
mod Preload
mod Register
mod Affinity
mod Schedule
mod Proc
mod Fork
mod Cores
mod Whole
mod Library
mod Pool

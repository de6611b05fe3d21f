-- ===== src/Examples.antt =====
-- The theorems at concrete inputs, over three small number types in place of `double`.
mod Sample
mod Numeric
mod Distribution
mod Sound
mod Pool
mod Rounds
mod Wire
mod Clients
mod Shares
mod Session
mod OverWire
mod Threads
mod Programs
mod Peers
mod Whole
mod Collecting

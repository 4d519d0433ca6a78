-- ===== src/Examples.antt =====
-- The theorems at concrete inputs, and tests of the definitions by evaluation.
mod Crc
mod RingBuffer
mod Allocate
mod Objects
mod Config
mod System
mod Links
mod Locking
mod Broadcast
mod Friends
mod Pipeline
mod CircularStack
mod Session
mod UserManager
mod Room
mod Packets
mod Server

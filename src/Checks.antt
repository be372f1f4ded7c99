-- ===== src/Checks.antt =====
-- Concrete inputs on which the theorems are applied.
mod Collecting
mod Databases
mod Datagrams
mod Files
mod Messages
mod Queues
mod Reports
mod Running
mod Settings
mod Threads
mod Usage

-- ===== src/Tests.antt =====
-- Concrete packets, buffers, queues and calls.
mod Packets
mod Media
mod Threads
mod Calls
mod Descriptions
mod Frames
mod Sessions
mod Processes
mod Generators
mod Sockets

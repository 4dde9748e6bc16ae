-- ===== src/Samples.antt =====
-- Small implementations of what the program takes from elsewhere, for the instances of the
-- theorems: decimal and big-endian notation, a lock service in memory, codecs of the model file, and
-- arguments of servers.
pub mod Notation
pub mod Memory
pub mod Codecs
pub mod Arguments

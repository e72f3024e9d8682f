-- ===== src/Who.antt =====
-- src/who.rs: the process behind an event: the container that a cgroup file names, and the
-- resolver's cache of recent lookups. Texts are lists of bytes; the clock is an argument.
pub mod Container
pub mod Resolver

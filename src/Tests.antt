-- ===== src/Tests.antt =====
-- Runs of the model at concrete inputs, and instances of the theorems.
mod Codec
mod Digest
mod Fields
mod Hosts
mod Mail
mod Names
mod Store
mod Trie
mod Uidl
mod Bodies
mod Servers

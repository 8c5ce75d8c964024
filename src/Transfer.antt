-- ===== src/Transfer.antt =====
-- config_transfer.py: the secrets of a serialized configuration, and what an export without a
-- passphrase holds, the merge of what is imported, and the envelope around both.
pub mod Redact
pub mod Merge
pub mod Secret
pub mod Hidden
pub mod Number
pub mod Envelope

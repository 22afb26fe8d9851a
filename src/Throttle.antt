-- ===== src/Throttle.antt =====
-- gw/throttle: token buckets, in memory and in a key-value store.
pub mod Bucket
pub mod Conf
pub mod Limiter
pub mod Kvdb

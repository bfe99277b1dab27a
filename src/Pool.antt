-- ===== src/Pool.antt =====
-- poolgate/pool: the state of one key, the pool of keys, the strategies and the scheduler.
pub mod Key
pub mod KeyPool
pub mod Strategy
pub mod Scheduler

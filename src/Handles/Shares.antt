-- ===== src/Handles/Shares.antt =====
-- crates/server/src/handles.rs: how the pool and each session's share follow from the limit on open
-- files.
use jackalopefs.Common.{ℕ, suc, ◌+◌, ◌*◌, ◌≤◌, ◌<◌, ◌≡◌, ◌⊎◌, arith}
use jackalopefs.Handles.Table.{
  pool_capacity, per_session, share_max, reserved_fds, max_connections, max_detached_sessions,
}

-- Of a limit on open files, the pool takes at least half, and leaves at most 2048 to the rest of
-- the server: 2048, or half, rounded down. The shares of all sessions together fit in the pool,
-- each at most 16384; and shares one greater would not fit, unless they are 16384.
pub per_session_lem :
    (limit : ℕ)
    → (limit ≤ 2 * pool_capacity limit)
      × (limit ≤ pool_capacity limit + reserved_fds)
      × ((pool_capacity limit + reserved_fds ≤ limit) ⊎ (2 * pool_capacity limit ≤ limit + 1))
      × (per_session limit * (max_connections + max_detached_sessions) ≤ pool_capacity limit)
      × (per_session limit ≤ share_max)
      × ((pool_capacity limit < suc (per_session limit) * (max_connections + max_detached_sessions))
          ⊎ (per_session limit ≡ share_max))
unfolding pool_capacity per_session
per_session_lem limit = ground arith

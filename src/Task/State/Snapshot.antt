-- ===== src/Task/State/Snapshot.antt =====
-- A client's state against the server's (state.rs, `snapshot` and `from_snapshot`).
use trx_rs.Common.{ℕ, String, none, some, ◌≡◌}
use trx_rs.Task.State.{RigSnapshot, snapshot, from_snapshot, band_name}

-- A snapshot whose band is that of its frequency, less its spectrum and the data of the virtual
-- channels, is the snapshot of the state that a client makes of it.
pub snapshot-from_snapshot :
    (label : ℕ → String) (n : RigSnapshot)
    → n.band ≡ band_name label n.info n.status.freq
    → snapshot label (from_snapshot n) ≡ some (record n { spectrum = none; vchan_rds = none })
unfolding snapshot from_snapshot
snapshot-from_snapshot label n h = rw h

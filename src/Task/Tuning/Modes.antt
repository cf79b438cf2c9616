-- ===== src/Task/Tuning/Modes.antt =====
-- The modes in which the tasks of the decoders run while they are enabled
-- (src/trx-server/src/audio.rs): the `matches!` that each of them starts from and repeats in its loop.
use trx_rs.Common.{Bool, true, false}
use trx_rs.Rig.Types.{RigMode, lsb, usb, cw, cwr, am, fm, dig, pkt}
use trx_rs.Task.Route.{History}

-- `mode_match` of `run_aprs_decoder_inner`, by `is_hf`
abbrev pub aprs_mode_match : Bool → RigMode → Bool
aprs_mode_match true dig = true
aprs_mode_match false pkt = true
aprs_mode_match _ _ = false

abbrev pub cw_runs : RigMode → Bool
cw_runs cw = true
cw_runs cwr = true
cw_runs _ = false

-- FT8 and FT4
abbrev pub ftx_runs : RigMode → Bool
ftx_runs dig = true
ftx_runs usb = true
ftx_runs _ = false

abbrev pub ft2_runs : RigMode → Bool
ft2_runs dig = true
ft2_runs usb = true
ft2_runs _ = false

abbrev pub wspr_runs : RigMode → Bool
wspr_runs dig = true
wspr_runs usb = true
wspr_runs _ = false

abbrev pub lrpt_runs : RigMode → Bool
lrpt_runs fm = true
lrpt_runs _ = false

abbrev pub is_wefax_mode : RigMode → Bool
is_wefax_mode usb = true
is_wefax_mode lsb = true
is_wefax_mode am = true
is_wefax_mode dig = true
is_wefax_mode _ = false

-- the test of the task that watches a counter
abbrev pub runs_in : History → RigMode → Bool
runs_in History.aprs m = aprs_mode_match false m
runs_in History.hf_aprs m = aprs_mode_match true m
runs_in History.cw m = cw_runs m
runs_in History.ft8 m = ftx_runs m
runs_in History.ft4 m = ftx_runs m
runs_in History.ft2 m = ft2_runs m
runs_in History.wspr m = wspr_runs m
runs_in History.lrpt m = lrpt_runs m
runs_in History.wefax m = is_wefax_mode m

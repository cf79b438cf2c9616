-- ===== src/Examples.antt =====
-- Tests of the model, and the theorems applied at concrete inputs.
mod Rig
mod Ftx
mod Hdlc
mod Message
mod Auth
mod Cat
mod Server
mod Task
mod Channels
mod Wspr
mod Decoders

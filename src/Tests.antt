-- ===== src/Tests.antt =====
-- Runs of the model on inputs that can be followed in the source, and each theorem at one input.
mod Recorder
mod Util
mod Chandef
mod Bitrate
mod Coalesce
mod Rates
mod Keys
mod Mesh
mod Reg
mod Nan
mod NanFunction
mod Scan
mod Request
mod Iw
mod Sched
mod Wowlan

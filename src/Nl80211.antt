-- ===== src/Nl80211.antt =====
-- The attribute types of wifi/iw/nl80211.h that iw puts into its messages.
pub mod Attr
pub mod Key
pub mod TxRate
pub mod PktPat
pub mod CoalesceRule
pub mod WowlanTrig
pub mod WowlanTcp
pub mod NanFunc
pub mod NanSrf
pub mod NanType
pub mod NanPublish
pub mod MeshConf
pub mod MeshPower

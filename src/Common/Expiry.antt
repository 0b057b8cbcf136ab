-- ===== src/Common/Expiry.antt =====
-- `expiryLevel` of internal/server/web/static/common.js and `bucket` of
-- internal/server/web/static/inventory.js.
use certguard.Base.{◌≡◌, arith, if◌then◌else◌}
use certguard.Base.Int.{ℤ, pos, leb_ℤ, ltb_ℤ}

pub data Level : Type 0 where
  urgent : Level
  warn : Level
  notice : Level
  ok : Level

unfoldable pub expiry_level : ℤ → Level
expiry_level days =
    if leb_ℤ days (pos 3)
    then urgent
    else if leb_ℤ days (pos 7)
    then warn
    else if leb_ℤ days (pos 30)
    then notice
    else ok

pub data Bucket : Type 0 where
  expired : Bucket
  within : Level → Bucket

unfoldable pub bucket : ℤ → Bucket
bucket days =
    if ltb_ℤ days (pos 0)
    then expired
    else if leb_ℤ days (pos 3)
    then within urgent
    else if leb_ℤ days (pos 7)
    then within warn
    else if leb_ℤ days (pos 30)
    then within notice
    else within ok

-- The level that a bucket's pill has.
abbrev pub level_of : Bucket → Level
level_of expired = urgent
level_of (within l) = l

-- A pill's level is that of the bucket, with what has expired counted as urgent.
pub expiry_level-bucket : (days : ℤ) → expiry_level days ≡ level_of (bucket days)
unfolding expiry_level bucket
expiry_level-bucket days = ground arith

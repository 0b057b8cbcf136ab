-- ===== src/Common/Colour.antt =====
-- `hexA` of internal/server/web/static/common.js: the channels of a colour.
use certguard.Base.{ℕ, ◌/◌, ◌%◌, ◌*◌, ◌+◌, ◌<◌, ◌≡◌, arith}

pub record Channels : Type 0 where
  pub red : ℕ
  pub green : ℕ
  pub blue : ℕ

-- `(n >> 16) & 255`, `(n >> 8) & 255` and `n & 255`
unfoldable pub channels : ℕ → Channels
channels n = record { red = n / 65536 % 256; green = n / 256 % 256; blue = n % 256 }

-- The channels of six hexadecimal digits are bytes, and together they are the number again.
pub channels-join :
    (n : ℕ)
    → n < 16777216
    → ((channels n).red < 256)
      × ((channels n).green < 256)
      × ((channels n).blue < 256)
      × ((channels n).red * 65536 + (channels n).green * 256 + (channels n).blue ≡ n)
unfolding channels
channels-join n h = (omega arith, omega arith, omega arith, omega arith)

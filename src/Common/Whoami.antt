-- ===== src/Common/Whoami.antt =====
-- The flags that `loadWhoami` of internal/server/web/static/common.js sets.
use certguard.Base.{◌≡◌, Bool, true, not, ◌&&◌, ◌||◌, if◌then◌else◌, arith}

pub record Whoami : Type 0 where
  pub secrets_enabled : Bool
  pub zk_enabled : Bool
  pub vault_passphrase : Bool
  pub vault_unlocked : Bool

-- `zk_unlocked` is `ZK.isUnlocked()`.
unfoldable pub vault_locked : Bool → Whoami → Bool
vault_locked zk_unlocked d =
    if d.zk_enabled
    then not zk_unlocked
    else d.secrets_enabled && (d.vault_passphrase && not d.vault_unlocked)

unfoldable pub vault_lockable : Whoami → Bool
vault_lockable d = d.zk_enabled || (d.secrets_enabled && d.vault_passphrase)

-- A vault that is locked is one that can be locked.
pub vault_locked-lockable :
    (zk_unlocked : Bool) (d : Whoami) → vault_locked zk_unlocked d ≡ true → vault_lockable d ≡ true
unfolding vault_locked vault_lockable
vault_locked-lockable zk_unlocked d h = ground arith

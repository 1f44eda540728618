-- ===== src/Daemon/Authority.antt =====
-- What a policy file that the daemon has loaded decides.
use busd.Prelude.{Result, ok}
use busd.Policy.Config.{Config, ConfigError}

abbrev valid : Config → Result ConfigError Config
valid c = ok c

-- ===== src/Domain/Claims/Enough.antt =====
-- graphrun/src/domain.rs: the passes that the fuel of `claim_loop` allows are enough.
use graphrun.Prelude.{nat_eq}
use graphrun.Map
use graphrun.Externals.{Externals}
use graphrun.Domain.State.{State}

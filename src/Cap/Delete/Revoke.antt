-- ===== src/Cap/Delete/Revoke.antt =====
-- `sys_cap_revoke`.
use seraph.Cap.CSpace.{CSpace}
use seraph.Cap.Derivation.Forest.{Forest}

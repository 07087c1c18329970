-- ===== src/Cap/Derive/Examples.antt =====
-- Derived capabilities at a small input: the theorems applied.
use seraph.Cap.Rights
use seraph.Cap.Lookup.{Lookup}
use seraph.Cap.Family.{spaces}
use seraph.Cap.Derive.{Kernel}

-- The object 8192 holds the space 7.
abbrev kernel : Kernel
kernel = record { spaces = spaces; ref_count = λ o. 3; cspace_of = λ o. 7 }

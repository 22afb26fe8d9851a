-- ===== src/Core/Handle/Tests.antt =====
-- The handle of an api to its database.
use gwf.Common.{true, false, ◌∷◌, [], String_eq}
use gwf.Core.{Walk}

abbrev walk : Walk
walk = record { calls = []; admitted = true ∷ []; abandoned_nodes = false ∷ [] }

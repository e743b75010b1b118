-- ===== src/Catalog/Selection/Tests.antt =====
-- Runs of the choice of an artifact.
use legacy_store.Base.{◌≢◌, []}
use legacy_store.Catalog.Samples.{lion, releases}
use legacy_store.Catalog.Selection.{choose_artifact}
use legacy_store.Catalog.Selection.Best.{IsChoice, choose_artifact-IsChoice}

releases-nonempty : releases ≢ []
releases-nonempty h = cc

choose_artifact-IsChoice_example : IsChoice lion releases (choose_artifact lion releases)
choose_artifact-IsChoice_example = choose_artifact-IsChoice lion releases releases-nonempty

-- ===== src/Catalog/Selection/Newer.antt =====
-- The order of `chooseArtifact` is one that a sort may use.
use legacy_store.Base.{◌≡◌, arith, true, false}
use legacy_store.Catalog.Row.{ArtifactRow}
use legacy_store.Catalog.Selection.{comes_before}
use legacy_store.Compatibility.Version.Order.{compare_versions-flip, compare_versions_trans}

pub comes_before-asym : (a b : ArtifactRow) → comes_before a b ≡ true → comes_before b a ≡ false
unfolding comes_before
comes_before-asym a b h = ground (arith, compare_versions-flip a.version b.version)

pub comes_before_trans :
    (a b c : ArtifactRow)
    → comes_before b a ≡ false
    → comes_before c b ≡ false
    → comes_before c a ≡ false
unfolding comes_before
comes_before_trans a b c h k =
    let u = a.version in
    let v = b.version in
    let w = c.version in
    ground (
      arith,
      compare_versions-flip u v,
      compare_versions-flip v w,
      compare_versions-flip u w,
      compare_versions_trans u v w,
      compare_versions_trans w v u,
      compare_versions_trans u w v,
      compare_versions_trans v u w,
      compare_versions_trans w u v,
      compare_versions_trans v w u,
    )

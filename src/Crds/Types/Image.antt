-- ===== src/Crds/Types/Image.antt =====
-- `ImageSpec` of crates/servarr-crds/src/v1alpha1/types.rs.
use servarr_operator.Prelude.{String, is_blank, if◌then◌else◌}

pub record ImageSpec : Type 0 where
  pub repository : String
  pub tag : String
  pub digest : String
  pub pull_policy : String

unfoldable pub merge_with : ImageSpec → ImageSpec → ImageSpec
merge_with self defaults = record {
  repository = if is_blank self.repository then defaults.repository else self.repository;
  tag = if is_blank self.tag then defaults.tag else self.tag;
  digest = self.digest;
  pull_policy = self.pull_policy;
}

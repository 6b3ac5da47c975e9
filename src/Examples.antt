-- ===== src/Examples.antt =====
-- The concrete inputs of the tests: a cluster, packages, and instances.
use vynil.Prelude.{Ordering, true, false, none, some, [], ◌∷◌, if◌then◌else◌, ltb}
use vynil.Prelude.Json.{string, null}
use vynil.Result.{ok}
use vynil.Semver.{SemverCrate, Version}
use vynil.Package.{VynilPackage, VynilPackageMeta, VynilPackageRequirement, tenant}
use vynil.Instance.{Instance, InstanceStatus}
use vynil.JukeBox.{JukeBox}
use vynil.Kube.{Cluster, sent, anonymous}
use vynil.Operator.Select.{JukeCacheItem, Cache}

abbrev pub some_version : Version
some_version = record { major = 1; minor = 2; patch = 3; pre = []; build = [] }

-- A crate that knows one version.
abbrev pub one_version_crate : SemverCrate
one_version_crate = record {
  version_parse = λ s. some some_version;
  version_display = λ v. "1.2.3";
  version_cmp = λ a b.
      if ltb a.patch b.patch
      then Ordering.lt
      else if ltb b.patch a.patch
      then Ordering.gt
      else Ordering.eq;
  prerelease_new = λ pre. some pre;
}

-- An instance named `app` of the package `web/site`.
abbrev pub fresh_instance : Instance
fresh_instance = record {
  kind = tenant;
  name = "app";
  namespace = "team";
  generation = some 2;
  annotations = [];
  jukebox = "box";
  category = "web";
  package_name = "site";
  init_from = none;
  options = none;
  status = none;
}

abbrev pub installed_status : InstanceStatus
installed_status = record {
  conditions = [];
  tag = some "1.0.0";
  tfstate = some "state";
  rhaistate = none;
  befores = none;
  vitals = none;
  scalables = none;
  others = none;
  posts = none;
  systems = none;
  crds = none;
}

abbrev pub installed_instance : Instance
installed_instance = record fresh_instance { status = some installed_status }

abbrev pub some_box : JukeBox
some_box = record {
  name = "box";
  generation = none;
  annotations = [];
  pull_secret = none;
  schedule = "0 3 * * *";
  status = none;
}

-- A cluster where all goes well: each CRD is there, each tag too, and jobs complete.
abbrev pub fair_cluster : Cluster
fair_cluster = record {
  semver = one_version_crate;
  version = "1.2.3";
  json_text = λ j. ok (b'"' ∷ b'1' ∷ b'"' ∷ []);
  digest = λ s. "digest";
  now = λ h. 7;
  crd = λ h. ok true;
  api_version = λ h. ok (string "1", string "30");
  services = λ h. ok [];
  system_instances = λ h. ok [];
  tenant_instances = λ h. ok [];
  tenant_namespaces = λ h. ok [];
  tenant_services = λ h. ok [];
  truth = λ h. ok true;
  map_string = λ h. ok "{}";
  registry_auth = λ h. ok anonymous;
  tag_exists = λ h. ok true;
  job = λ h. ok none;
  cron_job = λ h. ok false;
  rendered = λ h. ok null;
  written = λ h. ok tt;
  patched = λ h. ok fresh_instance;
  box_patched = λ h. ok some_box;
  published = λ h. sent;
  encoded = λ s. ok s;
  as_job = λ j. ok tt;
  unquoted = λ s. ok s;
  debug_text = λ s. s;
  waited = λ h. ok tt;
  deleted = λ h. ok false;
}

abbrev pub site_meta : VynilPackageMeta
site_meta = record {
  name = "site";
  category = "web";
  description = "A site";
  app_version = none;
  usage = tenant;
  features = [];
  backup_affinity = none;
}

abbrev pub site_package : VynilPackage
site_package = record {
  registry = "registry";
  image = "web/site";
  tag = "1.2.3";
  metadata = site_meta;
  requirements = VynilPackageRequirement.custom_resource_definition "routes" ∷ [];
  recommandations = none;
  options = none;
  value_script = none;
}

abbrev pub box_item : JukeCacheItem
box_item = record { pull_secret = none; packages = site_package ∷ [] }

abbrev pub box_cache : Cache
box_cache = ("box", box_item) ∷ []

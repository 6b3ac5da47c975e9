-- ===== src/Server/ClusterInfo.antt =====
-- server/src/collect/clusterinfo.rs: nodes, versions and classes of the cluster.
use vynil.Prelude.{
  code, String, Bool, false, not, Option, none, some, List, [], ◌∷◌, ◌++◌, map, ◌&&◌, ◌||◌, any,
  is_some, nat_eq, ◌==◌, if◌then◌else◌,
}
use vynil.Prelude.Dict.{Dict, lookup}
use vynil.Prelude.Text.{contains}
use vynil.Server.World.{
  World, Node, Deployment, StorageClass, list_nodes, list_api_groups, get_version, list_deployments,
  list_storage_classes, list_ingress_classes, Diag, pure, ask, get, ◌>>=◌,
}

pub record NodeInfo : Type 0 where
  pub name : String
  pub roles : List String
  pub instance_type : Option String
  pub arch : Option String
  pub os : Option String
  pub kubelet_version : Option String

pub record StorageClassInfo : Type 0 where
  pub name : String
  pub provisioner : String
  pub is_default : Bool

pub record ClusterInfo : Type 0 where
  pub nodes : List NodeInfo
  pub distribution : String
  pub kubernetes_version : String
  pub vynil_version : Option String
  pub storage_classes : List StorageClassInfo
  pub ingress_classes : List String

or_else : Option String → Option String → Option String
or_else none second = second
or_else (some value) second = some value

-- The value of the first of these labels that is there.
first_label : List String → Option (Dict String) → Option String
unfolding or_else lookup
first_label keys none = none
first_label [] (some labels) = none
first_label (key ∷ keys) (some labels) =
    or_else (lookup key labels) (first_label keys (some labels))

or_default : Option String → String
or_default none = ""
or_default (some s) = s

is_value : String → Option String → Bool
is_value expected none = false
is_value expected (some value) = value == expected

has : String → Dict String → Bool
unfolding lookup
has key labels = is_some (lookup key labels)

push_if : Bool → String → List String → List String
push_if test role roles = if test then roles ++ role ∷ [] else roles

label_roles : Option (Dict String) → List String
unfolding has push_if is_value contains
label_roles none = []
label_roles (some labels) =
    let standard =
      push_if
        (has "node-role.kubernetes.io/control-plane" labels
          || has "node-role.kubernetes.io/master" labels)
        "control-plane" [] in
    let worker = push_if (has "node-role.kubernetes.io/worker" labels) "worker" standard in
    let infra = push_if (has "node-role.kubernetes.io/infra" labels) "infra" worker in
    push_if
      (is_value "master" (lookup "kubernetes.io/role" labels)
        && not (contains infra "control-plane"))
      "control-plane" infra

default_role : List String → List String
default_role [] = "node" ∷ []
default_role (role ∷ roles) = role ∷ roles

unfoldable pub extract_roles : Node → List String
unfolding label_roles default_role
extract_roles node = default_role (label_roles node.labels)

unfoldable pub node_info : Node → NodeInfo
unfolding extract_roles first_label or_default
node_info node = record {
  name = or_default node.name;
  roles = extract_roles node;
  instance_type =
      first_label
        ("node.kubernetes.io/instance-type" ∷ "k8s.amazonaws.com/instance-type"
          ∷ "cloud.google.com/machine-type" ∷ [])
        node.labels;
  arch = first_label ("kubernetes.io/arch" ∷ "beta.kubernetes.io/arch" ∷ []) node.labels;
  os = first_label ("kubernetes.io/os" ∷ "beta.kubernetes.io/os" ∷ []) node.labels;
  kubelet_version = node.kubelet_version;
}

label_distribution : Dict String → Option String
unfolding has
label_distribution labels =
    if has "cloud.google.com/machine-type" labels
    then some "GKE"
    else if has "eks.amazonaws.com/nodegroup" labels
    then some "EKS"
    else if has "kubernetes.azure.com/agentpool" labels
    then some "AKS"
    else none

-- The first node that tells.
nodes_distribution : List Node → Option String
unfolding label_distribution or_else
nodes_distribution [] = none
nodes_distribution (node ∷ nodes) =
    or_else (elim node.labels [ none ↦ none | some labels ↦ label_distribution labels ])
      (nodes_distribution nodes)

ends_with : String → String → Bool
ends_with String.[] suffix = String.[] == suffix
ends_with (String.◌∷◌ c s) suffix =
    let rest = ends_with s suffix in String.◌∷◌ c s == suffix || rest

-- The text between the first colon and the next, `split(':').nth(1)`.
up_to_colon : String → String
up_to_colon String.[] = String.[]
up_to_colon (String.◌∷◌ c s) =
    let rest = up_to_colon s in if nat_eq (code c) b':' then String.[] else String.◌∷◌ c rest

image_tag : String → Option String
unfolding up_to_colon
image_tag String.[] = none
image_tag (String.◌∷◌ c s) =
    let rest = image_tag s in if nat_eq (code c) b':' then some (up_to_colon s) else rest

first_image : Option (List (Option String)) → Option String
first_image none = none
first_image (some []) = none
first_image (some (image ∷ images)) = image

tag_of_image : Option String → Option String
unfolding image_tag
tag_of_image none = none
tag_of_image (some image) = image_tag image

is_vynil : Option (Dict String) → Bool
unfolding is_value lookup
is_vynil none = false
is_vynil (some labels) = is_value "vynil" (lookup "app.kubernetes.io/name" labels)

-- The first deployment with the label decides.
unfoldable pub deployed_version : List Deployment → Option String
unfolding is_vynil tag_of_image first_image
deployed_version [] = none
deployed_version (deployment ∷ deployments) =
    let rest = deployed_version deployments in
    if is_vynil deployment.labels then tag_of_image (first_image deployment.images) else rest

storage_class_info : StorageClass → StorageClassInfo
unfolding or_default is_value lookup
storage_class_info sc = record {
  name = or_default sc.name;
  provisioner = sc.provisioner;
  is_default = elim sc.annotations [
    | none ↦ false
    | some annotations ↦
        is_value "true" (lookup "storageclass.kubernetes.io/is-default-class" annotations)
  ];
}

some_of : List (Option String) → List String
some_of [] = []
some_of (none ∷ names) = some_of names
some_of (some name ∷ names) = name ∷ some_of names

has_openshift : Option (List String) → Bool
unfolding ends_with
has_openshift none = false
has_openshift (some groups) = any (λ group. ends_with group "openshift.io") groups

listed_version : Option (List Deployment) → Option String
unfolding deployed_version
listed_version none = none
listed_version (some deployments) = deployed_version deployments

module _ (w : World) where
  unfoldable pub detect_distribution : Diag String
  unfolding nodes_distribution has_openshift
  detect_distribution = do
    nodes ← get list_nodes w.nodes
    elim (nodes_distribution nodes) [
      | some distribution ↦ pure distribution
      | none ↦ do
        groups ← ask list_api_groups w.api_groups
        pure (if has_openshift groups then "OpenShift" else "Unknown")
    ]

  unfoldable pub get_cluster_info : String → Diag ClusterInfo
  unfolding node_info detect_distribution listed_version storage_class_info some_of
  get_cluster_info vynil_namespace = do
    nodes ← get list_nodes w.nodes
    distribution ← detect_distribution
    kubernetes_version ← get get_version w.apiserver_version
    deployments ← ask (list_deployments vynil_namespace) w.deployments
    storage_classes ← get list_storage_classes w.storage_classes
    ingress_classes ← get list_ingress_classes w.ingress_classes
    pure (record {
      nodes = map node_info nodes;
      distribution = distribution;
      kubernetes_version = kubernetes_version;
      vynil_version = listed_version deployments;
      storage_classes = map storage_class_info storage_classes;
      ingress_classes = some_of ingress_classes;
    })

-- ===== src/Operator.antt =====
-- operator/controllers.go: the deployment that a Peer resource asks for: what the callback of
-- `CreateOrUpdate` makes of the deployment that it found, or of an empty one, but for the owner.
pub mod Peer
pub mod Service
pub mod Reconcile
pub mod Manager
mod Examples
use netso.Common.{ℕ, Bool, true, not, List, [], ◌∷◌, ◌++◌, Option, none, some, if◌then◌else◌}
use netso.Common.Bytes.{Bytes, codes, str_eq}

pub record Mount : Type 0 where
  pub name : Bytes
  pub mount_path : Bytes
  pub read_only : Bool

-- The test of a container by an HTTP request.
pub record Probe : Type 0 where
  pub path : Bytes
  pub port : ℕ
  pub period_seconds : ℕ

abbrev pub http_probe : Bytes → ℕ → Probe
http_probe path port = record { path = path; port = port; period_seconds = 5 }

pub record Container : Type 0 where
  pub name : Bytes
  pub image : Bytes
  pub command : List Bytes
  pub ports : List (Bytes × ℕ)
  pub probe : Option Probe
  pub mounts : List Mount

-- A volume that a secret fills.
pub record Volume : Type 0 where
  pub name : Bytes
  pub secret_name : Bytes

abbrev pub Labels : Type 0
Labels = List (Bytes × Bytes)

-- The resource that controls an object: its kind and its name.
pub record Owner : Type 0 where
  pub kind : Bytes
  pub name : Bytes

pub record Deployment : Type 0 where
  pub owner : Option Owner
  pub labels : Labels
  pub replicas : ℕ
  pub selector : Labels
  pub template_labels : Labels
  pub containers : List Container
  pub volumes : List Volume
  pub ready_replicas : ℕ

-- The fields that the reconciler reads of a Peer; a field that is missing reads as empty.
pub record PeerResource : Type 0 where
  pub namespace : Bytes
  pub name : Bytes
  pub hub_ref : Bytes
  pub network : Bytes
  pub peer_name : Bytes
  pub shell : Bytes
  pub image : Bytes
  pub authorized_clients_secret : Bytes

abbrev pub or_default : Bytes → Bytes → Bytes
or_default value fallback = if str_eq value [] then fallback else value

unfoldable pub agent_labels : PeerResource → Labels
agent_labels peer =
    (codes "app.kubernetes.io/name", codes "netso-agent")
    ∷ (codes "netso.trustsentinel.eu/peer", peer.name)
    ∷ []

unfoldable pub agent_command : PeerResource → List Bytes
agent_command peer =
    codes "netso-agent"
    ∷ codes "-hub"
    ∷ (codes "http://" ++ peer.hub_ref ++ codes ":8443")
    ∷ codes "-network"
    ∷ or_default peer.network (codes "default")
    ∷ codes "-name"
    ∷ or_default peer.peer_name peer.name
    ∷ codes "-shell"
    ∷ or_default peer.shell (codes "/bin/sh")
    ∷ []

-- The container, with the operator's own image for a peer that names none.
unfoldable pub agent_container : Bytes → PeerResource → Container
agent_container image peer =
    let plain : Container = record {
      name = codes "agent";
      image = or_default peer.image image;
      command = agent_command peer;
      ports = [];
      probe = none;
      mounts = [];
    } in
    if not (str_eq peer.authorized_clients_secret [])
    then record plain {
      command =
          agent_command peer
          ++ codes "-authorized-clients" ∷ codes "/etc/netso/authorized/authorized_clients" ∷ [];
      mounts =
          record {
            name = codes "authorized";
            mount_path = codes "/etc/netso/authorized";
            read_only = true;
          }
          ∷ [];
    }
    else plain

unfoldable pub agent_deployment : Bytes → PeerResource → Deployment → Deployment
agent_deployment image peer dep = record dep {
  labels = agent_labels peer;
  replicas = 1;
  selector = agent_labels peer;
  template_labels = agent_labels peer;
  containers = agent_container image peer ∷ [];
  volumes =
      if not (str_eq peer.authorized_clients_secret [])
      then record { name = codes "authorized"; secret_name = peer.authorized_clients_secret } ∷ []
      else dep.volumes;
}

-- ===== src/Config.antt =====
-- The parameters of a simulated client: emulated_client/emulated_client/src/config/mod.rs.
pub mod Settings
use Prim.Native.String.{String}
use mls_experimental_analysi.Base.{ℕ, ◌==◌, string_eq, if◌then◌else◌, Bool, List}

pub data Directory : Type 0 where
  server kademlia : Directory

pub data Paradigm : Type 0 where
  commit propose : Paradigm

pub data AuthorizationPolicy : Type 0 where
  random first last : AuthorizationPolicy

pub record OrchestratedParameters : Type 0 where
  pub max_active_committers : ℕ
  pub max_active_processers : ℕ
  pub auth_policy : AuthorizationPolicy

-- `impl From<String>` for the three enums.
unfoldable pub policy_from : String → AuthorizationPolicy
policy_from s =
    if s == "first"
    then AuthorizationPolicy.first
    else if s == "last"
    then AuthorizationPolicy.last
    else AuthorizationPolicy.random

unfoldable pub paradigm_from : String → Paradigm
paradigm_from s = if s == "propose" then Paradigm.propose else Paradigm.commit

unfoldable pub directory_from : String → Directory
directory_from s = if s == "kademlia" then Directory.kademlia else Directory.server

-- The numbers `f64`: a parameter, with the operations that the program uses.
pub record F64 : Type 1 where
  pub Float : Type 0
  pub lt : Float → Float → Bool
  pub is_zero : Float → Bool
  pub add : Float → Float → Float
  pub div : Float → Float → Float
  pub from_nat : ℕ → Float

-- `i64`
pub data I64 : Type 0 where
  pos : ℕ → I64
  -- `negsuc n` is the number `-1 - n`
  negsuc : ℕ → I64

pub record IndependentParameters (f : F64) : Type 0 where
  pub sleep_millis_min : I64
  pub sleep_millis_max : I64
  pub issue_update_chance : f.Float
  pub scale : Bool
  pub auth_policy : AuthorizationPolicy

pub data Behaviour (f : F64) : Type 0 where
  independent : IndependentParameters f → Behaviour f
  orchestrated : OrchestratedParameters → Behaviour f

pub record GossipSubConfig : Type 0 where
  pub address : String
  pub directory : Directory
  pub rendezvous_address : String
  pub rendezvous_id : String

pub data DsType : Type 0 where
  request : DsType
  pub_sub_mqtt : String → DsType
  gossip_sub : GossipSubConfig → DsType

pub record UserParameters (f : F64) : Type 0 where
  pub delivery_service : DsType
  pub server_url : String
  pub external_join : Bool
  pub join_chance : f.Float
  pub message_chance : f.Float
  pub message_length_min : ℕ
  pub message_length_max : ℕ
  pub groups : List String
  pub max_members : ℕ
  pub invite_chance : f.Float
  pub remove_chance : f.Float
  pub update_chance : f.Float
  pub behaviour : Behaviour f
  pub paradigm : Paradigm
  pub proposals_per_commit : ℕ
  pub mqtt_url : String

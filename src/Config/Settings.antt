-- ===== src/Config/Settings.antt =====
-- How the parameters are read: `new_from_settings` and the defaults of config/mod.rs and of
-- config/user_parameters.rs. A failed look-up is `none`, whatever its error.
use mls_experimental_analysi.Base.{
  ℕ, ◌-◌, ◌^◌, String, ◌≡◌, Bool, false, Option, none, some, List, [], ◌∷◌, arith, if◌then◌else◌,
  ◌==◌, string_eq, Outcome, returns, panics, ◌>>=◌, >>=-eq-returns, Result, ok, err,
}
use mls_experimental_analysi.Config.{
  F64, I64, Directory, Paradigm, AuthorizationPolicy, OrchestratedParameters, IndependentParameters,
  Behaviour, GossipSubConfig, DsType, UserParameters, policy_from, paradigm_from, directory_from,
}

-- The crate `config`, and `Url::parse`.
pub record Settings (f : F64) : Type 0 where
  pub get_int : String → Option I64
  pub get_float : String → Option f.Float
  pub get_bool : String → Option Bool
  pub get_string : String → Option String
  -- the elements as texts
  pub get_array : String → Option (List String)
  pub parse_url : String → Option String

abbrev unwrap_or : {A : Type 0} → Option A → A → A
unwrap_or none default = default
unwrap_or (some a) default = a

abbrev map_or : {A B : Type 0} → Option A → (A → B) → B → B
map_or none g default = default
map_or (some a) g default = g a

-- `as usize`, on 64 bits: a negative number wraps.
unfoldable pub as_usize : I64 → ℕ
as_usize (I64.pos n) = n
as_usize (I64.negsuc n) = 2 ^ 64 - 1 - n

-- A decimal fraction.
abbrev fraction : (f : F64) → ℕ → ℕ → f.Float
fraction f n d = f.div (f.from_nat n) (f.from_nat d)

abbrev pub default_orchestrated : OrchestratedParameters
default_orchestrated = record {
  max_active_committers = 100;
  max_active_processers = 100;
  auth_policy = AuthorizationPolicy.random;
}

abbrev pub default_gossip_sub : GossipSubConfig
default_gossip_sub = record {
  address = "0.0.0.0";
  directory = Directory.kademlia;
  rendezvous_address = "/dns/rendezvous/tcp/62649";
  rendezvous_id = "12D3KooWDpJ7As7BWAwRMfu1VU2WCqNjvq387JEYKDBj4kx6nXTN";
}

module _ {f : F64} where
  abbrev pub default_independent : IndependentParameters f
  default_independent = record {
    sleep_millis_min = I64.pos 10000;
    sleep_millis_max = I64.pos 30000;
    issue_update_chance = fraction f 5 10;
    scale = false;
    auth_policy = AuthorizationPolicy.random;
  }

  module _ (settings : Settings f) where
    open settings use {get_int, get_float, get_bool, get_string, get_array, parse_url}

    unfoldable pub independent_parameters : IndependentParameters f
    independent_parameters = record {
      sleep_millis_min =
          unwrap_or (get_int "independent.sleep_millis_min") default_independent.sleep_millis_min;
      sleep_millis_max =
          unwrap_or (get_int "independent.sleep_millis_max") default_independent.sleep_millis_max;
      issue_update_chance =
          unwrap_or (get_float "independent.issue_update_chance")
            default_independent.issue_update_chance;
      scale = unwrap_or (get_bool "independent.scale") default_independent.scale;
      auth_policy =
          map_or (get_string "independent.auth_policy") policy_from default_independent.auth_policy;
    }

    unfoldable pub orchestrated_parameters : OrchestratedParameters
    orchestrated_parameters = record {
      max_active_committers =
          map_or (get_int "orchestrator.max_active_committers") as_usize
            default_orchestrated.max_active_committers;
      max_active_processers =
          map_or (get_int "orchestrator.max_active_processers") as_usize
            default_orchestrated.max_active_processers;
      auth_policy =
          map_or (get_string "orchestrator.auth_policy") policy_from
            default_orchestrated.auth_policy;
    }

    unfoldable pub gossip_sub_config : GossipSubConfig
    gossip_sub_config = record {
      address = unwrap_or (get_string "gossipsub.address") default_gossip_sub.address;
      directory =
          map_or (get_string "gossipsub.directory") directory_from default_gossip_sub.directory;
      rendezvous_address =
          unwrap_or (get_string "gossipsub.rendezvous_address")
            default_gossip_sub.rendezvous_address;
      rendezvous_id =
          unwrap_or (get_string "gossipsub.rendezvous_id") default_gossip_sub.rendezvous_id;
    }

    -- `cgka.ds`, with the address of the broker.
    abbrev ds_type : String → String → DsType
    ds_type mqtt_url ds =
        if ds == "mqtt"
        then DsType.pub_sub_mqtt mqtt_url
        else if ds == "gossipsub"
        then DsType.gossip_sub gossip_sub_config
        else DsType.request

    abbrev behaviour_from : String → Behaviour f
    behaviour_from b =
        if b == "orchestrated"
        then Behaviour.orchestrated orchestrated_parameters
        else Behaviour.independent independent_parameters

    abbrev pub invite_chance : f.Float
    invite_chance = unwrap_or (get_float "paradigm.invite_chance") (fraction f 6 10)

    abbrev pub remove_chance : f.Float
    remove_chance = unwrap_or (get_float "paradigm.remove_chance") (fraction f 1 10)

    abbrev pub update_chance : f.Float
    update_chance = unwrap_or (get_float "paradigm.update_chance") (fraction f 3 10)

    -- A configured address that is no URL panics.
    unfoldable pub server_url : Outcome String
    server_url = elim (get_string "http_server.url") [
      | none ↦ returns "http://localhost:8080"
      | some url ↦ elim (parse_url url) [ none ↦ panics | some parsed ↦ returns parsed ]
    ]

    abbrev pub user_parameters_with : String → UserParameters f
    user_parameters_with url =
        let mqtt_url = unwrap_or (get_string "mqtt.url") "tcp://localhost:1883" in
        record {
          delivery_service = map_or (get_string "cgka.ds") (ds_type mqtt_url) DsType.request;
          server_url = url;
          external_join = unwrap_or (get_bool "cgka.external_join") false;
          join_chance = unwrap_or (get_float "cgka.join_chance") (fraction f 5 100);
          message_chance = unwrap_or (get_float "cgka.message_chance") (fraction f 4 10);
          message_length_min = map_or (get_int "cgka.message_length_min") as_usize 200;
          message_length_max = map_or (get_int "cgka.message_length_max") as_usize 2000;
          groups = unwrap_or (get_array "cgka.groups") ("group_AAA" ∷ []);
          max_members = map_or (get_int "cgka.max_members") as_usize 1000;
          invite_chance = invite_chance;
          remove_chance = remove_chance;
          update_chance = update_chance;
          behaviour =
              map_or (get_string "meta.behaviour") behaviour_from
                (Behaviour.independent default_independent);
          paradigm = map_or (get_string "paradigm.paradigm") paradigm_from Paradigm.commit;
          proposals_per_commit = map_or (get_int "paradigm.proposals_per_commit") as_usize 2;
          mqtt_url = mqtt_url;
        }

    abbrev checked : String → Outcome (Result (UserParameters f))
    checked url =
        if f.lt (f.from_nat 1) (f.add (f.add invite_chance remove_chance) update_chance)
        then returns (
            err
              "The sum of \"invite_chance\", \"remove_chance\", \"update_chance\" cannot be greater than 1.0")
        else returns (ok (user_parameters_with url))

    unfoldable pub user_parameters : Outcome (Result (UserParameters f))
    user_parameters = server_url >>= checked

    checked-chances :
        (url : String) (p : UserParameters f)
        → checked url ≡ returns (ok p)
        → f.lt (f.from_nat 1) (f.add (f.add p.invite_chance p.remove_chance) p.update_chance)
          ≡ false
    checked-chances url p e = ground arith

    -- Where the user's parameters are read without an error or a panic, the sum of the chances of
    -- an invitation, a removal and an update is not above one.
    pub user_parameters-chances :
        (p : UserParameters f)
        → user_parameters ≡ returns (ok p)
        → f.lt (f.from_nat 1) (f.add (f.add p.invite_chance p.remove_chance) p.update_chance)
          ≡ false
    unfolding user_parameters
    user_parameters-chances p e =
        let (url, at, rest) = >>=-eq-returns server_url checked e in checked-chances url p rest

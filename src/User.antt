-- ===== src/User.antt =====
-- A user: emulated_client/src/user.rs. A method takes the user's state to a new state and a result,
-- or panics; what it has changed stays when it ends in an error. OpenMLS, the clock, the profiler,
-- the connections and the channel to the agent are a parameter, `Library`.
use mls_experimental_analysi.Base.{
  ℕ, String, Bool, List, [], ◌∷◌, Option, none, some, Bytes, Outcome, returns, panics, spins,
  Result, ok, err,
}
use mls_experimental_analysi.Base.Dict.{Dict}
use mls_experimental_analysi.Config.{OrchestratedParameters, Directory}
use mls_experimental_analysi.Orchestrator.{Orchestrator}
use mls_experimental_analysi.DsLib.{
  Mls, GroupMessage, GroupInfoAndTree, WelcomeAcknowledgement, HashedPackage,
}
use mls_experimental_analysi.Agent.{Timing, CgkaAction}
use mls_experimental_analysi.Agent.Display.{Format}
use mls_experimental_analysi.Conversation.{Conversation}
use mls_experimental_analysi.Identity.{Identity}
pub mod Monad
pub mod Keeps
pub mod Blocks
pub mod Members
pub mod Logs
pub mod Delivery
pub mod Commits
pub mod Messages
pub mod Receive
pub mod Inbox
pub mod Groups
pub mod Proposals
pub mod Frames
pub mod Reception
pub mod Arrivals
pub mod Pending
pub mod Inactive
pub mod Sent
pub mod Journal
pub mod Roster
pub mod Acks
pub mod Counting
pub mod Sample
mod Tests
pub mod Setup

pub record Contact : Type 0 where
  pub username : String
  pub id : Bytes

-- The timestamp is in nanoseconds.
pub record EpochChange : Type 0 where
  pub timestamp : ℕ
  pub epoch : ℕ

pub record ActionRecord (t : Timing) : Type 0 where
  pub group_name : String
  pub action : CgkaAction t
  pub epoch_change : EpochChange
  pub elapsed_time : ℕ
  pub num_users : ℕ

pub data PostUpdateActions : Type 0 where
  keep remove : PostUpdateActions

-- The broker of the last two is one of the connections.
pub data DeliveryService : Type 0 where
  request pub_sub_mqtt : DeliveryService
  gossip_sub : Directory → DeliveryService

pub data ContentType : Type 0 where
  application proposal commit : ContentType

-- The proposals of a group, as far as the user looks at them.
pub data Proposal : Type 0 where
  add : Bytes → Proposal
  remove : ℕ → Proposal
  update other : Proposal

-- What the user asks OpenMLS to propose.
pub data Propose (m : Mls) : Type 0 where
  update : Propose m
  add : m.KeyPackage → Propose m
  remove : ℕ → Propose m

-- The content of a message that was processed; a commit is staged.
pub data Processed (Staged Queued : Type 0) : Type 0 where
  application : Bytes → Processed Staged Queued
  proposal : Queued → Processed Staged Queued
  external_join_proposal : Processed Staged Queued
  staged_commit : Staged → Processed Staged Queued

-- The end of `process_message`: a content with the identity of its sender, one of the four errors
-- that stand for a conflict, or another error.
pub data Receipt (Staged Queued : Type 0) : Type 0 where
  accepted : Bytes → Processed Staged Queued → Receipt Staged Queued
  conflict : Receipt Staged Queued
  refused : String → Receipt Staged Queued

-- The body of a message; the last stands for the formats that are not supported.
pub data Body (Protocol Welcome : Type 0) : Type 0 where
  welcome : Welcome → Body Protocol Welcome
  private_message public_message : Protocol → Body Protocol Welcome
  unsupported : Body Protocol Welcome

-- A commit that OpenMLS has made, with the welcome and the group info that go with it.
abbrev pub Bundle : Mls → Type 0
Bundle m = m.Message × Option m.Message × Option m.GroupInfo

-- Where key packages and group infos are kept: the delivery service's HTTP interface, or the
-- broker's distributed table. The first finds a contact by its id, the second by its name.
pub record KeyDirectory (m : Mls) (Env : Type 0) : Type 0 where
  pub publish_key_package : Bytes → HashedPackage m → Env → Outcome (Env × Result (Unit {0}))
  pub consume_key_package : Contact → Env → Outcome (Env × Result m.KeyPackage)
  pub group_exists : String → Env → Outcome (Env × Result Bool)
  pub group_info : String → Env → Outcome (Env × Result (GroupInfoAndTree m))
  pub publish_group_info : String → GroupInfoAndTree m → Env → Outcome (Env × Result (Unit {0}))

-- The libraries that the user calls. `Env` is all that they keep; a call takes it to a new one.
pub record Library (m : Mls) (t : Timing) : Type 1 where
  pub Env : Type 0
  pub MlsGroup : Type 0
  pub Protocol : Type 0
  pub Welcome : Type 0
  pub StagedWelcome : Type 0
  pub Staged : Type 0
  pub Queued : Type 0
  -- `as_bytes` and `from_utf8`
  pub as_bytes : String → Bytes
  pub from_utf8 : Bytes → Option String
  -- messages
  pub extract : m.Message → Body Protocol Welcome
  pub into_protocol_message : m.Message → Option Protocol
  pub message_group_id : Protocol → Bytes
  pub message_epoch : Protocol → ℕ
  pub content_type : Protocol → ContentType
  pub serialized_len : m.Message → ℕ
  pub tree_len : Option m.RatchetTree → ℕ
  pub info_len : m.GroupInfo → ℕ
  pub new_members : Welcome → List Bytes
  -- groups
  pub epoch : MlsGroup → ℕ
  pub group_id : MlsGroup → Bytes
  pub members : MlsGroup → List (ℕ × Bytes)
  pub own_leaf_index : MlsGroup → ℕ
  pub transcript_hash : MlsGroup → Bytes
  pub export_ratchet_tree : MlsGroup → m.RatchetTree
  pub pending_proposals : MlsGroup → List Queued
  pub queued_proposal : Queued → Proposal
  pub remove_pending_proposal : Queued → MlsGroup → Env → Env × MlsGroup × Result (Unit {0})
  pub store_pending_proposal : Queued → MlsGroup → Env → Env × MlsGroup × Result (Unit {0})
  pub set_aad : Bytes → MlsGroup → MlsGroup
  pub create : String → Identity m → Env → Env × Option MlsGroup
  pub stage_welcome : Welcome → m.RatchetTree → Env → Env × Result StagedWelcome
  pub into_group : StagedWelcome → Env → Env × Result MlsGroup
  pub join_by_external_commit :
      String
      → Identity m
      → GroupInfoAndTree m
      → Env
      → Env × Option (MlsGroup × m.Message × Option m.GroupInfo)
  pub export_group_info : Identity m → MlsGroup → Env → Env × Result m.GroupInfo
  pub process_message : Protocol → MlsGroup → Env → Env × MlsGroup × Receipt Staged Queued
  pub add_names : Staged → List Bytes
  pub removed : Staged → List ℕ
  pub staged_hash : Staged → Bytes
  pub self_removed : Staged → Bool
  pub merge_staged_commit : Staged → MlsGroup → Env → Env × MlsGroup × Result (Unit {0})
  pub merge_pending_commit : MlsGroup → Env → Env × MlsGroup × Result (Unit {0})
  pub create_message : String → MlsGroup → Env → Env × MlsGroup × Result m.Message
  pub add_members :
      m.KeyPackage
      → MlsGroup
      → Env
      → Env × MlsGroup × Result (m.Message × m.Message × Option m.GroupInfo)
  pub self_update : MlsGroup → Env → Env × MlsGroup × Result (Bundle m)
  pub remove_members : ℕ → MlsGroup → Env → Env × MlsGroup × Result (Bundle m)
  pub commit_to_pending_proposals : MlsGroup → Env → Env × MlsGroup × Result (Bundle m)
  pub propose : Propose m → MlsGroup → Env → Env × MlsGroup × Result m.Message
  -- key packages
  pub build_key_package : Identity m → Env → Env × m.KeyPackage
  pub hash_ref : m.KeyPackage → Bytes
  -- the clock, the profiler, a fair coin, and a choice of some elements of a list
  pub timestamp : Env → Env × ℕ
  pub elapsed : Env → Env × ℕ
  pub commit_times : Env → Env × (t.CryptoTime × t.MergeTime)
  pub process_times : Env → Env × (t.ProcessCryptoTime × t.MergeTime)
  pub merge_total : Env → Env × ℕ
  pub coin : Env → Env × Bool
  pub choose_multiple : ℕ → List Queued → Env → Env × List Queued
  -- the delivery service and the brokers; each call may panic
  pub backend : KeyDirectory m Env
  pub kademlia : KeyDirectory m Env
  pub register_client : String → Identity m → Env → Outcome (Env × Result (Unit {0}))
  pub list_clients : Env → Outcome (Env × Result (List Contact))
  pub recv_msgs : Bytes → Env → Outcome (Env × Result (List (GroupMessage m)))
  -- the connection that messages go through; the last argument of a broker is the topic's name
  pub post_message : GroupMessage m → Env → Outcome (Env × Result (Unit {0}))
  pub post_welcome : GroupMessage m → Env → Outcome (Env × Result (Unit {0}))
  pub broker_send_msg : GroupMessage m → String → Env → Outcome (Env × Result (Unit {0}))
  pub broker_send_welcome : GroupMessage m → String → Env → Outcome (Env × Result (Unit {0}))
  pub broker_send_ack : WelcomeAcknowledgement → Env → Outcome (Env × Result (Unit {0}))
  pub broker_subscribe : String → Env → Outcome (Env × Result (Unit {0}))
  pub broker_unsubscribe : String → Env → Outcome (Env × Result (Unit {0}))
  pub broker_subscribe_welcome : String → Env → Outcome (Env × Result (Unit {0}))
  -- the channel to the agent, and the file of log lines, which panics if it cannot be opened
  pub send_to_agent : String → Env → Outcome (Env × Result (Unit {0}))
  pub format : Format t
  pub append_file : String → Env → Outcome Env

pub data AgentType : Type 0 where
  orchestrator : OrchestratedParameters → Dict String Orchestrator → AgentType
  independent : AgentType

module _ {m : Mls} {t : Timing} (l : Library m t) where
  pub record Group : Type 0 where
    pub group_name : String
    pub conversation : Conversation
    pub mls_group : l.MlsGroup

  -- A welcome to be sent once its commit is confirmed, and to whom.
  pub record StoredWelcome : Type 0 where
    pub welcome : m.Message
    pub recipients : List String

  -- A commit that was sent and is not confirmed.
  pub record PendingCommit : Type 0 where
    pub group_info : Option m.GroupInfo
    pub stored_welcome : Option StoredWelcome
    pub action_record : ActionRecord t

  pub record User : Type 0 where
    pub username : String
    pub contacts : Dict Bytes Contact
    pub groups : Dict String Group
    pub group_list : List String
    pub identity : Identity m
    pub pending_commits : Dict String PendingCommit
    pub ds : DeliveryService
    pub active : Dict String (Bool × ℕ)
    pub agent_type : AgentType
    pub file_buffer : List (ActionRecord t)
    pub env : l.Env

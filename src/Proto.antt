-- ===== src/Proto.antt =====
-- The messages of proto/isglb.proto (generated: proto/isglb.pb.go). `ion.Node` and `anypb.Any`
-- come from other repositories, and so do `String` and `proto.Clone`: they are parameters.
use dion.Prelude.{Bool, List, String, ◌≡◌}

-- `ion.Node`, with the fields that dion reads, and `anypb.Any`.
pub record Ion : Type 1 where
  pub Node : Type 0
  pub nid : Node → String
  pub service : Node → String
  pub Any : Type 0

pub data Layer : Type 0 where
  q h f : Layer

pub record Subscription : Type 0 where
  pub track_id : String
  pub mute : Bool
  pub layer : Layer

pub record ClientNeededSession : Type 0 where
  pub session : String
  pub user : String

module _ (ion : Ion) where
  open ion use {Node, Any}

  pub record ForwardTrack : Type 0 where
    pub src : Node
    pub remote_session_id : String
    pub local_session_id : String
    pub tracks : List Subscription

  pub record ProceedTrack : Type 0 where
    pub dst_session_id : String
    pub procedure : Any
    pub src_session_id_list : List String

  pub record SfuStatus : Type 0 where
    pub sfu : Node
    pub forward_tracks : List ForwardTrack
    pub proceed_tracks : List ProceedTrack
    pub clients : List ClientNeededSession

-- The methods of a message type that the protobuf library provides.
pub record Message (M : Type 0) : Type 0 where
  pub text : M → String
  pub clone : M → M
  pub clone_lem : (m : M) → clone m ≡ m

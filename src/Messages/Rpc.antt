-- ===== src/Messages/Rpc.antt =====
-- Rpc/edgeserver.proto and Rpc/edgecontroller.proto: the messages on the wire, as records of the
-- fields that the generated classes read and write. `FunctionList` and `IndexList` wrap one
-- repeated field, and are that list here. A map of the wire comes in no particular order.
use serverlessonedge.Prelude.{ℕ, String, Bool, List}
use serverlessonedge.Prelude.Map.{Map}

pub record State : Type 0 where
  pub name : String
  pub location : String
  pub content : String

pub record Dag : Type 0 where
  pub successors : List (List ℕ)
  pub names : List String

pub record LambdaRequest : Type 0 where
  pub name : String
  pub input : String
  pub datain : String
  pub dry : Bool
  pub forward : Bool
  pub hops : ℕ
  pub states : Map State
  pub callback : String
  pub chain : List String
  pub dag : Dag
  pub dependencies : Map (List String)
  pub next_function_index : ℕ
  pub uuid : String

pub record LambdaResponse : Type 0 where
  pub retcode : String
  pub output : String
  pub responder : String
  pub ptime : ℕ
  pub dataout : String
  pub load1 : ℕ
  pub load10 : ℕ
  pub load30 : ℕ
  pub hops : ℕ
  pub states : Map State
  pub asynchronous : Bool

-- `ComputerInfo::Container`
pub record Container : Type 0 where
  pub name : String
  pub processor : String
  pub lambda : String
  pub num_workers : ℕ

pub record ComputerInfo : Type 0 where
  pub edge_server_endpoint : String
  pub containers : List Container

pub record StateResponse : Type 0 where
  pub retcode : String
  pub state : State

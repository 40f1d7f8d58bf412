-- ===== src/Messages/Response.antt =====
-- Edge/edgemessages.{h,cpp}: the responses to the requests.
pub mod RoundTrip
use serverlessonedge.Prelude.{
  ℕ, ◌%◌, ◌^◌, String, Bool, true, false, not, ◌&&◌, ◌||◌, [], str_eq, ◌==◌,
}
use serverlessonedge.Prelude.Map.{Map}
use serverlessonedge.Prelude.Equality.{same_map}
use serverlessonedge.Prelude.Float.{Float}
use serverlessonedge.Messages.Rpc
use serverlessonedge.Messages.AppState.{AppState, same_state, deserialize_states, serialize_states}

pub record LambdaResponse : Type 0 where
  pub ret_code : String
  pub output : String
  pub responder : String
  pub processing_time : ℕ
  pub data_out : String
  pub load1 : ℕ
  pub load10 : ℕ
  pub load30 : ℕ
  pub hops : ℕ
  pub states : Map AppState
  pub asynchronous : Bool

-- The loads of a processor in the last 1, 10 and 30 seconds.
pub record Loads (W : Type 0) : Type 0 where
  pub last1 : W
  pub last10 : W
  pub last30 : W

module _ {W : Type 0} (d : Float W) where
  -- A load in percent, as an `unsigned short`.
  abbrev pub percent : W → ℕ
  percent load = d.to_short (d.add d.half (d.mul load (d.of_nat 100))) % 2 ^ 16

  -- The private constructor.
  abbrev pub response_with : String → String → Loads W → Bool → LambdaResponse
  response_with ret_code output loads asynchronous = record {
    ret_code = ret_code;
    output = output;
    responder = "";
    processing_time = 0;
    data_out = "";
    load1 = percent loads.last1;
    load10 = percent loads.last10;
    load30 = percent loads.last30;
    hops = 0;
    states = [];
    asynchronous = asynchronous;
  }

  abbrev pub no_loads : Loads W
  no_loads = record { last1 = d.nought; last10 = d.nought; last30 = d.nought }

  -- An asynchronous response.
  abbrev pub create_asynchronous : LambdaResponse
  create_asynchronous = response_with "OK" "" no_loads true

  -- A synchronous response, without the loads and with them.
  abbrev pub create : String → String → LambdaResponse
  create ret_code output = response_with ret_code output no_loads false

  abbrev pub create_loaded : String → String → Loads W → LambdaResponse
  create_loaded ret_code output loads = response_with ret_code output loads false

-- The constructor from a message; a load is an `unsigned short`.
unfoldable pub from_protobuf : Rpc.LambdaResponse → LambdaResponse
from_protobuf msg = record {
  ret_code = msg.retcode;
  output = msg.output;
  responder = msg.responder;
  processing_time = msg.ptime;
  data_out = msg.dataout;
  load1 = msg.load1 % 2 ^ 16;
  load10 = msg.load10 % 2 ^ 16;
  load30 = msg.load30 % 2 ^ 16;
  hops = msg.hops;
  states = deserialize_states msg.states;
  asynchronous = msg.asynchronous;
}

-- `toProtobuf`
unfoldable pub to_protobuf : LambdaResponse → Rpc.LambdaResponse
to_protobuf r = record {
  retcode = r.ret_code;
  output = r.output;
  responder = r.responder;
  ptime = r.processing_time;
  dataout = r.data_out;
  load1 = r.load1;
  load10 = r.load10;
  load30 = r.load30;
  hops = r.hops;
  states = serialize_states r.states;
  asynchronous = r.asynchronous;
}

abbrev pub same_flag : Bool → Bool → Bool
same_flag true b = b
same_flag false b = not b

-- `operator==`
unfoldable pub same_response : LambdaResponse → LambdaResponse → Bool
same_response r s =
    str_eq r.ret_code s.ret_code
    && str_eq r.output s.output
    && str_eq r.responder s.responder
    && r.processing_time == s.processing_time
    && str_eq r.data_out s.data_out
    && r.load1 == s.load1
    && r.load10 == s.load10
    && r.load30 == s.load30
    && r.hops == s.hops
    && same_map same_state r.states s.states
    && same_flag r.asynchronous s.asynchronous

-- `removePtimeLoad`
unfoldable pub remove_ptime_load : LambdaResponse → LambdaResponse
remove_ptime_load r = record r { processing_time = 0; load1 = 0; load10 = 0; load30 = 0 }

-- ===== src/Storing/Client.antt =====
-- Edge/stateclient.cpp: the calls of the state server. gRPC hands the server's handler an empty
-- response; a call that fails in gRPC, for which the client throws, is left out.
use serverlessonedge.Prelude.{String, Bool, true, false, if◌then◌else◌, str_eq}
use serverlessonedge.Messages.Rpc.{State, StateResponse}
use serverlessonedge.Storing.Server
use serverlessonedge.Storing.Server.{StateRepo}

abbrev pub named : String → String → State
named name content = record { name = name; location = ""; content = content }

abbrev pub empty_response : StateResponse
empty_response = record { retcode = ""; state = named "" "" }

-- `StateClient::Get`: whether the state was found, and the string given by reference afterwards.
unfoldable pub get : String → String → StateRepo → Bool × String
unfolding Server.get
get name state repo =
    let response = Server.get (named name "") empty_response repo in
    if str_eq response.retcode "OK" then (true, response.state.content) else (false, state)

-- `StateClient::Put`
unfoldable pub put : String → String → StateRepo → StateRepo
unfolding Server.put
put name state repo = (Server.put (named name state) empty_response repo).1

-- `StateClient::Del`
unfoldable pub del : String → StateRepo → Bool × StateRepo
unfolding Server.del
del name repo =
    let answer = Server.del (named name "") empty_response repo in
    (str_eq answer.0.retcode "OK", answer.1)

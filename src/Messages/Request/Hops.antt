-- ===== src/Messages/Request/Hops.antt =====
-- Edge/edgemessages.cpp: the count of hops of a request that goes from node to node.
use serverlessonedge.Prelude.{
  ℕ, suc, ◌+◌, ◌%◌, ◌^◌, ◌<◌, String, Bool, true, List, [], ◌∷◌, length, All, Outcome, ok, ◌>>=◌,
  ◌≡◌, arith, ap, ◌∙◌, sym, OnReturn-ok,
}
use serverlessonedge.Prelude.Map.{Map}
use serverlessonedge.Messages.Rpc
use serverlessonedge.Messages.Wire.{Carries}
use serverlessonedge.Messages.Request.{
  LambdaRequest, copy, make_one_more_hop, from_protobuf, to_protobuf,
}
use serverlessonedge.Messages.Request.RoundTrip.{IsSendable, arrived, from_protobuf-to_protobuf}
use serverlessonedge.Messages.Request.Relay.{from_protobuf-IsSendable}

-- The two maps of a message, in the order in which they travel to the next node.
abbrev pub Way : Type 0
Way = Map Rpc.State × Map (List String)

-- A request that each node receives, and sends on by `makeOneMoreHop`, to the end of the way.
unfoldable pub travel : List Way → LambdaRequest → Outcome LambdaRequest
unfolding make_one_more_hop
travel [] r = ok r
travel (way ∷ ways) r =
    from_protobuf (arrived (to_protobuf (make_one_more_hop r)) way.0 way.1) >>= λ s. travel ways s

-- The way carries the maps of the request.
abbrev pub CarriesMaps : LambdaRequest → Way → Type 0
CarriesMaps r way =
    Carries (to_protobuf r).states way.0 × Carries (to_protobuf r).dependencies way.1

travel_from :
    (ways : List Way) (r : LambdaRequest)
    → IsSendable r
    → r.forward ≡ true
    → r.hops < 2 ^ 32
    → All (CarriesMaps r) ways
    → travel ways r ≡ ok (record r { hops = (r.hops + length ways) % 2 ^ 32 })
unfolding travel make_one_more_hop copy to_protobuf
travel_from [] r s f h a =
    let e : r.hops ≡ (r.hops + 0) % 2 ^ 32 = omega arith in
    ap (λ (m : ℕ). ok (record r { hops = m })) e
travel_from (way ∷ ways) r s f h a =
    let next = record r { hops = (r.hops + 1) % 2 ^ 32 } in
    let sendable : IsSendable next = record {
      states = s.states;
      dependencies = s.dependencies;
      chain = s.chain;
      dag = s.dag;
    } in
    let kept =
      (from_protobuf-to_protobuf next way.0 way.1 sendable a.0.0 a.0.1).0
      ∙ ap (λ (b : Bool). ok (record next { forward = b })) (sym f) in
    let e : ((r.hops + 1) % 2 ^ 32 + length ways) % 2 ^ 32 ≡ (r.hops + suc (length ways)) % 2 ^ 32 =
      omega arith in
    ap (λ (o : Outcome LambdaRequest). o >>= λ t. travel ways t) kept
    ∙ travel_from ways next sendable f (omega arith) a.1
    ∙ ap (λ (m : ℕ). ok (record r { hops = m })) e

-- A request that arrived, and that each of any number of nodes receives and sends on by
-- `makeOneMoreHop`, arrives at the last one, whatever the order in which its maps travel, with
-- nothing changed but its hops, which count the nodes modulo 2 ^ 32.
pub travel_lem :
    (msg : Rpc.LambdaRequest) (r : LambdaRequest) (ways : List Way)
    → from_protobuf msg ≡ ok r
    → r.hops < 2 ^ 32
    → All (CarriesMaps r) ways
    → travel ways r ≡ ok (record r { hops = (r.hops + length ways) % 2 ^ 32 })
travel_lem msg r ways e h a =
    let (s, forwarded) = OnReturn-ok _ (from_protobuf msg) r (from_protobuf-IsSendable msg) e in
    travel_from ways r s forwarded h a

-- ===== src/Messages/Containers.antt =====
-- Edge/edgecontrollermessages.cpp: the list of containers that a computer announces.
use serverlessonedge.Prelude.{String, List, [], ◌∷◌, ◌++◌, ◌≡◌, ap, map, sym, ◌∙◌}
use serverlessonedge.Controller.{ContainerInfo, ContainerList}
use mathlib.Core.List.{append-nil, append_assoc}
use serverlessonedge.Messages.Rpc

-- The loop of `toProtobuf`, which adds to the message one container after the other.
unfoldable pub containers_to : List Rpc.Container → ContainerList → List Rpc.Container
containers_to ret [] = ret
containers_to ret (c ∷ cs) =
    containers_to
      (ret
        ++ (record {
          name = c.name;
          processor = c.processor;
          lambda = c.lambda;
          num_workers = c.num_workers;
        }
            ∷ []))
      cs

-- `toProtobuf`
unfoldable pub to_protobuf : String → ContainerList → Rpc.ComputerInfo
unfolding containers_to
to_protobuf endpoint cs = record {
  edge_server_endpoint = endpoint;
  containers = containers_to [] cs;
}

-- The loop of `containerListFromProtobuf`.
unfoldable pub containers_from : ContainerList → List Rpc.Container → ContainerList
containers_from ret [] = ret
containers_from ret (c ∷ cs) =
    containers_from
      (ret
        ++ (record {
          name = c.name;
          processor = c.processor;
          lambda = c.lambda;
          num_workers = c.num_workers;
        }
            ∷ []))
      cs

-- `containerListFromProtobuf`
unfoldable pub container_list_from_protobuf : Rpc.ComputerInfo → ContainerList
unfolding containers_from
container_list_from_protobuf msg = containers_from [] msg.containers

abbrev wire : ContainerInfo → Rpc.Container
wire c = record {
  name = c.name;
  processor = c.processor;
  lambda = c.lambda;
  num_workers = c.num_workers;
}

containers_to_lem :
    (ret : List Rpc.Container) (cs : ContainerList) → containers_to ret cs ≡ ret ++ map wire cs
unfolding containers_to
containers_to_lem ret [] = sym (append-nil ret)
containers_to_lem ret (c ∷ cs) =
    containers_to_lem (ret ++ (wire c ∷ [])) cs ∙ append_assoc ret (wire c ∷ []) (map wire cs)

containers_from_lem : (ret cs : ContainerList) → containers_from ret (map wire cs) ≡ ret ++ cs
unfolding containers_from
containers_from_lem ret [] = sym (append-nil ret)
containers_from_lem ret (c ∷ cs) =
    containers_from_lem (ret ++ (c ∷ [])) cs ∙ append_assoc ret (c ∷ []) cs

-- The controller receives the list of containers that the computer announces, in its order.
pub container_list_from_protobuf-to_protobuf :
    (endpoint : String) (cs : ContainerList)
    → container_list_from_protobuf (to_protobuf endpoint cs) ≡ cs
unfolding container_list_from_protobuf to_protobuf
container_list_from_protobuf-to_protobuf endpoint cs =
    ap (containers_from []) (containers_to_lem [] cs) ∙ containers_from_lem [] cs

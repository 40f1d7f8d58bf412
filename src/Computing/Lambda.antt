-- ===== src/Computing/Lambda.antt =====
-- Edge/lambda.{h,cpp}: what a lambda request needs, and what it answers.
use Prim.Native.String.{len}
use serverlessonedge.Prelude.{ℕ, String, Bool, if◌then◌else◌}
use serverlessonedge.Prelude.Float.{Float}
use serverlessonedge.Messages.Request.{LambdaRequest}
use serverlessonedge.Messages.Response.{LambdaResponse, Loads, create_loaded}
use serverlessonedge.Computing.Processor.{Processor}

pub record LambdaRequirements : Type 0 where
  pub operations : ℕ
  pub memory : ℕ

pub record Lambda (W : Type 0) : Type 0 where
  pub name : String
  pub copy_input : Bool
  pub output : String
  pub converter : Processor W → LambdaRequest → LambdaRequirements

module _ {W : Type 0} (d : Float W) where
  -- `ProportionalRequirements::operator()`
  unfoldable pub proportional : W → W → W → W → Processor W → LambdaRequest → LambdaRequirements
  proportional op_coeff op_offset mem_coeff mem_offset p req =
      let size = d.of_nat (len req.input) in
      record {
        operations = d.truncate (d.add (d.add d.half op_offset) (d.mul op_coeff size));
        memory = d.truncate (d.add (d.add d.half mem_offset) (d.mul mem_coeff size));
      }

  -- `execute`: the states of the request are always copied.
  unfoldable pub execute : Lambda W → LambdaRequest → Loads W → LambdaResponse
  execute lambda req loads =
      record (create_loaded d "OK" (if lambda.copy_input then req.input else lambda.output) loads) {
        states = req.states;
      }

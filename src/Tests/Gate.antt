-- ===== src/Tests/Gate.antt =====
-- The health gate's pass at concrete data.
use pullpilot.Prelude.{refl}
use pullpilot.Std.Str.{bytes, str_eq}
use pullpilot.Engine.Gate.{health_gate}
use pullpilot.Engine.Gate.Pass.{Passed, health_gate-Passed}
use pullpilot.Engine.Apply.{op_context}
use pullpilot.Tests.Data.{host, settings, world}
use pullpilot.Engine.Daemon.Toy.{toy_host}

health_gate-Passed_example :
    Passed
      (host (bytes "healthy"))
      (op_context settings)
      (bytes "c0ffee")
      (health_gate (host (bytes "healthy")) (op_context settings) (bytes "c0ffee") settings world).1
unfolding health_gate toy_host str_eq
health_gate-Passed_example =
    health_gate-Passed (host (bytes "healthy")) (op_context settings) (bytes "c0ffee") settings
      world refl

-- ===== src/Outcome.antt =====
-- What a method of the `Apply` interface of pkg/bundle/bundle.go returns and leaves: its error, the
-- bundle that it was given a pointer to, and the state of what it works on.
use bundle_controller.Base.{String, Option}
use bundle_controller.Types.{Bundle}

pub record Outcome (S : Type 0) : Type 0 where
  pub failure : Option String
  pub bundle : Bundle
  pub state : S

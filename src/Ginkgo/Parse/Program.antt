-- ===== src/Ginkgo/Parse/Program.antt =====
-- What ginkgo/src/parse.rs makes of an expression, run by the machine of ginkgo/src/vm.rs.
use poplar.Ginkgo.Value.{Value}
use poplar.Ginkgo.Opcode.{Opcode}
use poplar.Ginkgo.Lex
use poplar.Ginkgo.Lex.{TokenType, Lex}
use poplar.Ginkgo.Vm.{Vm}
use poplar.Ginkgo.Parse.Evals.{Evals}
use poplar.Ginkgo.Parse.Placed.{Placed}
